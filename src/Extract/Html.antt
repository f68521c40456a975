-- ===== src/Extract/Html.antt =====
-- internal/extract/extract.go: `readHTML`. The tokenizer of golang.org/x/net/html is a parameter: it
-- gives the tokens of a body up to its first error, a tag with its name and attributes.
use phenk.Prelude.{
  ℕ, ◌+◌, ◌-◌, Bool, true, false, ◌&&◌, List, [], ◌∷◌, ◌++◌, ltb, if◌then◌else◌, is_empty, any,
  Bytes, codes, eq_bytes,
}
use phenk.Extract.{Link, other}

abbrev pub Attribute : Type 0
Attribute = Bytes × Bytes

pub data Token : Type 0 where
  text_token : Bytes → Token
  start_tag : Bytes → List Attribute → Token
  end_tag : Bytes → Token
  other_token : Token

-- `current`, when it is set, points at the last of the anchors.
pub record Reading : Type 0 where
  pub text : Bytes
  pub anchors : List Link
  pub in_anchor : Bool
  pub skip : ℕ

abbrev pub start_reading : Reading
start_reading = record { text = []; anchors = []; in_anchor = false; skip = 0 }

abbrev pub is_tag : List Bytes → Bytes → Bool
is_tag names t = any (λ (n : Bytes). eq_bytes n t) names

abbrev pub hidden_tags : List Bytes
hidden_tags = codes "script" ∷ codes "style" ∷ codes "head" ∷ codes "title" ∷ []

-- The tags at whose start and end a line ends; `br` and `hr` have no end.
abbrev pub block_tags : List Bytes
block_tags =
    codes "p"
    ∷ codes "div"
    ∷ codes "tr"
    ∷ codes "li"
    ∷ codes "h1"
    ∷ codes "h2"
    ∷ codes "h3"
    ∷ codes "h4"
    ∷ codes "h5"
    ∷ codes "h6"
    ∷ codes "table"
    ∷ codes "blockquote"
    ∷ []

abbrev pub breaking_tags : List Bytes
breaking_tags = codes "br" ∷ codes "hr" ∷ block_tags

abbrev pub cell_tags : List Bytes
cell_tags = codes "td" ∷ codes "th" ∷ []

unfoldable pub read_attribute : Link → Attribute → Link
read_attribute l (key, val) =
    if eq_bytes key (codes "href")
    then record l { url = val }
    else if is_tag (codes "aria-label" ∷ codes "title" ∷ []) key && is_empty l.text
    then record l { text = val }
    else l

unfoldable pub read_attributes : Link → List Attribute → Link
unfolding read_attribute
read_attributes l [] = l
read_attributes l (a ∷ attrs) = read_attributes (read_attribute l a) attrs

abbrev pub add_to_last : Bytes → List Link → List Link
add_to_last chunk [] = []
add_to_last chunk (l ∷ []) = record l { text = l.text ++ chunk } ∷ []
add_to_last chunk (l ∷ m ∷ ls) = l ∷ add_to_last chunk (m ∷ ls)

abbrev pub open_anchor : Link → Reading → Reading
open_anchor l r =
    if is_empty l.url then r else record r { anchors = r.anchors ++ (l ∷ []); in_anchor = true }

abbrev pub write : Bytes → Reading → Reading
write s r = record r { text = r.text ++ s }

unfoldable pub read_token : Reading → Token → Reading
unfolding read_attributes
read_token r (text_token chunk) = if ltb 0 r.skip then r else record r {
  text = r.text ++ chunk;
  anchors = if r.in_anchor then add_to_last chunk r.anchors else r.anchors;
}
read_token r (start_tag t attrs) =
    if is_tag hidden_tags t
    then record r { skip = r.skip + 1 }
    else if eq_bytes t (codes "a")
    then open_anchor (read_attributes (record { url = []; text = []; kind = other }) attrs) r
    else if is_tag breaking_tags t
    then write (codes "\n") r
    else if is_tag cell_tags t
    then write (codes " ") r
    else r
read_token r (end_tag t) =
    if is_tag hidden_tags t
    then record r { skip = r.skip - 1 }
    else if eq_bytes t (codes "a")
    then record r { in_anchor = false }
    else if is_tag block_tags t
    then write (codes "\n") r
    else r
read_token r other_token = r

unfoldable pub read_tokens : Reading → List Token → Reading
unfolding read_token
read_tokens r [] = r
read_tokens r (t ∷ ts) = read_tokens (read_token r t) ts

unfoldable pub read_html : (Bytes → List Token) → Bytes → Bytes × List Link
unfolding read_tokens
read_html tokenize body = let r = read_tokens start_reading (tokenize body) in (r.text, r.anchors)
