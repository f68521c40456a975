-- ===== src/Mimeparse.antt =====
-- internal/mimeparse/mimeparse.go: the texts of a header, of a file name and of a preview.
pub mod Parts
pub mod Names
pub mod Bounds
use phenk.Prelude.{
  ℕ, zero, suc, ◌-◌, Bool, not, ◌&&◌, ◌||◌, Option, none, some, List, [], ◌∷◌, ◌++◌, map, ltb, leb,
  ◌==◌, if◌then◌else◌, length, is_empty, take, any, Bytes, codes,
}
use phenk.Strings.{
  trim_space, trim_bytes, fields, join, to_valid_utf8, runes, is_valid_utf8, has_prefix,
}

abbrev pub preview_length : ℕ
preview_length = 200

-- The bytes of a text without its control characters, each tab a space. They are all ASCII, so they
-- are found by their bytes.
abbrev pub is_control : ℕ → Bool
is_control c = ltb c 32 || c == 127

unfoldable pub without_controls : Bytes → Bytes
without_controls [] = []
without_controls (c ∷ s) =
    let rest = without_controls s in
    if c == 9 then 32 ∷ rest else if is_control c then rest else c ∷ rest

-- sanitizeHeaderText: a text that is valid is its own repair, and the empty one stays empty.
unfoldable pub sanitize_header_text : Bytes → Bytes
unfolding without_controls
sanitize_header_text s = trim_space (without_controls (to_valid_utf8 s))

unfoldable pub with_slashes : Bytes → Bytes
with_slashes = map (λ (c : ℕ). if c == b'\\' then b'/' else c)

-- What stands behind the last slash, or the whole text.
abbrev pub has_slash : Bytes → Bool
has_slash = any (λ (d : ℕ). d == b'/')

unfoldable pub base_name : Bytes → Bytes
base_name [] = []
base_name (c ∷ s) =
    let rest = base_name s in if has_slash s then rest else if c == b'/' then s else c ∷ s

abbrev pub is_dot : ℕ → Bool
is_dot c = c == b'.'

abbrev pub max_filename : ℕ
max_filename = 255

abbrev pub shortened : Bytes → Bytes
shortened s = if ltb max_filename (length s) then take max_filename s else s

-- safeFilename
unfoldable pub safe_filename : Bytes → Bytes
unfolding sanitize_header_text with_slashes base_name
safe_filename name =
    shortened
      (trim_space (trim_bytes is_dot (base_name (with_slashes (sanitize_header_text name)))))

-- collapseSpace
unfoldable pub collapse_space : Bytes → Bytes
collapse_space s = join (codes " ") (fields s)

-- The loop of `truncate`: bytes go from the end until the text is valid. Each round removes one, so
-- as many rounds as there are bytes are enough.
unfoldable pub valid_prefix : ℕ → Bytes → Bytes
valid_prefix zero s = s
valid_prefix (suc fuel) s =
    let rest = valid_prefix fuel (take (length s - 1) s) in
    if is_empty s then s else if is_valid_utf8 s then s else rest

abbrev pub ellipsis : Bytes
ellipsis = 226 ∷ 128 ∷ 166 ∷ []

unfoldable pub truncate : Bytes → ℕ → Bytes
unfolding valid_prefix
truncate s n = if leb (length s) n then s else trim_space (valid_prefix n (take n s)) ++ ellipsis

-- The loop of `textFromHTML` over the runes; `<` and `>` are ASCII, so they are found by their bytes.
abbrev pub next_depth : ℕ → ℕ → ℕ
next_depth depth c = if c == b'<' then suc depth else if c == b'>' then depth - 1 else depth

abbrev pub is_shown : ℕ → ℕ → Bool
is_shown depth c = depth == 0 && not (c == b'<' || c == b'>')

unfoldable pub outside_tags : ℕ → Bytes → Bytes
outside_tags depth [] = []
outside_tags depth (c ∷ s) =
    let rest = outside_tags (next_depth depth c) s in if is_shown depth c then c ∷ rest else rest

-- The entities and what they stand for, none the beginning of another.
abbrev pub entities : List (Bytes × Bytes)
entities =
    (codes "&nbsp;", codes " ")
    ∷ (codes "&amp;", codes "&")
    ∷ (codes "&lt;", codes "<")
    ∷ (codes "&gt;", codes ">")
    ∷ (codes "&quot;", 34 ∷ [])
    ∷ (codes "&#39;", 39 ∷ [])
    ∷ []

abbrev pub entity_at : List (Bytes × Bytes) → Bytes → Option (Bytes × Bytes)
entity_at [] s = none
entity_at (e ∷ es) s = let rest = entity_at es s in if has_prefix s e.0 then some e else rest

-- strings.NewReplacer: at each place the entity that stands there. The number counts the bytes left
-- of an entity that was replaced.
unfoldable pub unescape_for : ℕ → Bytes → Bytes
unescape_for n [] = []
unescape_for (suc n) (c ∷ s) = unescape_for n s
unescape_for zero (c ∷ s) = elim (entity_at entities (c ∷ s)) [
  | none ↦ c ∷ unescape_for zero s
  | some (old, new) ↦ new ++ unescape_for (length old - 1) s
]

unfoldable pub unescape_entities : Bytes → Bytes
unfolding unescape_for
unescape_entities s = unescape_for 0 s

unfoldable pub text_from_html : Bytes → Bytes
unfolding outside_tags unescape_entities
text_from_html h = unescape_entities (outside_tags 0 (runes h))

-- Message.Preview
unfoldable pub preview : Bytes → Bytes → Bytes
unfolding text_from_html collapse_space truncate
preview text html =
    truncate (collapse_space (if is_empty (trim_space text) then text_from_html html else text))
      preview_length
