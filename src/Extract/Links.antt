-- ===== src/Extract/Links.antt =====
-- internal/extract/extract.go: `links`, `classify` and `cleanURL`. `url.Parse` is a parameter: it
-- returns the parts of an URL that the program reads, `text` being its `String()`.
pub mod Chosen
use phenk.Prelude.{
  ℕ, Bool, false, not, ◌||◌, Option, none, some, List, [], ◌∷◌, ◌++◌, map, ltb, if◌then◌else◌,
  is_empty, take, any, Bytes, codes, eq_bytes,
}
use phenk.Regexp.{
  Regex, byte_of, ◌&◌, text, word, choice, maybe, some_of, one_of, is_blank, matches, find_all,
}
use phenk.Strings.{trim_space, trim_right_bytes, fields, join}
use phenk.Extract.{
  Link, LinkKind, verify, unsubscribe, other, max_links, max_text, truncate, sort_stably,
}
use phenk.Extract.Candidates.{is_among, slice}

pub record Url : Type 0 where
  pub scheme : Bytes
  pub host : Bytes
  pub path : Bytes
  pub raw_query : Bytes
  pub text : Bytes

abbrev pub separator : Regex
separator = maybe (one_of (codes "-_ "))

abbrev pub gap : Regex
gap = one_of (codes "-_ ")

abbrev pub unsubscribe_re : Regex
unsubscribe_re = choice (word "unsubscribe") (
    (word "opt" & separator & word "out")
    ∷ (word "email" & separator & word "preferences")
    ∷ (word "notification" & separator & word "settings")
    ∷ (word "manage"
        & gap
        & maybe (word "your" & gap)
        & choice (word "email")
            (word "subscription" ∷ word "notification" ∷ word "preferences" ∷ []))
    ∷ [])

abbrev pub verify_re : Regex
verify_re = choice (word "verif") (
    word "confirm"
    ∷ word "activat"
    ∷ word "validat"
    ∷ word "magic"
    ∷ (word "sign" & separator & word "in")
    ∷ (word "log" & separator & word "in")
    ∷ word "reset"
    ∷ word "password"
    ∷ word "authenticat"
    ∷ word "token="
    ∷ word "code="
    ∷ word "otp"
    ∷ word "invit"
    ∷ word "accept"
    ∷ word "join"
    ∷ [])

-- What may not stand in a bare URL: a space, or one of < > " ' ` ] )
abbrev pub ends_url : ℕ → Bool
ends_url c = is_blank c || is_among (60 ∷ 62 ∷ 34 ∷ 39 ∷ 96 ∷ 93 ∷ 41 ∷ []) c

abbrev pub bare_url : Regex
bare_url =
    text "http" & maybe (text "s") & text "://" & some_of (byte_of (λ (c : ℕ). not (ends_url c)))

abbrev pub trims_url : ℕ → Bool
trims_url = is_among (codes ".,;:!?")

abbrev pub bare_link : Bytes → ℕ × ℕ → Link
bare_link s (a, b) = record {
  url = trim_right_bytes trims_url (slice s a b);
  text = [];
  kind = other;
}

unfoldable pub bare_links : Bytes → List Link
bare_links s = map (bare_link s) (find_all bare_url s)

abbrev pub rank : LinkKind → ℕ
rank verify = 0
rank other = 1
rank unsubscribe = 2

abbrev pub ranks_before : Link → Link → Bool
ranks_before a b = ltb (rank a.kind) (rank b.kind)

abbrev pub is_web : Url → Bool
is_web u = eq_bytes u.scheme (codes "http") || eq_bytes u.scheme (codes "https")

-- `seen[u]`: the map holds exactly the URLs of the links kept so far.
unfoldable pub seen_url : Bytes → List Link → Bool
seen_url u out = any (λ (l : Link). eq_bytes l.url u) out

module _ (parse_url : Bytes → Option Url) where
  abbrev pub acts_on : Option Url → Bool
  acts_on none = false
  acts_on (some u) = matches verify_re (u.path ++ (codes "?" ++ u.raw_query))

  unfoldable pub classify : Bytes → Bytes → LinkKind
  classify url text =
      if matches unsubscribe_re text || matches unsubscribe_re url
      then unsubscribe
      else if matches verify_re text
      then verify
      else if acts_on (parse_url url)
      then verify
      else other

  abbrev pub checked_url : Option Url → Option Bytes
  checked_url none = none
  checked_url (some u) =
      if is_empty u.host then none else if not (is_web u) then none else some u.text

  unfoldable pub clean_url : Bytes → Option Bytes
  clean_url raw = checked_url (parse_url (trim_space raw))

  unfoldable pub kept_link : Bytes → Bytes → Link
  unfolding classify
  kept_link u text =
      let shown = truncate (join (codes " ") (fields text)) max_text in
      record { url = u; text = shown; kind = classify u shown }

  abbrev pub add_cleaned : Bytes → Option Bytes → List Link → List Link
  add_cleaned text none out = out
  add_cleaned text (some u) out = if seen_url u out then out else out ++ (kept_link u text ∷ [])

  unfoldable pub kept_links : List Link → List Link → List Link
  unfolding clean_url kept_link
  kept_links [] out = out
  kept_links (l ∷ ls) out = kept_links ls (add_cleaned l.text (clean_url l.url) out)

  unfoldable pub links_of : List Link → Bytes → List Link
  unfolding kept_links sort_stably bare_links
  links_of anchors text =
      take max_links (sort_stably ranks_before (kept_links (anchors ++ bare_links text) []))
