-- ===== src/Extract.antt =====
-- internal/extract/extract.go: the codes and the links of a message. A text is the list of its bytes.
pub mod Candidates
pub mod Codes
pub mod Sorting
pub mod Distinct
pub mod Links
pub mod Html
pub mod Message
use phenk.Prelude.{
  ℕ, zero, suc, ◌*◌, ◌/◌, ◌%◌, ◌^◌, Bool, not, ◌&&◌, ◌||◌, Option, none, some, List, [], ◌∷◌, ◌++◌,
  ltb, leb, ◌==◌, if◌then◌else◌, length, get_elem?, take, Bytes,
}

-- A code with the line that it stands on.
pub record Code : Type 0 where
  pub value : Bytes
  pub context : Bytes

pub data LinkKind : Type 0 where
  verify unsubscribe other : LinkKind

pub record Link : Type 0 where
  pub url : Bytes
  pub text : Bytes
  pub kind : LinkKind

pub record Extracted : Type 0 where
  pub codes_found : List Code
  pub links_found : List Link

abbrev pub max_codes : ℕ
max_codes = 3

abbrev pub max_links : ℕ
max_links = 10

abbrev pub max_context : ℕ
max_context = 160

abbrev pub max_text : ℕ
max_text = 200

abbrev pub max_scan : ℕ
max_scan = 64 * 2 ^ 10

abbrev pub is_letter : ℕ → Bool
is_letter b = (leb b'a' b && leb b b'z') || (leb b'A' b && leb b b'Z')

-- `b&0xC0 != 0x80`: the two highest of the eight bits are not 10
abbrev pub is_rune_start : ℕ → Bool
is_rune_start b = not (b % 256 / 64 == 2)

unfoldable pub clip : Bytes → Bytes
clip s = if ltb max_scan (length s) then take max_scan s else s

-- The loop of `truncate`: the last place at or before `n` at which a rune starts.
abbrev pub byte_or_zero : Option ℕ → ℕ
byte_or_zero none = 0
byte_or_zero (some b) = b

unfoldable pub rune_cut : Bytes → ℕ → ℕ
rune_cut s zero = 0
rune_cut s (suc n) =
    let rest = rune_cut s n in
    if is_rune_start (byte_or_zero (get_elem? s (suc n))) then suc n else rest

-- `…`
abbrev pub ellipsis : Bytes
ellipsis = 226 ∷ 128 ∷ 166 ∷ []

unfoldable pub truncate : Bytes → ℕ → Bytes
unfolding rune_cut
truncate s n = if leb (length s) n then s else take (rune_cut s n) s ++ ellipsis

-- sort.SliceStable by a test that says which of two stands first.
abbrev pub insert_stably : {A : Type 0} → (A → A → Bool) → A → List A → List A
insert_stably before x [] = x ∷ []
insert_stably before x (y ∷ ys) =
    let rest = insert_stably before x ys in if before y x then y ∷ rest else x ∷ y ∷ ys

unfoldable pub sort_stably : {A : Type 0} → (A → A → Bool) → List A → List A
sort_stably before [] = []
sort_stably before (x ∷ xs) = insert_stably before x (sort_stably before xs)
