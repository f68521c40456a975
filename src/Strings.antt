-- ===== src/Strings.antt =====
-- Package strings on texts in UTF-8: the spaces of Unicode, and what trims and splits at them.
pub mod Ascii
pub mod Cases
pub mod Lower
use phenk.Prelude.{
  ℕ, zero, suc, ◌-◌, Bool, true, false, not, ◌&&◌, ◌||◌, List, [], ◌∷◌, ◌++◌, ltb, leb, ◌==◌,
  if◌then◌else◌, length, is_empty, drop, keep, Bytes, eq_bytes,
}

-- The spaces that take more than one byte: U+0085 and U+00A0 of two bytes, U+1680, U+2000 to U+200A,
-- U+2028, U+2029, U+202F, U+205F and U+3000 of three.
abbrev pub is_space_byte : ℕ → Bool
is_space_byte c = (leb 9 c && leb c 13) || c == 32

abbrev pub is_space_of_two : ℕ → ℕ → Bool
is_space_of_two c d = c == 194 && (d == 133 || d == 160)

abbrev pub is_space_of_three : ℕ → ℕ → ℕ → Bool
is_space_of_three c d e =
    (c == 225 && (d == 154 && e == 128))
    || ((c == 226 && (d == 128 && (leb 128 e && leb e 138 || (e == 168 || (e == 169 || e == 175)))))
        || ((c == 226 && (d == 129 && e == 159)) || (c == 227 && (d == 128 && e == 128))))

-- How many bytes the space takes at the start of a text, 0 when it starts with none.
abbrev pub space_len_three : ℕ → ℕ → Bytes → ℕ
space_len_three c d [] = 0
space_len_three c d (e ∷ s) = if is_space_of_three c d e then 3 else 0

abbrev pub space_len_two : ℕ → Bytes → ℕ
space_len_two c [] = 0
space_len_two c (d ∷ s) = if is_space_of_two c d then 2 else space_len_three c d s

unfoldable pub space_len : Bytes → ℕ
space_len [] = 0
space_len (c ∷ s) = if is_space_byte c then 1 else space_len_two c s

-- strings.TrimLeftFunc(s, unicode.IsSpace): each round removes a byte at least, so as many rounds as
-- there are bytes are enough.
unfoldable pub trim_left_for : ℕ → Bytes → Bytes
unfolding space_len
trim_left_for zero s = s
trim_left_for (suc fuel) s =
    let rest = trim_left_for fuel (drop (space_len s) s) in if space_len s == 0 then s else rest

unfoldable pub trim_left : Bytes → Bytes
unfolding trim_left_for
trim_left s = trim_left_for (length s) s

-- A text that is all spaces.
unfoldable pub is_all_space : Bytes → Bool
unfolding trim_left
is_all_space s = is_empty (trim_left s)

-- strings.TrimRightFunc(s, unicode.IsSpace): the shortest text with nothing but spaces behind it.
unfoldable pub trim_right : Bytes → Bytes
unfolding is_all_space
trim_right [] = []
trim_right (c ∷ s) = let rest = trim_right s in if is_all_space (c ∷ s) then [] else c ∷ rest

unfoldable pub trim_space : Bytes → Bytes
unfolding trim_left trim_right
trim_space s = trim_right (trim_left s)

-- strings.TrimRight with a set of ASCII bytes
unfoldable pub trim_right_bytes : (ℕ → Bool) → Bytes → Bytes
trim_right_bytes p [] = []
trim_right_bytes p (c ∷ s) =
    let rest = trim_right_bytes p s in if is_empty rest && p c then [] else c ∷ rest

-- strings.Split at one byte
abbrev pub onto_first : ℕ → List Bytes → List Bytes
onto_first c [] = (c ∷ []) ∷ []
onto_first c (l ∷ ls) = (c ∷ l) ∷ ls

unfoldable pub split_at : ℕ → Bytes → List Bytes
split_at b [] = [] ∷ []
split_at b (c ∷ s) = let rest = split_at b s in if c == b then [] ∷ rest else onto_first c rest

-- strings.Fields: the parts between the spaces, without the empty ones. The first argument is the
-- number of bytes to pass over, of a space that has begun.
abbrev pub nonempty : List Bytes → List Bytes
nonempty = keep (λ (s : Bytes). not (is_empty s))

unfoldable pub split_at_spaces : ℕ → Bytes → List Bytes
unfolding space_len
split_at_spaces n [] = [] ∷ []
split_at_spaces (suc n) (c ∷ s) = split_at_spaces n s
split_at_spaces zero (c ∷ s) =
    let n = space_len (c ∷ s) in
    let rest = split_at_spaces (n - 1) s in if n == 0 then onto_first c rest else [] ∷ rest

unfoldable pub fields : Bytes → List Bytes
unfolding split_at_spaces
fields s = nonempty (split_at_spaces zero s)

-- strings.Join with a separator
unfoldable pub join : Bytes → List Bytes → Bytes
join sep [] = []
join sep (l ∷ []) = l
join sep (l ∷ m ∷ ls) = l ++ (sep ++ join sep (m ∷ ls))

-- strings.HasPrefix and strings.HasSuffix
unfoldable pub has_prefix : Bytes → Bytes → Bool
has_prefix s [] = true
has_prefix [] (p ∷ ps) = false
has_prefix (c ∷ s) (p ∷ ps) = c == p && has_prefix s ps

unfoldable pub has_suffix : Bytes → Bytes → Bool
has_suffix s t = leb (length t) (length s) && eq_bytes (drop (length s - length t) s) t

-- Package unicode/utf8: how many bytes the rune at the start of a text takes, 0 when the text is
-- empty or no rune stands there.
abbrev pub continues : ℕ → Bool
continues c = leb 128 c && leb c 191

abbrev pub rune_len_two : ℕ → Bytes → ℕ
rune_len_two b (c ∷ s) = if leb 194 b && (leb b 223 && continues c) then 2 else 0
rune_len_two b [] = 0

-- Which second byte goes with a first byte of a rune of three or of four bytes.
abbrev pub second_of_three : ℕ → ℕ → Bool
second_of_three b c =
    if b == 224
    then leb 160 c && leb c 191
    else if b == 237
    then leb 128 c && leb c 159
    else leb 225 b && (leb b 239 && continues c)

abbrev pub second_of_four : ℕ → ℕ → Bool
second_of_four b c =
    if b == 240
    then leb 144 c && leb c 191
    else if b == 244
    then leb 128 c && leb c 143
    else leb 241 b && (leb b 243 && continues c)

abbrev pub rune_len_long : ℕ → Bytes → ℕ
rune_len_long b (c ∷ d ∷ e ∷ s) =
    if second_of_three b c && continues d
    then 3
    else if second_of_four b c && (continues d && continues e)
    then 4
    else rune_len_two b (c ∷ d ∷ e ∷ s)
rune_len_long b (c ∷ d ∷ []) =
    if second_of_three b c && continues d then 3 else rune_len_two b (c ∷ d ∷ [])
rune_len_long b (c ∷ []) = rune_len_two b (c ∷ [])
rune_len_long b [] = 0

unfoldable pub rune_len : Bytes → ℕ
rune_len [] = 0
rune_len (b ∷ s) = if ltb b 128 then 1 else rune_len_long b s

-- The bytes that belong to no rune, each replaced by what `mark` gives: it is told whether the byte
-- before it was replaced too. The number counts the bytes left of a rune that has begun.
unfoldable pub repaired : (Bool → Bytes) → ℕ → Bool → Bytes → Bytes
unfolding rune_len
repaired mark n replaced [] = []
repaired mark (suc n) replaced (c ∷ s) = c ∷ repaired mark n false s
repaired mark zero replaced (c ∷ s) =
    let n = rune_len (c ∷ s) in
    let rest = repaired mark (n - 1) (n == 0) s in
    if n == 0 then mark replaced ++ rest else c ∷ rest

-- U+FFFD
abbrev pub replacement : Bytes
replacement = 239 ∷ 191 ∷ 189 ∷ []

abbrev pub once : Bool → Bytes
once true = []
once false = replacement

abbrev pub always : Bool → Bytes
always replaced = replacement

-- strings.ToValidUTF8(s, U+FFFD), and the runes that a loop over a text goes through.
unfoldable pub to_valid_utf8 : Bytes → Bytes
unfolding repaired
to_valid_utf8 s = repaired once 0 false s

unfoldable pub runes : Bytes → Bytes
unfolding repaired
runes s = repaired always 0 false s

-- utf8.ValidString
unfoldable pub is_valid_for : ℕ → Bytes → Bool
unfolding rune_len
is_valid_for n [] = true
is_valid_for (suc n) (c ∷ s) = is_valid_for n s
is_valid_for zero (c ∷ s) =
    let rest = is_valid_for (rune_len (c ∷ s) - 1) s in
    if rune_len (c ∷ s) == 0 then false else rest

unfoldable pub is_valid_utf8 : Bytes → Bool
unfolding is_valid_for
is_valid_utf8 s = is_valid_for 0 s

-- strings.Trim with a set of ASCII bytes
unfoldable pub trim_left_bytes : (ℕ → Bool) → Bytes → Bytes
trim_left_bytes p [] = []
trim_left_bytes p (c ∷ s) = let rest = trim_left_bytes p s in if p c then rest else c ∷ s

unfoldable pub trim_bytes : (ℕ → Bool) → Bytes → Bytes
unfolding trim_left_bytes trim_right_bytes
trim_bytes p s = trim_right_bytes p (trim_left_bytes p s)
