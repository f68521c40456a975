-- ===== src/Strings/Lower.antt =====
-- strings.ToLower and strings.TrimSpace, each with the short way that the package takes in ASCII.
use phenk.Prelude.{
  ℕ, zero, suc, ◌+◌, ◌-◌, ◌*◌, ◌/◌, ◌%◌, Bool, [], ◌∷◌, ◌++◌, map, ltb, leb, ◌==◌, ◌&&◌, ◌||◌,
  if◌then◌else◌, is_empty, every, Bytes,
}
use phenk.Strings.{rune_len, replacement}
use phenk.Strings
use phenk.Strings.Cases.{cases, lower_letter}

abbrev pub is_ascii : ℕ → Bool
is_ascii c = ltb c 128

abbrev pub is_space : ℕ → Bool
is_space c = (leb 9 c && leb c 13) || c == 32

abbrev pub is_upper : ℕ → Bool
is_upper c = leb b'A' c && leb c b'Z'

abbrev pub lower_byte : ℕ → ℕ
lower_byte c = if is_upper c then c + 32 else c

-- utf8.DecodeRune, of a rune of so many bytes, and utf8.AppendRune
abbrev pub first_bits : ℕ → ℕ → ℕ
first_bits n a =
    if n == 2 then a - 192 else if n == 3 then a - 224 else if n == 4 then a - 240 else a

unfoldable pub with_bits : ℕ → ℕ → Bytes → ℕ
with_bits zero r s = r
with_bits (suc n) r [] = r
with_bits (suc n) r (b ∷ s) = with_bits n (r * 64 + (b - 128)) s

unfoldable pub decoded : ℕ → Bytes → ℕ
unfolding with_bits
decoded n [] = 0
decoded n (a ∷ s) = with_bits (n - 1) (first_bits n a) s

unfoldable pub encoded : ℕ → Bytes
encoded r =
    if ltb r 128
    then r ∷ []
    else if ltb r 2048
    then (192 + r / 64) ∷ (128 + r % 64) ∷ []
    else if ltb r 65536
    then (224 + r / 4096) ∷ (128 + r / 64 % 64) ∷ (128 + r % 64) ∷ []
    else (240 + r / 262144) ∷ (128 + r / 4096 % 64) ∷ (128 + r / 64 % 64) ∷ (128 + r % 64) ∷ []

-- unicode.ToLower
unfoldable pub lower_rune : ℕ → ℕ
unfolding lower_letter
lower_rune r = if is_ascii r then lower_byte r else lower_letter cases r

-- strings.Map(unicode.ToLower, s): a byte that belongs to no rune becomes U+FFFD. The number counts
-- the bytes left of a rune that has been read.
unfoldable pub lower_runes : ℕ → Bytes → Bytes
unfolding rune_len lower_rune decoded encoded
lower_runes n [] = []
lower_runes (suc n) (c ∷ s) = lower_runes n s
lower_runes zero (c ∷ s) =
    let n = rune_len (c ∷ s) in
    let rest = lower_runes (n - 1) s in
    if n == 0 then replacement ++ rest else encoded (lower_rune (decoded n (c ∷ s))) ++ rest

unfoldable pub to_lower : Bytes → Bytes
unfolding lower_runes
to_lower s = if every is_ascii s then map lower_byte s else lower_runes 0 s

unfoldable pub trim_left : Bytes → Bytes
trim_left [] = []
trim_left (c ∷ s) = let rest = trim_left s in if is_space c then rest else c ∷ s

unfoldable pub trim_right : Bytes → Bytes
trim_right [] = []
trim_right (c ∷ s) = let rest = trim_right s in if is_empty rest && is_space c then [] else c ∷ rest

unfoldable pub trim_space : Bytes → Bytes
unfolding trim_left trim_right
trim_space s = if every is_ascii s then trim_right (trim_left s) else Strings.trim_space s
