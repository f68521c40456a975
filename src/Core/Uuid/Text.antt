-- ===== src/Core/Uuid/Text.antt =====
-- internal/core/uuid.go: the parser reads back what `String` writes.
use phenk.Prelude.{ℕ, ◌/◌, ◌%◌, ◌<◌, ◌≡◌, refl, ◌∙◌, some, [], ◌∷◌, arith, length, All, Bytes}
use phenk.Core.Uuid.{hex_digit, hex_encode, hex_value, hex_decode, to_string, parse_uuid}

abbrev pub IsByte : ℕ → Type 0
IsByte b = b < 256

hex_value-hex_digit : (n : ℕ) → n < 16 → hex_value (hex_digit n) ≡ some n
hex_value-hex_digit n h = ground arith

hex_decode-hex_encode : (s : Bytes) → All IsByte s → hex_decode (hex_encode s) ≡ some s
unfolding hex_decode hex_encode
hex_decode-hex_encode [] h = refl
hex_decode-hex_encode (b ∷ s) h = rw (hex_value-hex_digit (b / 16) (omega arith)) (
    rw (hex_value-hex_digit (b % 16) (omega arith))
      (rw (hex_decode-hex_encode s h.1) (ground arith)))

parse-groups : (u : Bytes) → length u ≡ 16 → parse_uuid (to_string u) ≡ hex_decode (hex_encode u)
unfolding parse_uuid to_string
parse-groups (a ∷ b ∷ c ∷ d ∷ e ∷ f ∷ g ∷ h ∷ i ∷ j ∷ k ∷ l ∷ m ∷ n ∷ o ∷ p ∷ []) len = refl
parse-groups _ len = absurd (omega arith)

parse_plain : (u : Bytes) → length u ≡ 16 → parse_uuid (hex_encode u) ≡ hex_decode (hex_encode u)
unfolding parse_uuid hex_encode
parse_plain (a ∷ b ∷ c ∷ d ∷ e ∷ f ∷ g ∷ h ∷ i ∷ j ∷ k ∷ l ∷ m ∷ n ∷ o ∷ p ∷ []) len = refl
parse_plain _ len = absurd (omega arith)

-- Of any sixteen bytes, `ParseUUID` reads back the text of `String`, and the same digits without
-- the hyphens.
pub parse_uuid-to_string :
    (u : Bytes)
    → length u ≡ 16
    → All IsByte u
    → (parse_uuid (to_string u) ≡ some u) × (parse_uuid (hex_encode u) ≡ some u)
parse_uuid-to_string u len bytes = (
  parse-groups u len ∙ hex_decode-hex_encode u bytes,
  parse_plain u len ∙ hex_decode-hex_encode u bytes,
)
