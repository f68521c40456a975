-- ===== src/Core/Uuid.antt =====
-- internal/core/uuid.go: sixteen bytes, their text form and its parser, and version 7 identifiers.
-- The text functions of encoding/hex are written out.
pub mod Text
pub mod Version
use phenk.Prelude.{
  ℕ, ◌+◌, ◌-◌, ◌*◌, ◌/◌, ◌%◌, ◌^◌, Bool, false, not, ◌&&◌, ◌||◌, Option, none, some, [], ◌∷◌, ◌++◌,
  ltb, leb, ◌==◌, if◌then◌else◌, length, get_elem?, take, drop, Bytes,
}

-- one digit of hex.Encode
abbrev pub hex_digit : ℕ → ℕ
hex_digit n = if ltb n 10 then b'0' + n else b'a' + (n - 10)

-- hex.Encode
unfoldable pub hex_encode : Bytes → Bytes
hex_encode [] = []
hex_encode (b ∷ s) = hex_digit (b / 16) ∷ hex_digit (b % 16) ∷ hex_encode s

-- UUID.String
unfoldable pub to_string : Bytes → Bytes
unfolding hex_encode
to_string u =
    hex_encode (take 4 u)
    ++ (b'-' ∷ hex_encode (take 2 (drop 4 u)))
    ++ (b'-' ∷ hex_encode (take 2 (drop 6 u)))
    ++ (b'-' ∷ hex_encode (take 2 (drop 8 u)))
    ++ (b'-' ∷ hex_encode (drop 10 u))

abbrev pub hex_value : ℕ → Option ℕ
hex_value c =
    if leb b'0' c && leb c b'9'
    then some (c - b'0')
    else if leb b'a' c && leb c b'f'
    then some (c - b'a' + 10)
    else if leb b'A' c && leb c b'F'
    then some (c - b'A' + 10)
    else none

abbrev join_byte : Option ℕ → Option ℕ → Option Bytes → Option Bytes
join_byte (some h) (some l) (some s) = some ((16 * h + l) ∷ s)
join_byte _ _ _ = none

-- hex.Decode; an odd length is an error
unfoldable pub hex_decode : Bytes → Option Bytes
hex_decode [] = some []
hex_decode (c ∷ []) = none
hex_decode (c ∷ d ∷ s) = join_byte (hex_value c) (hex_value d) (hex_decode s)

abbrev pub is_hyphen : Option ℕ → Bool
is_hyphen none = false
is_hyphen (some c) = c == b'-'

-- the slice s[i:j]
abbrev pub slice : ℕ → ℕ → Bytes → Bytes
slice i j s = take (j - i) (drop i s)

-- ParseUUID; `none` is its error
unfoldable pub parse_uuid : Bytes → Option Bytes
unfolding hex_decode
parse_uuid s =
    if length s == 36
    then if not (is_hyphen (get_elem? s 8))
        || (not (is_hyphen (get_elem? s 13))
            || (not (is_hyphen (get_elem? s 18)) || not (is_hyphen (get_elem? s 23))))
      then none
      else hex_decode
          (slice 0 8 s ++ (slice 9 13 s ++ (slice 14 18 s ++ (slice 19 23 s ++ slice 24 36 s))))
    else if length s == 32
    then hex_decode s
    else none

-- NewUUID, from the clock and ten random bytes
unfoldable pub new_uuid : ℕ → Bytes → Bytes
new_uuid ms [] = []
new_uuid ms (r₆ ∷ []) = []
new_uuid ms (r₆ ∷ r₇ ∷ []) = []
new_uuid ms (r₆ ∷ r₇ ∷ r₈ ∷ rest) =
    ms / 2 ^ 40 % 256
    ∷ ms / 2 ^ 32 % 256
    ∷ ms / 2 ^ 24 % 256
    ∷ ms / 2 ^ 16 % 256
    ∷ ms / 2 ^ 8 % 256
    ∷ ms % 256
    ∷ (r₆ % 16 + 0x70)
    ∷ r₇
    ∷ (r₈ % 64 + 0x80)
    ∷ rest
