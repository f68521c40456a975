-- ===== src/Core/Address.antt =====
-- internal/core/address.go: normalization, splitting and validation of addresses. A text is the
-- list of its bytes.
pub mod Split
pub mod RoundTrip
pub mod Named
use phenk.Prelude.{
  ℕ, ◌+◌, Bool, true, false, not, ◌&&◌, ◌||◌, List, [], ◌∷◌, map, Option, none, some, ltb, leb,
  ◌==◌, if◌then◌else◌, Bytes, codes, length, is_empty, any, every,
}
use phenk.Prelude.Result.{Result, ok, err, ◌>>=◌, ◌>>◌}
use phenk.Strings.Lower.{to_lower, trim_space}

pub data AddressError : Type 0 where
  local_part_syntax local_part_reserved local_part_blocked address_syntax : AddressError
  kind_pool_mismatch not_eligible_for_auth : AddressError

abbrev pub random_alphabet : Bytes
random_alphabet = codes "0123456789abcdefghjkmnpqrstvwxyz"

abbrev pub random_local_part_len : ℕ
random_local_part_len = 10

-- The bytes before the first `b`, or all of them.
unfoldable pub before : ℕ → Bytes → Bytes
before b [] = []
before b (c ∷ s) = let rest = before b s in if c == b then [] else c ∷ rest

unfoldable pub normalize_local_part : Bytes → Bytes
unfolding to_lower trim_space before
normalize_local_part s = before b'+' (to_lower (trim_space s))

-- strings.TrimPrefix and strings.TrimSuffix with one byte
unfoldable pub trim_prefix : ℕ → Bytes → Bytes
trim_prefix b [] = []
trim_prefix b (c ∷ s) = if c == b then s else c ∷ s

unfoldable pub trim_suffix : ℕ → Bytes → Bytes
trim_suffix b [] = []
trim_suffix b (c ∷ []) = if c == b then [] else c ∷ []
trim_suffix b (c ∷ d ∷ s) = c ∷ trim_suffix b (d ∷ s)

-- What stands on the two sides of the last `b`.
unfoldable pub split_last : ℕ → Bytes → Option (Bytes × Bytes)
split_last b [] = none
split_last b (c ∷ s) = elim (split_last b s) [
  | some (l, r) ↦ some (c ∷ l, r)
  | none ↦ if c == b then some ([], s) else none
]

abbrev pub forbidden_in_domain : ℕ → Bool
forbidden_in_domain c = c == 32 || (c == 9 || c == b'@')

-- The checks behind the split: neither side may be empty, before or after normalization.
unfoldable pub checked_parts : Option (Bytes × Bytes) → Result AddressError (Bytes × Bytes)
unfolding normalize_local_part
checked_parts none = err address_syntax
checked_parts (some (l, r)) =
    if is_empty l || is_empty r
    then err address_syntax
    else let local = normalize_local_part l in
      let domain = to_lower (trim_space r) in
      if is_empty local || (is_empty domain || any forbidden_in_domain domain)
      then err address_syntax
      else ok (local, domain)

unfoldable pub split_address : Bytes → Result AddressError (Bytes × Bytes)
unfolding checked_parts trim_prefix trim_suffix split_last
split_address addr =
    checked_parts (split_last b'@' (trim_suffix b'>' (trim_prefix b'<' (trim_space addr))))

abbrev pub in_alphabet : ℕ → Bool
in_alphabet c = any (λ d. d == c) random_alphabet

unfoldable pub looks_generated : Bytes → Bool
looks_generated s = if length s == random_local_part_len then every in_alphabet s else false

abbrev pub is_name_start : ℕ → Bool
is_name_start c = (leb b'a' c && leb c b'z') || (leb b'0' c && leb c b'9')

abbrev pub is_name_byte : ℕ → Bool
is_name_byte c = is_name_start c || (c == b'.' || (c == b'_' || c == b'-'))

-- `^[a-z0-9][a-z0-9._-]{2,63}$`
unfoldable pub matches_named : Bytes → Bool
matches_named [] = false
matches_named (c ∷ s) =
    is_name_start c && (every is_name_byte s && (leb 2 (length s) && leb (length s) 63))

unfoldable pub validate_named_local_part : Bytes → Result AddressError (Unit {0})
unfolding matches_named looks_generated
validate_named_local_part s =
    if not (matches_named s)
    then err local_part_syntax
    else if looks_generated s
    then err local_part_reserved
    else ok tt
