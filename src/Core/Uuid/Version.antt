-- ===== src/Core/Uuid/Version.antt =====
-- internal/core/uuid.go: the layout of what `NewUUID` mints.
use phenk.Prelude.{
  ℕ, ◌+◌, ◌*◌, ◌/◌, ◌%◌, ◌^◌, ◌<◌, ◌≡◌, none, some, ◌∷◌, arith, length, get_elem?, All, Bytes,
}
use phenk.Core.Uuid.{new_uuid, parse_uuid, to_string}
use phenk.Core.Uuid.Text.{IsByte, parse_uuid-to_string}

-- The number that the first six bytes spell.
unfoldable pub timestamp : Bytes → ℕ
timestamp (a ∷ b ∷ c ∷ d ∷ e ∷ f ∷ rest) =
    ((((a * 256 + b) * 256 + c) * 256 + d) * 256 + e) * 256 + f
timestamp _ = 0

-- The four bits at the head of byte 6, and the two at the head of byte 8.
unfoldable pub version_bits : Bytes → ℕ
version_bits u = elim (get_elem? u 6) [ none ↦ 0 | some b ↦ b / 16 ]

unfoldable pub variant_bits : Bytes → ℕ
variant_bits u = elim (get_elem? u 8) [ none ↦ 0 | some b ↦ b / 64 ]

pub record IsVersion7 (ms : ℕ) (u : Bytes) : Type 0 where
  pub sixteen : length u ≡ 16
  pub bytes : All IsByte u
  pub version : version_bits u ≡ 7
  pub variant : variant_bits u ≡ 2
  pub stamped : timestamp u ≡ ms

stamp_bytes :
    (ms : ℕ) (rest : Bytes)
    → All IsByte rest
    → All IsByte (
        ms / 2 ^ 40 % 256
        ∷ ms / 2 ^ 32 % 256
        ∷ ms / 2 ^ 24 % 256
        ∷ ms / 2 ^ 16 % 256
        ∷ ms / 2 ^ 8 % 256
        ∷ ms % 256
        ∷ rest)
stamp_bytes ms rest h =
    (omega arith, (omega arith, (omega arith, (omega arith, (omega arith, (omega arith, h))))))

new_uuid_layout :
    (ms : ℕ) (r : Bytes)
    → ms < 2 ^ 48
    → length r ≡ 10
    → All IsByte r
    → IsVersion7 ms (new_uuid ms r)
unfolding new_uuid timestamp version_bits variant_bits
new_uuid_layout ms (a ∷ b ∷ c ∷ rest) hm len hb = record {
  sixteen = omega arith;
  bytes =
      stamp_bytes ms ((a % 16 + 112) ∷ b ∷ (c % 64 + 128) ∷ rest)
        (omega arith, (hb.1.0, (omega arith, hb.1.1.1)));
  version = omega arith;
  variant = omega arith;
  stamped = omega arith;
}
new_uuid_layout ms _ hm len hb = absurd (omega arith)

-- From a clock below 2^48 milliseconds and ten random bytes `NewUUID` makes sixteen bytes of version
-- 7 and of the RFC 4122 variant, whose first six bytes are the clock, and whose text form is read
-- back.
pub new_uuid-IsVersion7 :
    (ms : ℕ) (r : Bytes)
    → ms < 2 ^ 48
    → length r ≡ 10
    → All IsByte r
    → IsVersion7 ms (new_uuid ms r)
      × (parse_uuid (to_string (new_uuid ms r)) ≡ some (new_uuid ms r))
new_uuid-IsVersion7 ms r hm len hb =
    let v = new_uuid_layout ms r hm len hb in
    (v, (parse_uuid-to_string (new_uuid ms r) v.sixteen v.bytes).0)
