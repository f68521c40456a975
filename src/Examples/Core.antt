-- ===== src/Examples/Core.antt =====
-- internal/core and internal/alloc: the theorems on addresses and identifiers at concrete inputs.
use phenk.Prelude.{◌≡◌, ◌↔◌, refl, some, [], ◌∷◌, ◌++◌, arith, Bytes, codes}
use phenk.Prelude.Result.{ok, err}
use phenk.Strings
use phenk.Strings.Lower.{to_lower, trim_space}
use phenk.Core.Address.{
  split_address, validate_named_local_part, local_part_reserved, local_part_syntax,
}
use phenk.Core.Address.Split.{IsLocal, IsDomain, split_address_sound}
use phenk.Core.Address.RoundTrip.{tagged_path, split_address_tagged}
use phenk.Core.Address.Named.{IsName, IsGenerated, validate_named_exact}
use phenk.Core.Uuid.{parse_uuid, to_string, hex_encode, new_uuid}
use phenk.Core.Uuid.Text.{parse_uuid-to_string}
use phenk.Core.Uuid.Version.{IsVersion7, new_uuid-IsVersion7}
use phenk.Alloc.{generate_local_part}
use phenk.Alloc.Generated.{generate_local_part_reserved}

split_address_sound_example : IsLocal (codes "alice") × IsDomain (codes "example.com")
unfolding split_address
split_address_sound_example =
    split_address_sound (codes " <Alice+News@Example.COM>") (codes "alice") (codes "example.com")
      (ground arith) refl

split_address_tagged_example :
    split_address (tagged_path (codes "bob") (codes "shop+1") (codes "phenk.io"))
    ≡ ok (codes "bob", codes "phenk.io")
split_address_tagged_example =
    split_address_tagged (codes "bob") (codes "shop+1") (codes "phenk.io") (λ e. cc) (λ e. cc)
      (ground arith) (ground arith) (ground arith)

-- Letters beyond ASCII have their lower case too, and spaces beyond ASCII are trimmed.
lowered_letters :
    split_address (195 ∷ 137 ∷ codes "+shop@Phenk.io" ++ (194 ∷ 160 ∷ []))
    ≡ ok (195 ∷ 169 ∷ [], codes "phenk.io")
unfolding split_address to_lower trim_space Strings.trim_space
lowered_letters = refl

validate_named_exact_example :
    ((validate_named_local_part (codes "a.b") ≡ ok tt)
      ↔ (IsName (codes "a.b") × ¬ IsGenerated (codes "a.b")))
    × ((validate_named_local_part (codes "a.b") ≡ err local_part_reserved)
        ↔ (IsName (codes "a.b") × IsGenerated (codes "a.b")))
    × ((validate_named_local_part (codes "a.b") ≡ err local_part_syntax) ↔ (¬ IsName (codes "a.b")))
validate_named_exact_example = validate_named_exact (codes "a.b")

abbrev sixteen_bytes : Bytes
sixteen_bytes = 1 ∷ 144 ∷ 255 ∷ 0 ∷ 17 ∷ 34 ∷ 112 ∷ 1 ∷ 128 ∷ 2 ∷ 3 ∷ 4 ∷ 5 ∷ 6 ∷ 7 ∷ 8 ∷ []

parse_uuid-to_string_example :
    (parse_uuid (to_string sixteen_bytes) ≡ some sixteen_bytes)
    × (parse_uuid (hex_encode sixteen_bytes) ≡ some sixteen_bytes)
parse_uuid-to_string_example = parse_uuid-to_string sixteen_bytes refl (ground arith)

abbrev ten_bytes : Bytes
ten_bytes = 0 ∷ 31 ∷ 32 ∷ 255 ∷ 7 ∷ 100 ∷ 200 ∷ 64 ∷ 9 ∷ 12 ∷ []

new_uuid-IsVersion7_example :
    IsVersion7 1700000000000 (new_uuid 1700000000000 ten_bytes)
    × (parse_uuid (to_string (new_uuid 1700000000000 ten_bytes))
        ≡ some (new_uuid 1700000000000 ten_bytes))
new_uuid-IsVersion7_example =
    new_uuid-IsVersion7 1700000000000 ten_bytes (omega arith) refl (ground arith)

generate_local_part_reserved_example :
    validate_named_local_part (generate_local_part ten_bytes) ≡ err local_part_reserved
generate_local_part_reserved_example = generate_local_part_reserved ten_bytes refl
