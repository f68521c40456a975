-- ===== src/Core/Address/Named.antt =====
-- internal/core/address.go: which names `ValidateNamedLocalPart` lets through.
use phenk.Prelude.{
  ℕ, ◌≤◌, ◌≡◌, ◌↔◌, ◌⊎◌, refl, Bool, true, false, not, [], ◌∷◌, arith, if◌then◌else◌, length, every,
  All, Bytes,
}
use phenk.Prelude.Result.{Result, ok, err}
use phenk.Core.Address.{
  AddressError, local_part_syntax, local_part_reserved, random_local_part_len, in_alphabet,
  is_name_start, is_name_byte, looks_generated, matches_named, validate_named_local_part,
}

abbrev pub IsAlnum : ℕ → Type 0
IsAlnum c = ((b'a' ≤ c) × (c ≤ b'z')) ⊎ ((b'0' ≤ c) × (c ≤ b'9'))

abbrev pub IsNameByte : ℕ → Type 0
IsNameByte c = IsAlnum c ⊎ ((c ≡ b'.') ⊎ ((c ≡ b'_') ⊎ (c ≡ b'-')))

-- The grammar of a name, said of its bytes.
abbrev pub IsName : Bytes → Type 0
IsName [] = ⊥
IsName (c ∷ s) = IsAlnum c × All IsNameByte s × (3 ≤ length (c ∷ s)) × (length (c ∷ s) ≤ 64)

abbrev pub IsGenerated : Bytes → Type 0
IsGenerated s = (length s ≡ random_local_part_len) × All (λ c. in_alphabet c ≡ true) s

is_name_start_iff : (c : ℕ) → (is_name_start c ≡ true) ↔ IsAlnum c
is_name_start_iff c = ground arith

is_name_byte_iff : (c : ℕ) → (is_name_byte c ≡ true) ↔ IsNameByte c
is_name_byte_iff c = ground arith

module _ (p : ℕ → Bool) (P : ℕ → Type 0) (iff : (c : ℕ) → (p c ≡ true) ↔ P c) where
  every_iff : (s : Bytes) → (every p s ≡ true) ↔ All P s
  every_iff [] = (λ _. tt, λ _. refl)
  every_iff (c ∷ s) = ground (arith, iff c, every_iff s)

matches_named_iff : (s : Bytes) → (matches_named s ≡ true) ↔ IsName s
unfolding matches_named
matches_named_iff [] = (λ h. cc, λ h. absurd h)
matches_named_iff (c ∷ s) =
    ground (arith, is_name_start_iff c, every_iff is_name_byte IsNameByte is_name_byte_iff s)

looks_generated_iff : (s : Bytes) → (looks_generated s ≡ true) ↔ IsGenerated s
unfolding looks_generated
looks_generated_iff s =
    ground (arith, every_iff in_alphabet (λ c. in_alphabet c ≡ true) (λ c. ((λ h. h), (λ h. h))) s)

-- What the two tests of the validator add up to.
abbrev verdict : Bool → Bool → Result AddressError (Unit {0})
verdict m g = if not m then err local_part_syntax else if g then err local_part_reserved else ok tt

verdict_exact :
    (m g : Bool) (P Q : Type 0)
    → ((m ≡ true) ↔ P)
    → ((g ≡ true) ↔ Q)
    → ((verdict m g ≡ ok tt) ↔ (P × ¬ Q))
      × ((verdict m g ≡ err local_part_reserved) ↔ (P × Q))
      × ((verdict m g ≡ err local_part_syntax) ↔ (¬ P))
verdict_exact true true P Q pm qg = (
  (λ h. cc, λ h. absurd (h.1 (qg.0 refl))),
  (λ _. (pm.0 refl, qg.0 refl), λ _. refl),
  (λ h. cc, λ h. absurd (h (pm.0 refl))),
)
verdict_exact true false P Q pm qg = (
  (λ _. (pm.0 refl, λ q. cc (qg.1 q)), λ _. refl),
  (λ h. cc, λ h. cc (qg.1 h.1)),
  (λ h. cc, λ h. absurd (h (pm.0 refl))),
)
verdict_exact false g P Q pm qg =
    ((λ h. cc, λ h. cc (pm.1 h.0)), (λ h. cc, λ h. cc (pm.1 h.0)), (λ _ p. cc (pm.1 p), λ _. refl))

-- `ValidateNamedLocalPart` accepts a text exactly when it is three to sixty-four bytes, of lower-case
-- letters, digits, dots, underscores and hyphens, begins with a letter or a digit, and does not have
-- the shape of a generated address; that shape it reports as reserved, all else as a syntax error.
pub validate_named_exact :
    (s : Bytes)
    → ((validate_named_local_part s ≡ ok tt) ↔ (IsName s × ¬ IsGenerated s))
      × ((validate_named_local_part s ≡ err local_part_reserved) ↔ (IsName s × IsGenerated s))
      × ((validate_named_local_part s ≡ err local_part_syntax) ↔ (¬ IsName s))
unfolding validate_named_local_part
validate_named_exact s =
    verdict_exact (matches_named s) (looks_generated s) (IsName s) (IsGenerated s)
      (matches_named_iff s) (looks_generated_iff s)
