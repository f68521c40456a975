-- ===== src/Worker/Parse/Auth/Alignment.antt =====
-- internal/worker/parse/auth.go: when DMARC passes, said of the texts of the addresses.
use phenk.Prelude.{ℕ, ◌≡◌, ◌≢◌, ◌⊎◌, List, [], ◌∷◌, ◌++◌, All, Bytes}
use phenk.Strings.{trim_space}

-- One domain is the other, or a subdomain of it.
abbrev pub IsWithin : Bytes → Bytes → Type 0
IsWithin a b = (p : Bytes) × (a ≡ p ++ (b'.' ∷ b))

abbrev pub Aligns : Bytes → Bytes → Type 0
Aligns from identifier =
    (identifier ≢ [])
    × ((from ≡ identifier) ⊎ (IsWithin from identifier ⊎ IsWithin identifier from))

-- One of the domains, in lower case, aligns.
abbrev pub SomeAligns : (Bytes → Bytes) → Bytes → List Bytes → Type 0
SomeAligns lower from [] = ⊥
SomeAligns lower from (d ∷ ds) = Aligns from (lower d) ⊎ SomeAligns lower from ds

abbrev LacksAt : Bytes → Type 0
LacksAt = All (λ (c : ℕ). c ≢ b'@')

module _ (lower : Bytes → Bytes) where
  -- The domain of an address: what stands behind its last `@`, trimmed and in lower case, and nothing
  -- where there is no `@` or nothing behind it.
  abbrev pub IsDomainOf : Bytes → Bytes → Type 0
  IsDomainOf address d =
      ((l : Bytes) × (r : Bytes) × (address ≡ l ++ (b'@' ∷ r))
        × LacksAt r
        × (r ≢ [])
        × (d ≡ lower (trim_space r)))
      ⊎ ((d ≡ []) × (LacksAt address ⊎ ((l : Bytes) × (address ≡ l ++ (b'@' ∷ [])))))
