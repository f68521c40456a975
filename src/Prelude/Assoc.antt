-- ===== src/Prelude/Assoc.antt =====
-- Maps as association lists. An insertion puts the entry in front, so the list is also the order of
-- the last writes.
use phenk.Prelude.{
  ◌≤◌, ◌<◌, ◌≡◌, refl, Bool, false, Option, none, some, List, [], ◌∷◌, arith, if◌then◌else◌, length,
}
use phenk.Prelude.Keys.{Key}

abbrev pub Assoc : Type 0 → Type 0 → Type 0
Assoc K V = List (K × V)

-- What a test leaves under a key.
abbrev pub filtered {ℓ} : {V : Type ℓ} → (V → Bool) → Option V → Option V
filtered p none = none
filtered p (some v) = if p v then some v else none

module _ {K V : Type 0} ⦃e : Key K⦄ where
  unfoldable pub lookup : K → Assoc K V → Option V
  lookup k [] = none
  lookup k ((j, v) ∷ m) = let rest = lookup k m in if e.same j k then some v else rest

  unfoldable pub remove : K → Assoc K V → Assoc K V
  remove k [] = []
  remove k ((j, v) ∷ m) = let rest = remove k m in if e.same j k then rest else (j, v) ∷ rest

  unfoldable pub insert : K → V → Assoc K V → Assoc K V
  unfolding remove
  insert k v m = (k, v) ∷ remove k m

  pub lookup-remove :
      (k j : K) (m : Assoc K V) → lookup j (remove k m) ≡ (if e.same k j then none else lookup j m)
  unfolding lookup remove
  lookup-remove k j [] = ground arith
  lookup-remove k j ((i, v) ∷ m) =
      ground (arith, lookup-remove k j m, e.same_iff i k, e.same_iff i j, e.same_iff k j)

  pub lookup-insert :
      (k j : K) (v : V) (m : Assoc K V)
      → lookup j (insert k v m) ≡ (if e.same k j then some v else lookup j m)
  unfolding lookup insert
  lookup-insert k j v m = ground (arith, lookup-remove k j m, e.same_iff k j)

  -- The entries whose value passes a test.
  unfoldable pub retain : (V → Bool) → Assoc K V → Assoc K V
  retain p [] = []
  retain p ((j, v) ∷ m) = let rest = retain p m in if p v then (j, v) ∷ rest else rest

  -- No key stands twice.
  abbrev pub Lacks : K → Assoc K V → Type 0
  Lacks k [] = Unit
  Lacks k ((j, v) ∷ m) = (e.same j k ≡ false) × Lacks k m

  abbrev pub IsDistinct : Assoc K V → Type 0
  IsDistinct [] = Unit
  IsDistinct ((j, v) ∷ m) = Lacks j m × IsDistinct m

  pub remove-Lacks : (k : K) (m : Assoc K V) → Lacks k (remove k m)
  unfolding remove
  remove-Lacks k [] = tt
  remove-Lacks k ((j, v) ∷ m) = ground (arith, remove-Lacks k m)

  Lacks-remove : (k j : K) (m : Assoc K V) → Lacks j m → Lacks j (remove k m)
  unfolding remove
  Lacks-remove k j [] h = tt
  Lacks-remove k j ((i, v) ∷ m) h = ground (arith, Lacks-remove k j m h.1)

  pub remove-IsDistinct : (k : K) (m : Assoc K V) → IsDistinct m → IsDistinct (remove k m)
  unfolding remove
  remove-IsDistinct k [] h = tt
  remove-IsDistinct k ((i, v) ∷ m) h =
      ground (arith, remove-IsDistinct k m h.1, Lacks-remove k i m h.0)

  pub lookup-Lacks : (k : K) (m : Assoc K V) → Lacks k m → lookup k m ≡ none
  unfolding lookup
  lookup-Lacks k [] h = refl
  lookup-Lacks k ((j, v) ∷ m) h = ground (arith, lookup-Lacks k m h.1)

  Lacks-retain : (p : V → Bool) (k : K) (m : Assoc K V) → Lacks k m → Lacks k (retain p m)
  unfolding retain
  Lacks-retain p k [] h = tt
  Lacks-retain p k ((j, v) ∷ m) h = ground (arith, Lacks-retain p k m h.1)

  pub retain-IsDistinct : (p : V → Bool) (m : Assoc K V) → IsDistinct m → IsDistinct (retain p m)
  unfolding retain
  retain-IsDistinct p [] h = tt
  retain-IsDistinct p ((j, v) ∷ m) h =
      ground (arith, retain-IsDistinct p m h.1, Lacks-retain p j m h.0)

  pub lookup-retain :
      (p : V → Bool) (k : K) (m : Assoc K V)
      → IsDistinct m
      → lookup k (retain p m) ≡ filtered p (lookup k m)
  unfolding lookup retain
  lookup-retain p k [] h = refl
  lookup-retain p k ((j, v) ∷ m) h = ground (
    arith,
    lookup-retain p k m h.1,
    e.same_iff j k,
    lookup-Lacks j (retain p m) (Lacks-retain p j m h.0),
  )

  pub length-remove : (k : K) (m : Assoc K V) → length (remove k m) ≤ length m
  unfolding remove
  length-remove k [] = omega arith
  length-remove k ((j, v) ∷ m) = ground (arith, length-remove k m)

  -- A key that is there takes a place.
  pub length-remove_held :
      (k : K) (v : V) (m : Assoc K V) → lookup k m ≡ some v → length (remove k m) < length m
  unfolding remove lookup
  length-remove_held k v [] h = cc
  length-remove_held k v ((j, w) ∷ m) h =
      ground (arith, length-remove k m, length-remove_held k v m)

  pub Lacks-of_lookup : (k : K) (m : Assoc K V) → lookup k m ≡ none → Lacks k m
  unfolding lookup
  Lacks-of_lookup k [] h = tt
  Lacks-of_lookup k ((j, v) ∷ m) h = ground (arith, Lacks-of_lookup k m)
