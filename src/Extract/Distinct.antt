-- ===== src/Extract/Distinct.antt =====
-- Lists in which no two elements have the same key, as the maps `seen` of internal/extract/extract.go
-- keep the texts.
use phenk.Prelude.{
  ℕ, ◌≡◌, ◌≢◌, sym, Bool, false, List, [], ◌∷◌, ◌++◌, arith, take, any, Bytes, eq_bytes,
  eq_bytes_iff,
}
use mathlib.Core.HLevel.{¬_prop}
use mathlib.Core.List.{
  Mem, Pairwise, Pairwise-singleton, Pairwise-append, forall_mem-cons, not-mem-nil,
}
use mathlib.Core.List.Perm
use phenk.Extract.{sort_stably}
use phenk.Extract.Sorting.{sort_stably-perm, Pairwise-take}

module _ {A K : Type 0} (key : A → K) where
  abbrev pub IsDistinct : List A → Type 0
  IsDistinct = Pairwise (λ (a b : A). key a ≢ key b)

  pub first_sorted-IsDistinct :
      (before : A → A → Bool) (n : ℕ) (l : List A)
      → IsDistinct l
      → IsDistinct (take n (sort_stably before l))
  first_sorted-IsDistinct before n l h =
      Pairwise-take n (sort_stably before l) (λ _ _. ¬_prop)
        (Perm.pairwise (λ _ _. ¬_prop) (λ _ _ d e. d (sym e))
          (Perm.symm (sort_stably-perm before l)) h)

module _ {A : Type 0} (key : A → Bytes) where
  abbrev pub has_key : Bytes → List A → Bool
  has_key k = any (λ (a : A). eq_bytes (key a) k)

  lacks_key : (k : Bytes) (l : List A) → has_key k l ≡ false → (a : A) → Mem a l → key a ≢ k
  lacks_key k [] h = λ a m. absurd (not-mem-nil m)
  lacks_key k (b ∷ bs) h =
      let e : (key b ≢ k) × (has_key k bs ≡ false) = ground (arith, eq_bytes_iff (key b) k) in
      (forall_mem-cons (λ _. ¬_prop)).1 (e.0, lacks_key k bs e.1)

  -- An element whose text is not there yet is added at the end.
  pub snoc-IsDistinct :
      (l : List A) (x : A)
      → has_key (key x) l ≡ false
      → IsDistinct key l
      → IsDistinct key (l ++ (x ∷ []))
  snoc-IsDistinct l x e h = (Pairwise-append (λ _ _. ¬_prop)).1 (
    h,
    Pairwise-singleton _ x,
    λ a m.
        (forall_mem-cons (λ _. ¬_prop)).1
          (lacks_key (key x) l e a m, λ b k. absurd (not-mem-nil k)),
  )
