-- ===== src/Extract/Sorting.antt =====
-- What sort.SliceStable gives: the elements of the list in the order of the test.
use mathlib.Core.HLevel.{¬_prop}
use phenk.Prelude.{
  ◌≢◌, true, ℕ, ◌≡◌, inl, inr, sym, Bool, true, false, List, [], ◌∷◌, ◌++◌, if_either, Bool-cases,
  take, drop, All, take-drop,
}
use mathlib.Core.Path.{subst}
use mathlib.Core.Logic.Or
use mathlib.Core.Logic.{◌∨₁◌}
use mathlib.Core.List.{
  Pairwise-append, mem-append, mem-cons_self, mem-cons_of_mem, Perm, Mem, Pairwise,
  Pairwise-singleton, forall_mem-cons,
}
use mathlib.Core.List.Perm
use mathlib.Core.Bool.{Bool-set}
use phenk.Extract.{insert_stably, sort_stably}

-- A strict weak order, as sort.SliceStable asks for.
pub record WeakOrder {A : Type 0} (before : A → A → Bool) : Type 0 where
  pub asym : (a b : A) → before a b ≡ true → before b a ≡ false
  pub keeps : (a b c : A) → before b a ≡ false → before c b ≡ false → before c a ≡ false

module _ {A : Type 0} where
  pub All-of_mem : (P : A → Type 0) (l : List A) → ((a : A) → Mem a l → P a) → All P l
  All-of_mem P [] f = tt
  All-of_mem P (x ∷ xs) f = (f x mem-cons_self, All-of_mem P xs (λ a m. f a (mem-cons_of_mem x m)))

  Pairwise-both :
      {P Q R : A → A → Type 0} {l : List A}
      → ((a b : A) → P a b → Q a b → R a b)
      → Pairwise P l
      → Pairwise Q l
      → Pairwise R l
  Pairwise-both {l = []} f h k = Pairwise.nil
  Pairwise-both {l = x ∷ xs} f (Pairwise.cons p h) (Pairwise.cons q k) =
      Pairwise.cons (λ z m. f x z (p z m) (q z m)) (Pairwise-both f h k)

module _ {A : Type 0} (before : A → A → Bool) where
  -- No element stands before one that is earlier in the list.
  abbrev pub IsOrdered : List A → Type 0
  IsOrdered = Pairwise (λ (a b : A). before b a ≡ false)

  insert_stably-perm : (x : A) (l : List A) → Perm (insert_stably before x l) (x ∷ l)
  insert_stably-perm x [] = Perm.rfl
  insert_stably-perm x (y ∷ ys) = elim (Bool-cases (before y x)) [
    | inl h ↦ rw h (Perm.trans (Perm.cons y (insert_stably-perm x ys)) (Perm.swap x y ys))
    | inr h ↦ rw h Perm.rfl
  ]

  pub sort_stably-perm : (l : List A) → Perm (sort_stably before l) l
  unfolding sort_stably
  sort_stably-perm [] = Perm.rfl
  sort_stably-perm (x ∷ xs) =
      Perm.trans (insert_stably-perm x (sort_stably before xs)) (Perm.cons x (sort_stably-perm xs))

  module _ (P : A → Type 0) where
    All-insert_stably : (x : A) (l : List A) → P x → All P l → All P (insert_stably before x l)
    All-insert_stably x [] p h = (p, tt)
    All-insert_stably x (y ∷ ys) p h =
        if_either (All P) (before y x) (h.0, All-insert_stably x ys p h.1) (p, h)

    pub All-sort_stably : (l : List A) → All P l → All P (sort_stably before l)
    unfolding sort_stably
    All-sort_stably [] h = tt
    All-sort_stably (x ∷ xs) h =
        All-insert_stably x (sort_stably before xs) h.0 (All-sort_stably xs h.1)

  module _ (o : WeakOrder before) where
    insert_stably-IsOrdered :
        (x : A) (l : List A) → IsOrdered l → IsOrdered (insert_stably before x l)
    insert_stably-IsOrdered x [] h = Pairwise-singleton _ x
    insert_stably-IsOrdered x (y ∷ ys) (Pairwise.cons below s) = elim (Bool-cases (before y x)) [
      | inl h ↦ rw h (
          Pairwise.cons
            (λ z m.
              (forall_mem-cons (λ _. Bool-set _ _)).1 (o.asym y x h, below) z
                ((Perm.mem_iff (insert_stably-perm x ys)).0 m))
            (insert_stably-IsOrdered x ys s))
      | inr h ↦ rw h (
          Pairwise.cons
            ((forall_mem-cons (λ _. Bool-set _ _)).1 (h, λ z m. o.keeps x y z h (below z m)))
            (Pairwise.cons below s))
    ]

    pub sort_stably-IsOrdered : (l : List A) → IsOrdered (sort_stably before l)
    unfolding sort_stably
    sort_stably-IsOrdered [] = Pairwise.nil
    sort_stably-IsOrdered (x ∷ xs) =
        insert_stably-IsOrdered x (sort_stably before xs) (sort_stably-IsOrdered xs)

    -- With keys that all differ, and an order that tells any two of them apart, the sorted list is
    -- strictly in order.
    module _ {K : Type 0} (key : A → K)
        (total : (a b : A) → before b a ≡ false → key a ≢ key b → before a b ≡ true) where
      pub sort_strictly :
          (l : List A)
          → Pairwise (λ (a b : A). key a ≢ key b) l
          → Pairwise (λ (a b : A). before a b ≡ true) (sort_stably before l)
      sort_strictly l h =
          Pairwise-both total (sort_stably-IsOrdered l) (
            Perm.pairwise (λ _ _. ¬_prop) (λ _ _ d e. d (sym e)) (Perm.symm (sort_stably-perm l)) h)

      -- The first elements of the sorted list stand before every element that is left out.
      pub sort_strictly_best :
          (n : ℕ) (l : List A) (x : A)
          → Pairwise (λ (a b : A). key a ≢ key b) l
          → Mem x l
          → Mem x (take n (sort_stably before l))
            ∨₁ All (λ (y : A). before y x ≡ true) (take n (sort_stably before l))
      sort_strictly_best n l x h m =
          let s = sort_stably before l in
          let whole =
            subst (Pairwise (λ (a b : A). before a b ≡ true)) (sym (take-drop n s))
              (sort_strictly l h) in
          let kept = (Pairwise-append (λ _ _. Bool-set _ _)).0 whole in
          let place : Mem x (take n s ++ drop n s) =
            subst (Mem x) (sym (take-drop n s)) ((Perm.mem_iff (sort_stably-perm l)).1 m) in
          Or.imp (λ k. k)
            (λ k. All-of_mem (λ (y : A). before y x ≡ true) (take n s) (λ y j. kept.2 y j x k))
            (mem-append.0 place)

module _ {A : Type 0} where
  pub Pairwise-take :
      {R : A → A → Type 0} (n : ℕ) (l : List A)
      → ((a b : A) → IsProp (R a b))
      → Pairwise R l
      → Pairwise R (take n l)
  Pairwise-take {R} n l p h = ((Pairwise-append p).0 (subst (Pairwise R) (sym (take-drop n l)) h)).0
