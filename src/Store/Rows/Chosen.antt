-- ===== src/Store/Rows/Chosen.antt =====
-- internal/store/pg/lifecycle.go: the rows that `id IN (SELECT …)` picks are the rows that the
-- subquery has found, since an identifier stands in one row.
use phenk.Prelude.{
  ℕ, zero, suc, ◌≡◌, ◌≢◌, inl, inr, refl, sym, ap, ◌∙◌, Bool, true, false, List, [], ◌∷◌, arith,
  Bool-cases, take, keep, any, All, All-imp,
}
use phenk.Core.Identity.{Identity}
use phenk.Store.Tables.{order_by, insert_by}
use phenk.Store.Rows.{IsKeyed, clashes}
use phenk.Store.Lifecycle.{first_due, expiry, among, ids_of}

module _ (P : Identity → Type 0) where
  All-insert_by :
      (x : Identity) (xs : List Identity) → P x → All P xs → All P (insert_by expiry x xs)
  All-insert_by x [] p h = (p, tt)
  All-insert_by x (y ∷ ys) p h = ground (arith, All-insert_by x ys p h.1)

  All-order_by : (xs : List Identity) → All P xs → All P (order_by expiry xs)
  unfolding order_by
  All-order_by [] h = tt
  All-order_by (x ∷ xs) h = All-insert_by x (order_by expiry xs) h.0 (All-order_by xs h.1)

  All-take : (n : ℕ) (xs : List Identity) → All P xs → All P (take n xs)
  All-take zero xs h = tt
  All-take (suc n) [] h = tt
  All-take (suc n) (x ∷ xs) h = (h.0, All-take n xs h.1)

-- Of the rows that pass a test, those with the identifier of another row of the list are that row.
abbrev IsOnly : Identity → List Identity → Type 0
IsOnly i xs = All (λ j. j.id ≡ i.id → j ≡ i) xs

fresh-IsOnly : (x : Identity) (xs : List Identity) → any (clashes x) xs ≡ false → IsOnly x xs
fresh-IsOnly x [] h = tt
fresh-IsOnly x (y ∷ ys) h = ((λ e. absurd (ground arith)), fresh-IsOnly x ys (ground arith))

apart : (x : Identity) (xs : List Identity) → any (clashes x) xs ≡ false → All (λ i. x.id ≢ i.id) xs
apart x [] h = tt
apart x (y ∷ ys) h = ((λ e. ground arith), apart x ys (ground arith))

module _ (x : Identity) (rows : List Identity) where
  behind :
      (xs : List Identity)
      → All (λ i. x.id ≢ i.id) xs
      → All (λ i. IsOnly i rows) xs
      → All (λ i. IsOnly i (x ∷ rows)) xs
  behind [] a h = tt
  behind (i ∷ xs) a h = (((λ e. absurd (a.0 e)), h.0), behind xs a.1 h.1)

all-IsOnly : (xs : List Identity) → IsKeyed xs → All (λ i. IsOnly i xs) xs
all-IsOnly [] k = tt
all-IsOnly (x ∷ xs) k =
    (((λ e. refl), fresh-IsOnly x xs k.0), behind x xs xs (apart x xs k.0) (all-IsOnly xs k.1))

module _ (due : Identity → Bool) (i : Identity) where
  keep-IsDue :
      (xs : List Identity) → IsOnly i xs → All (λ j. j.id ≡ i.id → due i ≡ true) (keep due xs)
  keep-IsDue [] h = tt
  keep-IsDue (x ∷ xs) h = elim (Bool-cases (due x)) [
    | inl hit ↦ rw hit ((λ e. sym (ap due (h.0 e)) ∙ hit), keep-IsDue xs h.1)
    | inr miss ↦ rw miss (keep-IsDue xs h.1)
  ]

  among-IsDue :
      (ys : List Identity)
      → All (λ j. j.id ≡ i.id → due i ≡ true) ys
      → among (ids_of ys) i ≡ true
      → due i ≡ true
  among-IsDue [] h m = cc
  among-IsDue (y ∷ ys) h m = ground (arith, among-IsDue ys h.1)

  chosen-IsDue :
      (limit : ℕ) (xs : List Identity)
      → IsOnly i xs
      → among (first_due due limit xs) i ≡ true
      → due i ≡ true
  unfolding first_due
  chosen-IsDue limit xs h m =
      among-IsDue (take limit (order_by expiry (keep due xs)))
        (All-take (λ j. j.id ≡ i.id → due i ≡ true) limit (order_by expiry (keep due xs))
          (All-order_by (λ j. j.id ≡ i.id → due i ≡ true) (keep due xs) (keep-IsDue xs h)))
        m

module _ (due : Identity → Bool) (limit : ℕ) (P : Identity → Type 0)
    (f : (i : Identity) → due i ≡ true → P i) where
  -- What holds of the rows that are due holds of those whose identifiers were selected.
  pub chosen-All :
      (xs : List Identity)
      → IsKeyed xs
      → All (λ i. among (first_due due limit xs) i ≡ true → P i) xs
  chosen-All xs k =
      All-imp (λ i. IsOnly i xs) (λ i. among (first_due due limit xs) i ≡ true → P i)
        (λ i only m. f i (chosen-IsDue due i limit xs only m)) xs (all-IsOnly xs k)
