-- ===== src/Store/Respect.antt =====
-- Transactions and relations between the tables before and after them.
use phenk.Prelude.{◌≡◌, ◌⊎◌, inl, inr, refl, sym, Bool, true, false, if◌then◌else◌}
use mathlib.Core.Path.{subst}
use phenk.Prelude.Result.{Result, ok, err}
use phenk.Store.Tables.{Db, TxOf, in_tx, lift, ◌>>=◌}

Result-cases : {E A : Type 0} (r : Result E A) → ((a : A) × (r ≡ ok a)) ⊎ ((e : E) × (r ≡ err e))
Result-cases (ok a) = inl (a, refl)
Result-cases (err e) = inr (e, refl)

abbrev pub continued : {E A B : Type 0} → (A → TxOf E B) → Result E (A × Db) → Result E (B × Db)
continued f (err e) = err e
continued f (ok (a, db)) = f a db

-- A chain that succeeds has succeeded in both of its parts.
pub continued-ok :
    {E A B : Type 0} (f : A → TxOf E B) (r : Result E (A × Db)) (s : B × Db)
    → continued f r ≡ ok s
    → (a : A) × (db : Db) × (r ≡ ok (a, db)) × (f a db ≡ ok s)
continued-ok f (err e) s h = absurd cc
continued-ok f (ok (a, db)) s h = (a, db, refl, h)

abbrev lifted : {E F A : Type 0} → (E → F) → Result E (A × Db) → Result F (A × Db)
lifted f (err e) = err (f e)
lifted f (ok r) = ok r

pub lifted-ok :
    {E F A : Type 0} (f : E → F) (r : Result E (A × Db)) (s : A × Db) → lifted f r ≡ ok s → r ≡ ok s
lifted-ok f (err e) s h = absurd cc
lifted-ok f (ok r) s h = cc

-- What succeeds behind a guard has passed it.
pub passed :
    {E A : Type 0} (c : Bool) (e : E) (r : Result E A) (s : A)
    → (if c then err e else r) ≡ ok s
    → r ≡ ok s
passed true e r s h = absurd cc
passed false e r s h = h

pub ok-state :
    {E A : Type 0} (a : A) (db : Db) (s : A × Db)
    → ◌≡◌ {A = Result E (A × Db)} (ok (a, db)) (ok s)
    → s.1 ≡ db
ok-state a db s h = cc

module _ (R : Db → Db → Type 0) (R-refl : (db : Db) → R db db)
    (R-trans : (a b c : Db) → R a b → R b c → R a c) where
  -- Where the transaction succeeds, it relates the tables before and after it.
  abbrev pub Respects : {E A : Type 0} → TxOf E A → Type 0
  Respects {A = A} m = (db : Db) (s : A × Db) → m db ≡ ok s → R db s.1

  pub bind-Respects :
      {E A B : Type 0} (m : TxOf E A) (f : A → TxOf E B)
      → Respects m
      → ((a : A) → Respects (f a))
      → Respects (m >>= f)
  bind-Respects m f hm hf db s h =
      let (a, db', e, g) = continued-ok f (m db) s h in
      R-trans db db' s.1 (hm db (a, db') e) (hf a db' s g)

  -- A transaction that leaves the tables alone.
  pub reads-Respects :
      {E A : Type 0} (m : TxOf E A) → ((db : Db) (s : A × Db) → m db ≡ ok s → s.1 ≡ db) → Respects m
  reads-Respects m same db s h = subst (λ d. R db d) (sym (same db s h)) (R-refl db)

  pub pure-Respects : {E A : Type 0} (a : A) → Respects {E = E} (λ db. ok (a, db))
  pure-Respects a = reads-Respects (λ db. ok (a, db)) (λ db s h. cc)

  pub fail-Respects : {E A : Type 0} (e : E) → Respects {A = A} (λ db. err e)
  fail-Respects e db s h = absurd cc

  pub lift-Respects : {E F A : Type 0} (f : E → F) (m : TxOf E A) → Respects m → Respects (lift f m)
  lift-Respects f m hm db s h = hm db s (lifted-ok f (m db) s h)

  pub in_tx-Respects : {E A : Type 0} (m : TxOf E A) (db : Db) → Respects m → R db (in_tx m db).1
  unfolding in_tx
  in_tx-Respects m db hm = elim (Result-cases (m db)) [
    | inl ((a, db'), e) ↦ rw (e, in_tx) (hm db (a, db') e)
    | inr (x, e) ↦ rw (e, in_tx) (R-refl db)
  ]
