-- ===== src/Store/Rows.antt =====
-- internal/store/pg and migrations/0001_init.sql: the rows of the identities table over time.
pub mod Chosen
pub mod Statements
use phenk.Prelude.{
  ℕ, ◌≤◌, ◌≡◌, ◌⊎◌, inl, inr, refl, ◌∙◌, Bool, true, false, ◌||◌, List, [], ◌∷◌, ◌++◌, arith,
  Bool-cases, any, All, Bytes, eq_bytes_iff,
}
use phenk.Core.Identity.{Identity, IdentityState, Kind, active, expiring, expired, purged, reserved}
use phenk.Store.Tables.{update_where, has_id, has_address}

-- The order in which an identity passes through its states.
abbrev pub rank : IdentityState → ℕ
rank active = 0
rank expiring = 1
rank expired = 2
rank purged = 3
rank reserved = 4

pub rank-le-reserved : (s : IdentityState) → rank s ≤ rank reserved
rank-le-reserved active = omega arith
rank-le-reserved expiring = omega arith
rank-le-reserved expired = omega arith
rank-le-reserved purged = omega arith
rank-le-reserved reserved = omega arith

-- The columns that identify a row stay, the state only moves on, sequence numbers are not given out
-- again, and the key stays or is destroyed.
pub record Aged (x y : Identity) : Type 0 where
  pub same_id : x.id ≡ y.id
  pub same_local : x.local_part ≡ y.local_part
  pub same_domain : x.domain_id ≡ y.domain_id
  pub same_kind : x.kind ≡ y.kind
  pub state_moves_on : rank x.state ≤ rank y.state
  pub seq_grows : x.delivery_seq ≤ y.delivery_seq
  pub key_kept : (y.wrapped_data_key ≡ x.wrapped_data_key) ⊎ (y.wrapped_data_key ≡ [])

pub Aged-refl : (x : Identity) → Aged x x
Aged-refl x = record {
  same_id = refl;
  same_local = refl;
  same_domain = refl;
  same_kind = refl;
  state_moves_on = omega arith;
  seq_grows = omega arith;
  key_kept = inl refl;
}

key_trans : (x y z : Bytes) → (y ≡ x) ⊎ (y ≡ []) → (z ≡ y) ⊎ (z ≡ []) → (z ≡ x) ⊎ (z ≡ [])
key_trans x y z h (inr e) = inr e
key_trans x y z (inl d) (inl e) = inl (e ∙ d)
key_trans x y z (inr d) (inl e) = inr (e ∙ d)

pub Aged-trans : (x y z : Identity) → Aged x y → Aged y z → Aged x z
Aged-trans x y z a b = record {
  same_id = a.same_id ∙ b.same_id;
  same_local = a.same_local ∙ b.same_local;
  same_domain = a.same_domain ∙ b.same_domain;
  same_kind = a.same_kind ∙ b.same_kind;
  state_moves_on = let h = a.state_moves_on in let k = b.state_moves_on in omega arith;
  seq_grows = let h = a.seq_grows in let k = b.seq_grows in omega arith;
  key_kept =
      key_trans x.wrapped_data_key y.wrapped_data_key z.wrapped_data_key a.key_kept b.key_kept;
}

-- Every row is still there, aged, at its place; others may have come behind them.
abbrev pub HasAged : List Identity → List Identity → Type 0
HasAged [] ys = Unit
HasAged (x ∷ xs) [] = ⊥
HasAged (x ∷ xs) (y ∷ ys) = Aged x y × HasAged xs ys

pub HasAged-refl : (xs : List Identity) → HasAged xs xs
HasAged-refl [] = tt
HasAged-refl (x ∷ xs) = (Aged-refl x, HasAged-refl xs)

pub HasAged-trans : (xs ys zs : List Identity) → HasAged xs ys → HasAged ys zs → HasAged xs zs
HasAged-trans [] ys zs h k = tt
HasAged-trans (x ∷ xs) [] zs h k = absurd h
HasAged-trans (x ∷ xs) (y ∷ ys) [] h k = absurd k
HasAged-trans (x ∷ xs) (y ∷ ys) (z ∷ zs) h k =
    (Aged-trans x y z h.0 k.0, HasAged-trans xs ys zs h.1 k.1)

pub HasAged-append : (xs ys : List Identity) → HasAged xs (xs ++ ys)
HasAged-append [] ys = tt
HasAged-append (x ∷ xs) ys = (Aged-refl x, HasAged-append xs ys)

-- The unique keys of the table: the identifier, and the address.
abbrev pub clashes : Identity → Identity → Bool
clashes x y = has_id x.id y || has_address x.local_part x.domain_id y

abbrev pub IsKeyed : List Identity → Type 0
IsKeyed [] = Unit
IsKeyed (x ∷ xs) = (any (clashes x) xs ≡ false) × IsKeyed xs

clashes_sym : (x y : Identity) → clashes x y ≡ clashes y x
clashes_sym x y =
    ground (arith, eq_bytes_iff x.local_part y.local_part, eq_bytes_iff y.local_part x.local_part)

any-append :
    (p : Identity → Bool) (rs : List Identity) (r : Identity)
    → any p rs ≡ false
    → p r ≡ false
    → any p (rs ++ r ∷ []) ≡ false
any-append p [] r h f = rw f refl
any-append p (q ∷ rs) r h f = ground (arith, any-append p rs r)

pub append-IsKeyed :
    (xs : List Identity) (x : Identity)
    → IsKeyed xs
    → any (clashes x) xs ≡ false
    → IsKeyed (xs ++ x ∷ [])
append-IsKeyed [] x k h = (refl, tt)
append-IsKeyed (y ∷ xs) x k h =
    let same = clashes_sym x y in
    (any-append (clashes y) xs x k.0 (ground arith), append-IsKeyed xs x k.1 (ground arith))

-- A change that keeps the keys of a row.
abbrev pub KeepsKeys : (Identity → Identity) → Type 0
KeepsKeys f =
    (x : Identity)
    → ((f x).id ≡ x.id) × ((f x).local_part ≡ x.local_part) × ((f x).domain_id ≡ x.domain_id)

module _ (p : Identity → Bool) (f : Identity → Identity) (keeps : KeepsKeys f) where
  any-update_where :
      (x : Identity) (xs : List Identity)
      → any (clashes x) (update_where p f xs) ≡ any (clashes x) xs
  any-update_where x [] = refl
  any-update_where x (y ∷ xs) = ground (arith, any-update_where x xs, keeps y)

  clashes-f : (x : Identity) (xs : List Identity) → any (clashes (f x)) xs ≡ any (clashes x) xs
  clashes-f x [] = refl
  clashes-f x (y ∷ xs) = ground (arith, clashes-f x xs, keeps x)

  pub update_where-IsKeyed : (xs : List Identity) → IsKeyed xs → IsKeyed (update_where p f xs)
  update_where-IsKeyed [] k = tt
  update_where-IsKeyed (x ∷ xs) k = elim (Bool-cases (p x)) [
    | inl changed ↦
        rw changed
          ((any-update_where (f x) xs ∙ (clashes-f x xs ∙ k.0)), update_where-IsKeyed xs k.1)
    | inr same ↦ rw same ((any-update_where x xs ∙ k.0), update_where-IsKeyed xs k.1)
  ]

  pub update_where-HasAged :
      (xs : List Identity)
      → All (λ x. p x ≡ true → Aged x (f x)) xs
      → HasAged xs (update_where p f xs)
  update_where-HasAged [] h = tt
  update_where-HasAged (x ∷ xs) h = elim (Bool-cases (p x)) [
    | inl changed ↦ rw changed (h.0 changed, update_where-HasAged xs h.1)
    | inr same ↦ rw same (Aged-refl x, update_where-HasAged xs h.1)
  ]
