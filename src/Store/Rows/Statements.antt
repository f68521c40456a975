-- ===== src/Store/Rows/Statements.antt =====
-- internal/store/pg: what each statement does to the rows of the identities table.
use phenk.Prelude.{
  ℕ, ◌≤◌, ◌≡◌, ◌⊎◌, inl, inr, refl, sym, ap, Bool, true, false, not, Option, none, some, List, [],
  ◌∷◌, ◌++◌, arith, ◌==◌, any, All, All-of-forall, Bytes,
}
use mathlib.Core.Path.{subst}
use phenk.Prelude.Result.{ok}
use phenk.Core.Identity.{Identity, IdentityState, expiring, expired}
use phenk.Core.Message.{Delivery, EventType}
use phenk.Store.Tables.{
  Db, TxOf, update_where, has_id, has_address, or_not_found, in_tx, lift, StoreError, invalid,
  ◌>>=◌,
}
use phenk.Store.Respect.{
  passed, ok-state, Respects, bind-Respects, reads-Respects, lift-Respects, pure-Respects,
  in_tx-Respects,
}
use phenk.Store.Rows.{
  rank-le-reserved, rank, Aged, HasAged, HasAged-refl, HasAged-trans, HasAged-append, IsKeyed,
  append-IsKeyed, KeepsKeys, clashes, update_where-IsKeyed, update_where-HasAged,
}
use phenk.Store.Rows.Chosen.{chosen-All}
use phenk.Store.Identities.{
  valid_identity, in_state, purgeable, tombstone, destroy_data_key, create_identity,
  create_identity_if_absent, insert_if_absent, identity_by_address, identity_for_update, new_row,
  with_id,
}
use phenk.Store.Deliveries.{charge, reserve_delivery_slot, insert_delivery}
use phenk.Store.Blobs.{acquire_blob, release_blob, claim_orphan_blob}
use phenk.Store.Events.{append_event}
use phenk.Store.Lifecycle.{
  first_due, among, due_for_expiry, due_for_notice, expire_due_identities, mark_expiring_identities,
  delete_delivery, delete_identity_deliveries,
}

-- On a table whose keys are unique they stay unique, and every row is still there, aged.
abbrev pub Evolves : Db → Db → Type 0
Evolves a b = IsKeyed a.identities → HasAged a.identities b.identities × IsKeyed b.identities

pub Evolves-refl : (db : Db) → Evolves db db
Evolves-refl db k = (HasAged-refl db.identities, k)

pub Evolves-trans : (a b c : Db) → Evolves a b → Evolves b c → Evolves a c
Evolves-trans a b c h g k =
    (HasAged-trans a.identities b.identities c.identities (h k).0 (g (h k).1).0, (g (h k).1).1)

abbrev pub Ages : {E A : Type 0} → TxOf E A → Type 0
Ages m = Respects Evolves Evolves-refl Evolves-trans m

pub bind-Ages :
    {E A B : Type 0} (m : TxOf E A) (f : A → TxOf E B)
    → Ages m
    → ((a : A) → Ages (f a))
    → Ages (m >>= f)
bind-Ages m f hm hf = bind-Respects Evolves Evolves-refl Evolves-trans m f hm hf

pub pure-Ages : {E A : Type 0} (a : A) → Ages {E = E} (λ db. ok (a, db))
pure-Ages a = pure-Respects Evolves Evolves-refl Evolves-trans a

pub reads-Ages :
    {E A : Type 0} (m : TxOf E A) → ((db : Db) (s : A × Db) → m db ≡ ok s → s.1 ≡ db) → Ages m
reads-Ages m h = reads-Respects Evolves Evolves-refl Evolves-trans m h

pub lift-Ages : {E F A : Type 0} (f : E → F) (m : TxOf E A) → Ages m → Ages (lift f m)
lift-Ages f m h = lift-Respects Evolves Evolves-refl Evolves-trans f m h

pub in_tx-Evolves : {E A : Type 0} (m : TxOf E A) (db : Db) → Ages m → Evolves db (in_tx m db).1
in_tx-Evolves m db h = in_tx-Respects Evolves Evolves-refl Evolves-trans m db h

pub untouched : (a b : Db) → b.identities ≡ a.identities → Evolves a b
untouched a b e k = (
  subst (λ ys. HasAged a.identities ys) (sym e) (HasAged-refl a.identities),
  subst IsKeyed (sym e) k,
)

or_not_found-state :
    {A : Type 0} (o : Option A) (db : Db) (s : A × Db) → or_not_found o db ≡ ok s → s.1 ≡ db
or_not_found-state none db s h = absurd cc
or_not_found-state (some a) db s h = cc

-- A statement that reads.
abbrev rows : Db → List Identity
rows db = db.identities

pub updated :
    (p : Identity → Bool) (f : Identity → Identity) (a b : Db)
    → KeepsKeys f
    → (IsKeyed a.identities → All (λ x. p x ≡ true → Aged x (f x)) a.identities)
    → b.identities ≡ update_where p f a.identities
    → Evolves a b
updated p f a b keeps h e k = rw e (
  update_where-HasAged p f keeps a.identities (h k),
  update_where-IsKeyed p f keeps a.identities k,
)

charge-Aged : (size : ℕ) (x : Identity) → Aged x (charge size x)
charge-Aged size x = record {
  same_id = refl;
  same_local = refl;
  same_domain = refl;
  same_kind = refl;
  state_moves_on = omega arith;
  seq_grows = omega arith;
  key_kept = inl refl;
}

tombstone-Aged : (now until : ℕ) (x : Identity) → Aged x (tombstone now until x)
tombstone-Aged now until x = record {
  same_id = refl;
  same_local = refl;
  same_domain = refl;
  same_kind = refl;
  state_moves_on = rank-le-reserved x.state;
  seq_grows = omega arith;
  key_kept = inr refl;
}

in_state-Aged :
    (to : IdentityState) (x : Identity) → rank x.state ≤ rank to → Aged x (in_state to x)
in_state-Aged to x h = record {
  same_id = refl;
  same_local = refl;
  same_domain = refl;
  same_kind = refl;
  state_moves_on = h;
  seq_grows = omega arith;
  key_kept = inl refl;
}

pub destroy_data_key-Ages : (id until now : ℕ) → Ages (destroy_data_key id until now)
unfolding destroy_data_key
destroy_data_key-Ages id until now db s h =
    updated (purgeable id) (tombstone now until) db s.1 (λ x. (refl, refl, refl))
      (λ k. All-of-forall (λ x p. tombstone-Aged now until x) db.identities)
      (ap rows (ok-state _ _ s h))

pub reserve_delivery_slot-Ages : (id size : ℕ) → Ages (reserve_delivery_slot id size)
unfolding reserve_delivery_slot
reserve_delivery_slot-Ages id size db s h =
    updated (has_id id) (charge size) db s.1 (λ x. (refl, refl, refl))
      (λ k. All-of-forall (λ x p. charge-Aged size x) db.identities)
      (ap rows (or_not_found-state _ _ s h))

due_for_expiry-rank : (now : ℕ) (x : Identity) → due_for_expiry now x ≡ true → rank x.state ≤ 2
due_for_expiry-rank now x h = ground arith

due_for_notice-rank : (t : ℕ) (x : Identity) → due_for_notice t x ≡ true → rank x.state ≤ 1
due_for_notice-rank t x h = ground arith

pub expire_due_identities-Ages : (now limit : ℕ) → Ages (expire_due_identities now limit)
unfolding expire_due_identities
expire_due_identities-Ages now limit db s h =
    updated (among (first_due (due_for_expiry now) limit db.identities)) (in_state expired) db s.1
      (λ x. (refl, refl, refl))
      (λ k.
        chosen-All (due_for_expiry now) limit (λ x. Aged x (in_state expired x))
          (λ x due. in_state-Aged expired x (due_for_expiry-rank now x due)) db.identities k)
      (ap rows (ok-state _ _ s h))

pub mark_expiring_identities-Ages : (t limit : ℕ) → Ages (mark_expiring_identities t limit)
unfolding mark_expiring_identities
mark_expiring_identities-Ages t limit db s h =
    updated (among (first_due (due_for_notice t) limit db.identities)) (in_state expiring) db s.1
      (λ x. (refl, refl, refl))
      (λ k.
        chosen-All (due_for_notice t) limit (λ x. Aged x (in_state expiring x))
          (λ x due. in_state-Aged expiring x (due_for_notice-rank t x due)) db.identities k)
      (ap rows (ok-state _ _ s h))

pub append_event-Ages : (id : Option ℕ) (type : EventType) → Ages (append_event id type)
unfolding append_event
append_event-Ages id type db s h = untouched db s.1 (ap rows (ok-state _ _ s h))

pub delete_delivery-Ages : (id : ℕ) → Ages (delete_delivery id)
unfolding delete_delivery
delete_delivery-Ages id db s h = untouched db s.1 (ap rows (ok-state _ _ s h))

pub delete_identity_deliveries-Ages : (id : ℕ) → Ages (delete_identity_deliveries id)
unfolding delete_identity_deliveries
delete_identity_deliveries-Ages id db s h = untouched db s.1 (ap rows (ok-state _ _ s h))

pub release_blob-Ages : (id : ℕ) → Ages (release_blob id)
unfolding release_blob
release_blob-Ages id db s h = untouched db s.1 (ap rows (or_not_found-state _ _ s h))

pub identity_for_update-Ages : (id : ℕ) → Ages (identity_for_update id)
unfolding identity_for_update
identity_for_update-Ages id db s h = untouched db s.1 (ap rows (or_not_found-state _ _ s h))

pub identity_by_address-Ages :
    (local : Bytes) (domain : ℕ) → Ages (identity_by_address local domain)
unfolding identity_by_address
identity_by_address-Ages local domain db s h =
    untouched db s.1 (ap rows (or_not_found-state _ _ s h))

pub claim_orphan_blob-Ages : (id : ℕ) → Ages (claim_orphan_blob id)
unfolding claim_orphan_blob
claim_orphan_blob-Ages id db s h = untouched db s.1 (ground arith)

pub acquire_blob-Ages :
    (fresh : ℕ) (sha : Bytes) (size : ℕ) (path : Bytes) (now : ℕ)
    → Ages (acquire_blob fresh sha size path now)
unfolding acquire_blob
acquire_blob-Ages fresh sha size path now db s h = untouched db s.1 (ground arith)

pub insert_delivery-Ages : (fresh : ℕ) (d : Delivery) → Ages (insert_delivery fresh d)
unfolding insert_delivery
insert_delivery-Ages fresh d db s h = untouched db s.1 (ground arith)

abbrev IsAdded : Db → Identity → Db → Type 0
IsAdded a x b =
    (any (clashes x) a.identities ≡ false) × (b.identities ≡ a.identities ++ new_row x ∷ [])

added : (a b : Db) (x : Identity) → IsAdded a x b → Evolves a b
added a b x (new, e) k =
    rw e
      (HasAged-append a.identities (new_row x ∷ []), append-IsKeyed a.identities (new_row x) k new)

create_identity-IsAdded :
    (fresh : ℕ) (x : Identity) (db : Db) (s : Unit {0} × Db)
    → create_identity fresh x db ≡ ok s
    → IsAdded db (with_id fresh x) s.1
unfolding create_identity
create_identity-IsAdded fresh x db s h = ground arith

pub create_identity-Ages : (fresh : ℕ) (x : Identity) → Ages (create_identity fresh x)
create_identity-Ages fresh x db s h =
    added db s.1 (with_id fresh x) (create_identity-IsAdded fresh x db s h)

-- No row with this address, and none with this identifier.
unclashed :
    (x : Identity) (xs : List Identity)
    → any (has_address x.local_part x.domain_id) xs ≡ false
    → any (has_id x.id) xs ≡ false
    → any (clashes x) xs ≡ false
unclashed x [] h g = refl
unclashed x (y ∷ ys) h g = ground (arith, unclashed x ys)

insert_if_absent-cases :
    (x : Identity) (db : Db) (s : Unit {0} × Db)
    → insert_if_absent x db ≡ ok s
    → (s.1.identities ≡ db.identities) ⊎ IsAdded db x s.1
unfolding insert_if_absent
insert_if_absent-cases x db s h = ground (arith, unclashed x db.identities)

pub insert_if_absent-Ages : (x : Identity) → Ages (insert_if_absent x)
insert_if_absent-Ages x db s h = elim (insert_if_absent-cases x db s h) [
  | inl same ↦ untouched db s.1 same
  | inr new ↦ added db s.1 x new
]

abbrev then_stored : Identity → TxOf StoreError (Identity × Bool)
then_stored y = insert_if_absent y >>= λ _.
    identity_by_address y.local_part y.domain_id >>= λ stored db.
    ok ((stored, stored.id == y.id), db)

then_stored-Ages : (y : Identity) → Ages (then_stored y)
then_stored-Ages y = bind-Ages (insert_if_absent y) _ (insert_if_absent-Ages y) (λ _.
    bind-Ages (identity_by_address y.local_part y.domain_id) _
      (identity_by_address-Ages y.local_part y.domain_id)
      (λ stored. pure-Ages (stored, stored.id == y.id)))

pub create_identity_if_absent-Ages :
    (fresh : ℕ) (x : Identity) → Ages (create_identity_if_absent fresh x)
unfolding create_identity_if_absent
create_identity_if_absent-Ages fresh x db s h =
    let y = with_id fresh x in
    then_stored-Ages y db s (passed (not (valid_identity y)) invalid (then_stored y db) s h)
