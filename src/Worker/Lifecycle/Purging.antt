-- ===== src/Worker/Lifecycle/Purging.antt =====
-- internal/worker/lifecycle/lifecycle.go: what a purge leaves of an identity.
use phenk.Prelude.{
  ℕ, ◌+◌, ◌≡◌, refl, sym, ap, ◌∙◌, Bool, true, false, ◌&&◌, List, [], ◌∷◌, arith, is_empty, any,
}
use phenk.Prelude.Result.{ok}
use phenk.Core.Identity.{Identity, eq_state, reserved}
use phenk.Core.Message.{Delivery}
use phenk.Store.Tables.{Db, Tx, TxOf, has_id, update_where, delete_where, ◌>>=◌}
use phenk.Store.Identities.{destroy_data_key, purgeable, tombstone}
use phenk.Store.Deliveries.{of_identity}
use phenk.Store.Blobs.{release_blob}
use phenk.Store.Events.{append_event}
use phenk.Store.Lifecycle.{identity_blobs, delete_identity_deliveries}
use phenk.Store.Respect.{Respects, bind-Respects, pure-Respects, continued-ok}
use phenk.Worker.Lifecycle.{Options, release_all, purge_tx, purged_event}

-- Nothing happens to the messages.
abbrev SameMail : Db → Db → Type 0
SameMail a b = b.deliveries ≡ a.deliveries

SameMail-refl : (db : Db) → SameMail db db
SameMail-refl db = refl

SameMail-trans : (a b c : Db) → SameMail a b → SameMail b c → SameMail a c
SameMail-trans a b c h k = k ∙ h

abbrev Spares : {E A : Type 0} → TxOf E A → Type 0
Spares m = Respects SameMail SameMail-refl SameMail-trans m

release_blob-Spares : (id : ℕ) → Spares (release_blob id)
unfolding release_blob
release_blob-Spares id db s h = ground arith

release_all-Spares : (ids : List ℕ) → Spares (release_all ids)
unfolding release_all
release_all-Spares [] = pure-Respects SameMail SameMail-refl SameMail-trans tt
release_all-Spares (id ∷ ids) =
    bind-Respects SameMail SameMail-refl SameMail-trans (release_blob id) _ (release_blob-Spares id)
      (λ _. release_all-Spares ids)

none-delete_where :
    (id : ℕ) (ds : List Delivery) → any (of_identity id) (delete_where (of_identity id) ds) ≡ false
none-delete_where id [] = refl
none-delete_where id (d ∷ ds) = ground (arith, none-delete_where id ds)

-- A row of the identity that is reserved and has no key.
abbrev pub is_buried : ℕ → Identity → Bool
is_buried id i = has_id id i && (eq_state i.state reserved && is_empty i.wrapped_data_key)

some_buried :
    (id now until : ℕ) (xs : List Identity)
    → any (purgeable id) xs ≡ true
    → any (is_buried id) (update_where (purgeable id) (tombstone now until) xs) ≡ true
some_buried id now until [] h = cc
some_buried id now until (x ∷ xs) h = ground (arith, some_buried id now until xs)

destroy_data_key-buries :
    (id until now : ℕ) (db : Db) (s : Bool × Db)
    → destroy_data_key id until now db ≡ ok s
    → (s.1.deliveries ≡ db.deliveries) × (s.0 ≡ true → any (is_buried id) s.1.identities ≡ true)
unfolding destroy_data_key
destroy_data_key-buries id until now db s h = ground (arith, some_buried id now until db.identities)

purged_event-keeps :
    (id : ℕ) (moved : Bool) (db : Db) (s : Bool × Db)
    → purged_event id moved db ≡ ok s
    → (s.0 ≡ moved) × (s.1.deliveries ≡ db.deliveries) × (s.1.identities ≡ db.identities)
unfolding append_event
purged_event-keeps id true db s h = ground arith
purged_event-keeps id false db s h = ground arith

delete_identity_deliveries-none :
    (id : ℕ) (db : Db) (s : ℕ × Db)
    → delete_identity_deliveries id db ≡ ok s
    → any (of_identity id) s.1.deliveries ≡ false
unfolding delete_identity_deliveries
delete_identity_deliveries-none id db s h = ground (arith, none-delete_where id db.deliveries)

abbrev returned : List ℕ → Bool → Tx (List ℕ × Bool)
returned ids purged db = ok ((ids, purged), db)

returned-ok :
    (blob_ids ids : List ℕ) (purged : Bool) (db db' : Db)
    → returned blob_ids purged db ≡ ok ((ids, true), db')
    → (purged ≡ true) × (db' ≡ db)
returned-ok blob_ids ids purged db db' h = ground arith

-- A purge that reports success leaves no message of the identity, and a row of the identity that is
-- reserved and whose key is gone.
pub purge_tx-buries :
    (opts : Options) (now id : ℕ) (db db' : Db) (ids : List ℕ)
    → purge_tx opts now id db ≡ ok ((ids, true), db')
    → (any (of_identity id) db'.deliveries ≡ false) × (any (is_buried id) db'.identities ≡ true)
unfolding purge_tx
purge_tx-buries opts now id db db' ids h =
    let blob_ids = identity_blobs id db in
    let tell : Bool → Tx (List ℕ × Bool) =
      λ moved. purged_event id moved >>= λ purged. returned blob_ids purged in
    let bury : Tx (List ℕ × Bool) = destroy_data_key id (now + opts.reserve_period) now >>= tell in
    let free : Tx (List ℕ × Bool) = release_all blob_ids >>= λ _. bury in
    let (a, db₁, e₁, g₁) =
      continued-ok (λ _. free) (delete_identity_deliveries id db) ((ids, true), db') h in
    let (b, db₂, e₂, g₂) =
      continued-ok (λ _. bury) (release_all blob_ids db₁) ((ids, true), db') g₁ in
    let (moved, db₃, e₃, g₃) =
      continued-ok tell (destroy_data_key id (now + opts.reserve_period) now db₂) ((ids, true), db')
        g₂ in
    let (purged, db₄, e₄, g₄) =
      continued-ok (λ purged. returned blob_ids purged) (purged_event id moved db₃)
        ((ids, true), db') g₃ in
    let gone = delete_identity_deliveries-none id db (a, db₁) e₁ in
    let spared = release_all-Spares (identity_blobs id db) db₁ (b, db₂) e₂ in
    let buried = destroy_data_key-buries id (now + opts.reserve_period) now db₂ (moved, db₃) e₃ in
    let told = purged_event-keeps id moved db₃ (purged, db₄) e₄ in
    let same : (purged ≡ true) × (db' ≡ db₄) = returned-ok blob_ids ids purged db₄ db' g₄ in
    let left : db'.deliveries ≡ db₁.deliveries =
      ap (λ t. t.deliveries) same.1 ∙ (told.1 ∙ (buried.0 ∙ spared)) in
    let rows : db'.identities ≡ db₃.identities = ap (λ t. t.identities) same.1 ∙ told.2 in
    (rw left gone, rw rows (buried.1 (sym told.0 ∙ same.0)))
