-- ===== src/Worker/Lifecycle/Evolution.antt =====
-- internal/worker/lifecycle/lifecycle.go: what the jobs do to the rows of the identities table.
use phenk.Prelude.{
  ℕ, ◌+◌, ◌-◌, inl, inr, refl, Bool, true, false, Option, some, List, [], ◌∷◌, ◌++◌, map, arith,
  ltb, ◌==◌, Bool-cases, is_empty, take, any, All-of-forall, Bytes,
}
use phenk.Store.Blobs.{orphaned_blobs}
use phenk.Prelude.Result.{Result, ok, err}
use phenk.Core.Identity.{Identity}
use phenk.Core.Message.{
  Delivery, EventType, identity_expiring, identity_expired, identity_purged, message_expired,
}
use phenk.Store.Tables.{Db, StoreError, in_tx, has_id, update_where}
use phenk.Store.Identities.{destroy_data_key}
use phenk.Store.Blobs.{release_blob, claim_orphan_blob}
use phenk.Store.Events.{append_event}
use phenk.Store.Lifecycle.{
  expire_due_identities, mark_expiring_identities, delivery_blobs, identity_blobs, delete_delivery,
  delete_identity_deliveries, purgeable_identities, swept_named_identities, expired_deliveries,
}
use phenk.Store.Respect.{ok-state}
use phenk.Store.Rows.{Aged}
use phenk.Store.Rows.Statements.{
  Evolves, Evolves-refl, Evolves-trans, Ages, updated, append_event-Ages, release_blob-Ages,
  destroy_data_key-Ages, delete_delivery-Ages, delete_identity_deliveries-Ages,
  expire_due_identities-Ages, mark_expiring_identities-Ages, claim_orphan_blob-Ages, bind-Ages,
  pure-Ages, in_tx-Evolves,
}
use phenk.Worker.Lifecycle.{
  Options, World, Swept, emit_all, notice_tx, expire_tx, release_all, purge_tx, purged_event,
  collect_blob, collect_blobs, claimed, purge_one, purge_each, purge, sweep_deliveries, sweep_found,
  record_expired, settle, sweep_tx, sweep_one, sweep_each, sweep, collect_orphans, after_purge,
  after_sweep, give_back, retention_of, default_retention_max, default_named_batch,
  default_blob_batch, sum_sizes,
}

emit_all-Ages : (type : EventType) (ids : List ℕ) → Ages (emit_all type ids)
unfolding emit_all
emit_all-Ages type [] = pure-Ages tt
emit_all-Ages type (id ∷ ids) =
    bind-Ages (append_event (some id) type) _ (append_event-Ages (some id) type)
      (λ _. emit_all-Ages type ids)

pub notice_tx-Ages : (opts : Options) (now : ℕ) → Ages (notice_tx opts now)
unfolding notice_tx
notice_tx-Ages opts now =
    bind-Ages (mark_expiring_identities (now + opts.expiring_notice) opts.batch_size) _
      (mark_expiring_identities-Ages (now + opts.expiring_notice) opts.batch_size)
      (λ ids.
        bind-Ages (emit_all identity_expiring ids) _ (emit_all-Ages identity_expiring ids)
          (λ _. pure-Ages ids))

pub expire_tx-Ages : (opts : Options) (now : ℕ) → Ages (expire_tx opts now)
unfolding expire_tx
expire_tx-Ages opts now =
    bind-Ages (expire_due_identities now opts.batch_size) _
      (expire_due_identities-Ages now opts.batch_size)
      (λ ids.
        bind-Ages (emit_all identity_expired ids) _ (emit_all-Ages identity_expired ids)
          (λ _. pure-Ages ids))

release_all-Ages : (ids : List ℕ) → Ages (release_all ids)
unfolding release_all
release_all-Ages [] = pure-Ages tt
release_all-Ages (id ∷ ids) =
    bind-Ages (release_blob id) _ (release_blob-Ages id) (λ _. release_all-Ages ids)

purged_event-Ages : (id : ℕ) (moved : Bool) → Ages (purged_event id moved)
purged_event-Ages id true =
    bind-Ages (append_event (some id) identity_purged) _
      (append_event-Ages (some id) identity_purged) (λ _. pure-Ages true)
purged_event-Ages id false = pure-Ages false

purge_tx-Ages : (opts : Options) (now id : ℕ) → Ages (purge_tx opts now id)
unfolding purge_tx
purge_tx-Ages opts now id db =
    bind-Ages (delete_identity_deliveries id) _ (delete_identity_deliveries-Ages id)
      (λ _.
        bind-Ages (release_all (identity_blobs id db)) _ (release_all-Ages (identity_blobs id db))
          (λ _.
            bind-Ages (destroy_data_key id (now + opts.reserve_period) now) _
              (destroy_data_key-Ages id (now + opts.reserve_period) now)
              (λ moved.
                bind-Ages (purged_event id moved) _ (purged_event-Ages id moved)
                  (λ purged. pure-Ages (identity_blobs id db, purged)))))
      db

claimed-Evolves :
    (a : Db) (r : Result StoreError (Option Bytes) × Db) (files : List Bytes)
    → Evolves a r.1
    → Evolves a (claimed r files).db
claimed-Evolves a (err e, db) files h = h
claimed-Evolves a (ok sha, db) files h = h

collect_blob-Evolves : (id : ℕ) (w : World) → Evolves w.db (collect_blob id w).db
unfolding collect_blob
collect_blob-Evolves id w =
    claimed-Evolves w.db (in_tx (claim_orphan_blob id) w.db) w.files
      (in_tx-Evolves (claim_orphan_blob id) w.db (claim_orphan_blob-Ages id))

collect_blobs-Evolves : (seen ids : List ℕ) (w : World) → Evolves w.db (collect_blobs seen ids w).db
unfolding collect_blobs
collect_blobs-Evolves seen [] w = Evolves-refl w.db
collect_blobs-Evolves seen (id ∷ ids) w = elim (Bool-cases (any (λ i. i == id) seen)) [
  | inl again ↦ rw again (collect_blobs-Evolves seen ids w)
  | inr first ↦ rw first (
      Evolves-trans w.db (collect_blob id w).db
        (collect_blobs (id ∷ seen) ids (collect_blob id w)).db (collect_blob-Evolves id w)
        (collect_blobs-Evolves (id ∷ seen) ids (collect_blob id w)))
]

after_purge-Evolves :
    (a : Db) (files : List Bytes) (r : Result StoreError (List ℕ × Bool) × Db)
    → Evolves a r.1
    → Evolves a (after_purge files r).0.db
after_purge-Evolves a files (err e, db) h = h
after_purge-Evolves a files (ok (ids, false), db) h = h
after_purge-Evolves a files (ok (ids, true), db) h =
    let w : World = record { db = db; files = files } in
    Evolves-trans a db (collect_blobs [] ids w).db h (collect_blobs-Evolves [] ids w)

purge_one-Evolves :
    (opts : Options) (now id : ℕ) (w : World) → Evolves w.db (purge_one opts now id w).0.db
unfolding purge_one
purge_one-Evolves opts now id w =
    after_purge-Evolves w.db w.files (in_tx (purge_tx opts now id) w.db)
      (in_tx-Evolves (purge_tx opts now id) w.db (purge_tx-Ages opts now id))

purge_each-Evolves :
    (opts : Options) (now : ℕ) (ids : List ℕ) (w : World)
    → Evolves w.db (purge_each opts now ids w).0.db
unfolding purge_each
purge_each-Evolves opts now [] w = Evolves-refl w.db
purge_each-Evolves opts now (id ∷ ids) w =
    let w' = (purge_one opts now id w).0 in
    Evolves-trans w.db w'.db (purge_each opts now ids w').0.db (purge_one-Evolves opts now id w)
      (purge_each-Evolves opts now ids w')

pub purge-Evolves : (opts : Options) (now : ℕ) (w : World) → Evolves w.db (purge opts now w).0.db
unfolding purge
purge-Evolves opts now w =
    purge_each-Evolves opts now (purgeable_identities (now - opts.purge_grace) opts.batch_size w.db)
      w

record_expired-Ages : (identity_id : ℕ) (ids : List ℕ) → Ages (record_expired identity_id ids)
record_expired-Ages identity_id ids = bind-Ages (release_all ids) _ (release_all-Ages ids) (λ _.
    bind-Ages (append_event (some identity_id) message_expired) _
      (append_event-Ages (some identity_id) message_expired) (λ _. pure-Ages tt))

sweep_found-Ages :
    (identity_id : ℕ) (ids : List ℕ) (deleted : Bool) (swept : Swept)
    → Ages (sweep_found identity_id ids deleted swept)
sweep_found-Ages identity_id ids true (blob_ids, removed) =
    bind-Ages (record_expired identity_id ids) _ (record_expired-Ages identity_id ids)
      (λ _. pure-Ages (blob_ids ++ ids, removed + 1))
sweep_found-Ages identity_id ids false (blob_ids, removed) = pure-Ages (blob_ids, removed)

sweep_deliveries-Ages :
    (identity_id : ℕ) (ds : List Delivery) (swept : Swept)
    → Ages (sweep_deliveries identity_id ds swept)
unfolding sweep_deliveries
sweep_deliveries-Ages identity_id [] swept db = pure-Ages swept db
sweep_deliveries-Ages identity_id (d ∷ ds) swept db =
    bind-Ages (delete_delivery d.id) _ (delete_delivery-Ages d.id)
      (λ deleted.
        bind-Ages (sweep_found identity_id (delivery_blobs d.id db) deleted swept) _
          (sweep_found-Ages identity_id (delivery_blobs d.id db) deleted swept)
          (λ swept'. sweep_deliveries-Ages identity_id ds swept'))
      db

give_back-Aged : (removed freed : ℕ) (x : Identity) → Aged x (give_back removed freed x)
give_back-Aged removed freed x = record {
  same_id = refl;
  same_local = refl;
  same_domain = refl;
  same_kind = refl;
  state_moves_on = omega arith;
  seq_grows = omega arith;
  key_kept = inl refl;
}

settle-Evolves :
    (identity_id : ℕ) (ds : List Delivery) (removed : ℕ) (db : Db)
    → Evolves db (settle identity_id ds removed db)
unfolding settle
settle-Evolves identity_id ds removed db = elim (Bool-cases (ltb 0 removed)) [
  | inr nothing ↦ rw nothing (Evolves-refl db)
  | inl some_removed ↦
      let freed = sum_sizes (take removed ds) in
      rw some_removed (
        updated (has_id identity_id) (give_back removed freed) db
          (record db {
            identities = update_where (has_id identity_id) (give_back removed freed) db.identities;
          })
          (λ x. (refl, refl, refl))
          (λ k. All-of-forall (λ x p. give_back-Aged removed freed x) db.identities) refl)
]

settled-Ages :
    (identity_id : ℕ) (ds : List Delivery) (swept : Swept)
    → Ages {E = StoreError} (λ db. ok (swept, settle identity_id ds swept.1 db))
settled-Ages identity_id ds swept db s h k =
    rw (ok-state swept (settle identity_id ds swept.1 db) s h)
      (settle-Evolves identity_id ds swept.1 db k)

sweep_tx-Ages : (identity_id : ℕ) (ds : List Delivery) → Ages (sweep_tx identity_id ds)
unfolding sweep_tx
sweep_tx-Ages identity_id ds =
    bind-Ages (sweep_deliveries identity_id ds ([], 0)) _
      (sweep_deliveries-Ages identity_id ds ([], 0)) (λ swept. settled-Ages identity_id ds swept)

after_sweep-Evolves :
    (a : Db) (files : List Bytes) (r : Result StoreError Swept × Db)
    → Evolves a r.1
    → Evolves a (after_sweep files r).0.db
after_sweep-Evolves a files (err e, db) h = h
after_sweep-Evolves a files (ok (ids, removed), db) h =
    let w : World = record { db = db; files = files } in
    Evolves-trans a db (collect_blobs [] ids w).db h (collect_blobs-Evolves [] ids w)

sweep_one-Evolves :
    (opts : Options) (now : ℕ) (i : Identity) (w : World)
    → Evolves w.db (sweep_one opts now i w).0.db
unfolding sweep_one
sweep_one-Evolves opts now i w =
    let ds =
      take default_retention_max
        (expired_deliveries i.id (now - retention_of opts i) i.quota_messages w.db) in
    elim (Bool-cases (is_empty ds)) [
      | inl none_due ↦ rw none_due (Evolves-refl w.db)
      | inr due ↦ rw due (
          after_sweep-Evolves w.db w.files (in_tx (sweep_tx i.id ds) w.db)
            (in_tx-Evolves (sweep_tx i.id ds) w.db (sweep_tx-Ages i.id ds)))
    ]

sweep_each-Evolves :
    (opts : Options) (now : ℕ) (is : List Identity) (w : World)
    → Evolves w.db (sweep_each opts now is w).0.db
unfolding sweep_each
sweep_each-Evolves opts now [] w = Evolves-refl w.db
sweep_each-Evolves opts now (i ∷ is) w =
    let w' = (sweep_one opts now i w).0 in
    Evolves-trans w.db w'.db (sweep_each opts now is w').0.db (sweep_one-Evolves opts now i w)
      (sweep_each-Evolves opts now is w')

pub sweep-Evolves : (opts : Options) (now : ℕ) (w : World) → Evolves w.db (sweep opts now w).0.db
unfolding sweep
sweep-Evolves opts now w =
    sweep_each-Evolves opts now (swept_named_identities default_named_batch w.db) w

pub collect_orphans-Evolves : (w : World) → Evolves w.db (collect_orphans w).0.db
unfolding collect_orphans
collect_orphans-Evolves w =
    collect_blobs-Evolves [] (map (λ b. b.id) (orphaned_blobs default_blob_batch w.db)) w
