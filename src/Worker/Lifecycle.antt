-- ===== src/Worker/Lifecycle.antt =====
-- internal/worker/lifecycle/lifecycle.go: the jobs that end addresses and messages. Times are numbers
-- of nanoseconds, and a time before 0 is 0; no row is older. The blob store is the list of the
-- addresses whose bytes it holds.
pub mod Evolution
pub mod Purging
use phenk.Prelude.{
  ℕ, ◌+◌, ◌-◌, ◌*◌, ◌^◌, Bool, true, false, not, Option, none, some, List, [], ◌∷◌, ◌++◌, map, ltb,
  ◌==◌, if◌then◌else◌, length, is_empty, take, keep, any, Bytes, eq_bytes,
}
use phenk.Prelude.Result.{Result, ok, err}
use phenk.Core.Identity.{Identity, default_named_retention_hours}
use phenk.Core.Message.{
  Delivery, Blob, EventType, identity_expiring, identity_expired, identity_purged, message_expired,
}
use phenk.Store.Tables.{Db, Tx, StoreError, in_tx, has_id, update_where, ◌>>=◌, ◌>>◌}
use phenk.Store.Identities.{destroy_data_key}
use phenk.Store.Blobs.{release_blob, orphaned_blobs, claim_orphan_blob}
use phenk.Store.Events.{append_event}
use phenk.Store.Lifecycle.{
  expire_due_identities, mark_expiring_identities, purgeable_identities, swept_named_identities,
  expired_deliveries, delivery_blobs, identity_blobs, delete_delivery, delete_identity_deliveries,
  count_reserved_identities,
}

abbrev pub minute : ℕ
minute = 60 * 10 ^ 9

abbrev pub hour : ℕ
hour = 60 * minute

abbrev pub default_batch_size : ℕ
default_batch_size = 500

abbrev pub default_blob_batch : ℕ
default_blob_batch = 1000

abbrev pub default_named_batch : ℕ
default_named_batch = 200

abbrev pub default_retention_max : ℕ
default_retention_max = 500

pub record Options : Type 0 where
  pub purge_grace : ℕ
  pub reserve_period : ℕ
  pub expiring_notice : ℕ
  pub named_retention : ℕ
  pub batch_size : ℕ

abbrev or_default : ℕ → ℕ → ℕ
or_default d n = if n == 0 then d else n

-- Options.withDefaults
unfoldable pub with_defaults : Options → Options
with_defaults o = record {
  purge_grace = or_default (5 * minute) o.purge_grace;
  reserve_period = or_default (90 * 24 * hour) o.reserve_period;
  expiring_notice = or_default (5 * minute) o.expiring_notice;
  named_retention = or_default (default_named_retention_hours * hour) o.named_retention;
  batch_size = or_default default_batch_size o.batch_size;
}

-- The loop that emits an event for each identity.
unfoldable pub emit_all : EventType → List ℕ → Tx (Unit {0})
unfolding append_event
emit_all type [] db = ok (tt, db)
emit_all type (id ∷ ids) db = (append_event (some id) type >>= λ seq. emit_all type ids) db

-- Notice: the identities that were notified
unfoldable pub notice_tx : Options → ℕ → Tx (List ℕ)
unfolding mark_expiring_identities emit_all
notice_tx opts now = do
  ids ← mark_expiring_identities (now + opts.expiring_notice) opts.batch_size
  emit_all identity_expiring ids
  λ db. ok (ids, db)

-- Expire: the identities that were expired
unfoldable pub expire_tx : Options → ℕ → Tx (List ℕ)
unfolding expire_due_identities emit_all
expire_tx opts now = do
  ids ← expire_due_identities now opts.batch_size
  emit_all identity_expired ids
  λ db. ok (ids, db)

unfoldable pub release_all : List ℕ → Tx (Unit {0})
unfolding release_blob
release_all [] db = ok (tt, db)
release_all (id ∷ ids) db = (release_blob id >>= λ left. release_all ids) db

abbrev pub purged_event : ℕ → Bool → Tx Bool
purged_event id moved =
    if moved
    then (append_event (some id) identity_purged >>= λ seq db. ok (true, db))
    else (λ db. ok (false, db))

-- The transaction of `purgeOne`: the blobs that it released, and whether the identity was purged
unfoldable pub purge_tx : Options → ℕ → ℕ → Tx (List ℕ × Bool)
unfolding identity_blobs delete_identity_deliveries release_all destroy_data_key
purge_tx opts now id db =
    let blob_ids = identity_blobs id db in
    let body : Tx (List ℕ × Bool) = do
      delete_identity_deliveries id
      release_all blob_ids
      moved ← destroy_data_key id (now + opts.reserve_period) now
      purged ← purged_event id moved
      λ db'. ok ((blob_ids, purged), db')
    in body db

-- The tables, and the addresses whose bytes the blob store holds.
pub record World : Type 0 where
  pub db : Db
  pub files : List Bytes

abbrev pub delete_file : Option Bytes → List Bytes → List Bytes
delete_file none files = files
delete_file (some sha) files = keep (λ f. not (eq_bytes f sha)) files

abbrev pub claimed : Result StoreError (Option Bytes) × Db → List Bytes → World
claimed (err e, db) files = record { db = db; files = files }
claimed (ok sha, db) files = record { db = db; files = delete_file sha files }

-- One blob of `collectBlobs`
unfoldable pub collect_blob : ℕ → World → World
unfolding claim_orphan_blob in_tx
collect_blob id w = claimed (in_tx (claim_orphan_blob id) w.db) w.files

-- collectBlobs, with the identifiers that it has seen
unfoldable pub collect_blobs : List ℕ → List ℕ → World → World
unfolding collect_blob
collect_blobs seen [] w = w
collect_blobs seen (id ∷ ids) w =
    let skip = collect_blobs seen ids w in
    let go = collect_blobs (id ∷ seen) ids (collect_blob id w) in
    if any (λ i. i == id) seen then skip else go

abbrev pub after_purge : List Bytes → Result StoreError (List ℕ × Bool) × Db → World × ℕ
after_purge files (err e, db) = (record { db = db; files = files }, 0)
after_purge files (ok (ids, false), db) = (record { db = db; files = files }, 0)
after_purge files (ok (ids, true), db) =
    (collect_blobs [] ids (record { db = db; files = files }), 1)

-- purgeOne: an error is counted as nothing purged, as `Purge` takes it
unfoldable pub purge_one : Options → ℕ → ℕ → World → World × ℕ
unfolding purge_tx collect_blobs in_tx
purge_one opts now id w = after_purge w.files (in_tx (purge_tx opts now id) w.db)

unfoldable pub purge_each : Options → ℕ → List ℕ → World → World × ℕ
unfolding purge_one
purge_each opts now [] w = (w, 0)
purge_each opts now (id ∷ ids) w =
    let (w', n) = purge_one opts now id w in
    let (w'', m) = purge_each opts now ids w' in (w'', n + m)

-- Purge: how many identities were purged
unfoldable pub purge : Options → ℕ → World → World × ℕ
unfolding purge_each purgeable_identities
purge opts now w =
    purge_each opts now (purgeable_identities (now - opts.purge_grace) opts.batch_size w.db) w

-- The window of a named inbox in `sweepOne`
unfoldable pub retention_of : Options → Identity → ℕ
retention_of opts i = elim i.retention_hours [
  | none ↦ opts.named_retention
  | some hours ↦ if ltb 0 hours then hours * hour else opts.named_retention
]

-- The blobs that a sweep has released, and how many messages it has removed.
abbrev pub Swept : Type 0
Swept = List ℕ × ℕ

abbrev pub record_expired : ℕ → List ℕ → Tx (Unit {0})
record_expired identity_id ids = do
  release_all ids
  append_event (some identity_id) message_expired
  λ db. ok (tt, db)

abbrev pub sweep_found : ℕ → List ℕ → Bool → Swept → Tx Swept
sweep_found identity_id ids deleted (blob_ids, removed) =
    if deleted
    then (record_expired identity_id ids >>= λ _ db. ok ((blob_ids ++ ids, removed + 1), db))
    else (λ db. ok ((blob_ids, removed), db))

-- The loop over the messages in `sweepOne`; one that is gone is skipped
unfoldable pub sweep_deliveries : ℕ → List Delivery → Swept → Tx Swept
unfolding delivery_blobs delete_delivery release_all append_event
sweep_deliveries identity_id [] swept db = ok (swept, db)
sweep_deliveries identity_id (d ∷ ds) swept db =
    let ids = delivery_blobs d.id db in
    (delete_delivery d.id >>= λ deleted.
    sweep_found identity_id ids deleted swept >>= λ swept'. sweep_deliveries identity_id ds swept')
      db

abbrev pub sum_sizes : List Delivery → ℕ
sum_sizes [] = 0
sum_sizes (d ∷ ds) = d.size_bytes + sum_sizes ds

abbrev pub give_back : ℕ → ℕ → Identity → Identity
give_back removed freed i = record i {
  used_messages = i.used_messages - removed;
  used_bytes = i.used_bytes - freed;
}

-- What `sweepOne` gives back of the identity's usage: the sizes of the first messages of the list, as
-- many as it removed
unfoldable pub settle : ℕ → List Delivery → ℕ → Db → Db
settle identity_id expired removed db =
    if ltb 0 removed
    then record db {
      identities =
          update_where (has_id identity_id) (give_back removed (sum_sizes (take removed expired)))
            db.identities;
    }
    else db

-- The transaction of `sweepOne`, on the messages that were found before it
unfoldable pub sweep_tx : ℕ → List Delivery → Tx Swept
unfolding sweep_deliveries settle
sweep_tx identity_id expired = do
  (blob_ids, removed) ← sweep_deliveries identity_id expired ([], 0)
  λ db. ok ((blob_ids, removed), settle identity_id expired removed db)

abbrev pub after_sweep : List Bytes → Result StoreError Swept × Db → World × ℕ
after_sweep files (err e, db) = (record { db = db; files = files }, 0)
after_sweep files (ok (ids, removed), db) =
    (collect_blobs [] ids (record { db = db; files = files }), removed)

-- sweepOne: an error is counted as nothing removed, as `Sweep` takes it
unfoldable pub sweep_one : Options → ℕ → Identity → World → World × ℕ
unfolding expired_deliveries retention_of sweep_tx collect_blobs in_tx
sweep_one opts now i w =
    let expired =
      take default_retention_max
        (expired_deliveries i.id (now - retention_of opts i) i.quota_messages w.db) in
    if is_empty expired then (w, 0) else after_sweep w.files (in_tx (sweep_tx i.id expired) w.db)

unfoldable pub sweep_each : Options → ℕ → List Identity → World → World × ℕ
unfolding sweep_one
sweep_each opts now [] w = (w, 0)
sweep_each opts now (i ∷ is) w =
    let (w', n) = sweep_one opts now i w in let (w'', m) = sweep_each opts now is w' in (w'', n + m)

-- Sweep: how many messages were removed
unfoldable pub sweep : Options → ℕ → World → World × ℕ
unfolding sweep_each swept_named_identities
sweep opts now w = sweep_each opts now (swept_named_identities default_named_batch w.db) w

-- Release: it counts, and deletes nothing
unfoldable pub release : ℕ → World → World × ℕ
unfolding count_reserved_identities
release now w = (w, count_reserved_identities now w.db)

-- CollectOrphans
unfoldable pub collect_orphans : World → World × ℕ
unfolding orphaned_blobs collect_blobs
collect_orphans w =
    let ids = map (λ b. b.id) (orphaned_blobs default_blob_batch w.db) in
    (collect_blobs [] ids w, length ids)
