-- ===== src/Store/Blobs.antt =====
-- internal/store/pg/blobs.go
use phenk.Prelude.{
  ℕ, ◌+◌, ◌-◌, Bool, true, false, ◌&&◌, ◌||◌, Option, none, some, List, [], ◌∷◌, ◌++◌, ◌==◌,
  if◌then◌else◌, take, keep, find_first, any, Bytes, eq_bytes,
}
use phenk.Prelude.Result.{ok, err}
use phenk.Core.Message.{Blob, Delivery, Attachment}
use phenk.Store.Tables.{
  Db, Tx, conflict, violation, or_not_found, update_where, delete_where, order_by,
}

abbrev pub blob_is : ℕ → Blob → Bool
blob_is id b = b.id == id

abbrev pub holds : Bytes → Blob → Bool
holds sha b = eq_bytes b.sha256 sha

abbrev pub referenced_again : Blob → Blob
referenced_again b = record b { refcount = b.refcount + 1 }

abbrev pub released : Blob → Blob
released b = record b { refcount = b.refcount - 1 }

-- AcquireBlob; `fresh_id` is the identifier that `NewUUID` mints. The result is the row's identifier
-- and whether this call created it.
unfoldable pub acquire_blob : ℕ → Bytes → ℕ → Bytes → ℕ → Tx (ℕ × Bool)
acquire_blob fresh_id sha size path now db = elim (find_first (holds sha) db.blobs) [
  | some b ↦
      ok ((b.id, false), record db { blobs = update_where (holds sha) referenced_again db.blobs })
  | none ↦
      if any (blob_is fresh_id) db.blobs
      then err conflict
      else ok (
        (fresh_id, true),
        record db {
          blobs =
              db.blobs
              ++ record {
                id = fresh_id;
                sha256 = sha;
                size_bytes = size;
                path = path;
                refcount = 1;
                created_at = now;
              }
                ∷ [];
        },
      )
]

abbrev refcount_of : Option Blob → Option ℕ
refcount_of none = none
refcount_of (some b) = some b.refcount

-- ReleaseBlob: the count that is left
unfoldable pub release_blob : ℕ → Tx ℕ
release_blob id db =
    let less = update_where (blob_is id) released db.blobs in
    or_not_found (refcount_of (find_first (blob_is id) less)) (record db { blobs = less })

unfoldable pub blob_by_id : ℕ → Tx Blob
blob_by_id id db = or_not_found (find_first (blob_is id) db.blobs) db

-- OrphanedBlobs
unfoldable pub orphaned_blobs : ℕ → Db → List Blob
orphaned_blobs limit db =
    take limit (order_by (λ b. b.created_at) (keep (λ b. b.refcount == 0) db.blobs))

abbrev pub is_orphan : ℕ → Blob → Bool
is_orphan id b = blob_is id b && (b.refcount == 0)

-- The foreign keys of deliveries and attachments: a blob that one of them names cannot be deleted.
abbrev pub names_blob : ℕ → Option ℕ → Bool
names_blob id none = false
names_blob id (some b) = b == id

abbrev pub is_referred_to : ℕ → Db → Bool
is_referred_to id db =
    any (λ (d : Delivery). d.blob_id == id) db.deliveries
    || any (λ (a : Attachment). names_blob id a.blob_id) db.attachments

abbrev pub delete_orphan : {A : Type 0} → ℕ → A → Tx A
delete_orphan id a db =
    if is_referred_to id db
    then err violation
    else ok (a, record db { blobs = delete_where (is_orphan id) db.blobs })

-- DeleteBlobRow: whether a row was deleted
unfoldable pub delete_blob_row : ℕ → Tx Bool
delete_blob_row id db =
    if any (is_orphan id) db.blobs then delete_orphan id true db else ok (false, db)

-- ClaimOrphanBlob of lifecycle.go: the address of the bytes to remove, if the blob was an orphan
unfoldable pub claim_orphan_blob : ℕ → Tx (Option Bytes)
claim_orphan_blob id db = elim (find_first (is_orphan id) db.blobs) [
  | none ↦ ok (none, db)
  | some b ↦ delete_orphan id (some b.sha256) db
]
