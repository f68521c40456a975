-- ===== src/History.antt =====
-- The parts of the program that write to the database, in any order: the SMTP receiver's commits
-- (internal/smtpd), allocation (internal/alloc) and the lifecycle jobs (internal/worker/lifecycle).
-- Each action is one call, with what it draws; its transactions run one after the other.
pub mod Tombstones
use phenk.Prelude.{ℕ, Option, List, [], ◌∷◌, Bytes}
use phenk.Crypto.Aead.{Aead}
use phenk.Store.Tables.{Db, TxOf, in_tx}
use phenk.Alloc.{Allocator, Draw, allocate_random, resolve_or_create_named}
use phenk.Smtpd.Receiver.{ReceiveError, Message, BlobStore, StoreReceiver, RecipientDraw, commit}
use phenk.Worker.Lifecycle.{Options, World, notice_tx, expire_tx, purge, sweep, collect_orphans}

pub data Action : Type 0 where
  commits : StoreReceiver → Aead → Bytes → Bytes → (ℕ → RecipientDraw) → ℕ → Message → Action
  allocates : Allocator → (ℕ → Draw) → Bytes → ℕ → Action
  resolves : Allocator → Draw → Bytes → Action
  notices expires purges sweeps : Options → ℕ → Action
  collects : Action

abbrev with_db : World → Db → World
with_db w db = record w { db = db }

module _ (fnv_hash : Bytes → ℕ) (blobs : BlobStore)
    (enqueue : Option (ℕ → TxOf ReceiveError (Unit {0}))) where
  unfoldable pub perform : Action → World → World
  perform (commits r cipher key prefix draws now msg) w =
      with_db w (commit blobs enqueue r cipher key prefix draws now msg w.db).2
  perform (allocates a draws session ttl) w = with_db w (allocate_random a draws session ttl w.db).1
  perform (resolves a draw typed) w =
      with_db w (resolve_or_create_named fnv_hash a draw typed w.db).1
  perform (notices opts now) w = with_db w (in_tx (notice_tx opts now) w.db).1
  perform (expires opts now) w = with_db w (in_tx (expire_tx opts now) w.db).1
  perform (purges opts now) w = (purge opts now w).0
  perform (sweeps opts now) w = (sweep opts now w).0
  perform collects w = (collect_orphans w).0

  unfoldable pub perform_all : List Action → World → World
  unfolding perform
  perform_all [] w = w
  perform_all (x ∷ xs) w = perform_all xs (perform x w)
