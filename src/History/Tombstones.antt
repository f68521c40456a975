-- ===== src/History/Tombstones.antt =====
-- internal/store/pg/identities.go, internal/worker/lifecycle/lifecycle.go: addresses are never reused.
use phenk.Prelude.{
  ℕ, ◌≤◌, ◌≡◌, ◌⊎◌, inl, inr, refl, sym, ◌∙◌, ◌&&◌, Option, some, List, [], ◌∷◌, arith, ◌==◌,
  Bool-cases, find_first, Bytes, eq_bytes,
}
use mathlib.Core.Path.{subst, ap₂}
use phenk.Core.Identity.{Identity, IdentityState, active, expiring, expired, purged, reserved}
use phenk.Store.Tables.{TxOf, has_address}
use phenk.Store.Rows.{rank, Aged, HasAged, IsKeyed}
use phenk.Store.Rows.Statements.{Evolves, Evolves-refl, Evolves-trans, Ages, in_tx-Evolves}
use phenk.Alloc.Evolution.{allocate_random-Evolves, resolve_or_create_named-Evolves}
use phenk.Smtpd.Receiver.{ReceiveError, BlobStore, schedule}
use phenk.Smtpd.Receiver.Evolution.{commit-Evolves}
use phenk.Worker.Lifecycle.{World, notice_tx, expire_tx}
use phenk.Worker.Lifecycle.Evolution.{
  notice_tx-Ages, expire_tx-Ages, purge-Evolves, sweep-Evolves, collect_orphans-Evolves,
}
use phenk.History.{
  Action, commits, allocates, resolves, notices, expires, purges, sweeps, collects, perform,
  perform_all,
}

-- The row of an address, aged, is still the row of that address.
find_first-HasAged :
    (local : Bytes) (domain : ℕ) (xs ys : List Identity) (x : Identity)
    → HasAged xs ys
    → find_first (has_address local domain) xs ≡ some x
    → (y : Identity) × (find_first (has_address local domain) ys ≡ some y) × Aged x y
find_first-HasAged local domain [] ys x h e = absurd cc
find_first-HasAged local domain (z ∷ xs) [] x h e = absurd h
find_first-HasAged local domain (z ∷ xs) (t ∷ ys) x h e =
    let same : has_address local domain t ≡ has_address local domain z =
      ap₂ (λ l d. eq_bytes l local && (d == domain)) (sym h.0.same_local) (sym h.0.same_domain) in
    elim (Bool-cases (has_address local domain z)) [
      | inl here ↦
          let zx : z ≡ x = ground (arith, e) in
          (t, rw (same ∙ here) refl, subst (λ q. Aged q t) zx h.0)
      | inr behind ↦
          let ih = find_first-HasAged local domain xs ys x h.1 (ground (arith, e)) in
          let (y, found, aged) = ih in (y, rw (same ∙ behind) found, aged)
    ]

still_reserved : (s : IdentityState) → rank reserved ≤ rank s → s ≡ reserved
still_reserved active h = absurd (omega arith)
still_reserved expiring h = absurd (omega arith)
still_reserved expired h = absurd (omega arith)
still_reserved purged h = absurd (omega arith)
still_reserved reserved h = refl

no_key :
    (x y : Identity)
    → x.wrapped_data_key ≡ []
    → (y.wrapped_data_key ≡ x.wrapped_data_key) ⊎ (y.wrapped_data_key ≡ [])
    → y.wrapped_data_key ≡ []
no_key x y d (inl e) = e ∙ d
no_key x y d (inr e) = e

abbrev pub row_of : Bytes → ℕ → World → Option Identity
row_of local domain w = find_first (has_address local domain) w.db.identities

module _ (fnv_hash : Bytes → ℕ) (blobs : BlobStore)
    (enqueue : Option (ℕ → TxOf ReceiveError (Unit {0})))
    (schedule-Ages : (id : ℕ) → Ages (schedule blobs enqueue id)) where
  perform-Evolves : (x : Action) (w : World) → Evolves w.db (perform fnv_hash blobs enqueue x w).db
  unfolding perform
  perform-Evolves (commits r cipher key prefix draws now msg) w =
      commit-Evolves blobs enqueue schedule-Ages r cipher key prefix draws now msg w.db
  perform-Evolves (allocates a draws session ttl) w =
      allocate_random-Evolves a draws session ttl w.db
  perform-Evolves (resolves a draw typed) w =
      resolve_or_create_named-Evolves fnv_hash a draw typed w.db
  perform-Evolves (notices opts now) w =
      in_tx-Evolves (notice_tx opts now) w.db (notice_tx-Ages opts now)
  perform-Evolves (expires opts now) w =
      in_tx-Evolves (expire_tx opts now) w.db (expire_tx-Ages opts now)
  perform-Evolves (purges opts now) w = purge-Evolves opts now w
  perform-Evolves (sweeps opts now) w = sweep-Evolves opts now w
  perform-Evolves collects w = collect_orphans-Evolves w

  -- Whatever the program does, on a table whose identifiers and addresses are unique they stay
  -- unique, and every row stays: its identifier, address and kind are what they were, its state has
  -- only moved on, its sequence number has not gone back, and its key is the same or destroyed. The
  -- hook that schedules follow-up work is taken to do no more to the rows than that.
  pub rows_evolve :
      (actions : List Action) (w : World)
      → IsKeyed w.db.identities
      → HasAged w.db.identities (perform_all fnv_hash blobs enqueue actions w).db.identities
        × IsKeyed (perform_all fnv_hash blobs enqueue actions w).db.identities
  unfolding perform_all
  rows_evolve [] w k = Evolves-refl w.db k
  rows_evolve (x ∷ xs) w k =
      let w' = perform fnv_hash blobs enqueue x w in
      Evolves-trans w.db w'.db (perform_all fnv_hash blobs enqueue xs w').db (perform-Evolves x w)
        (λ k'. rows_evolve xs w' k') k

  -- An address that is reserved, its key destroyed, stays so, and stays the address of the same
  -- identity, whatever the program does: it is never given out again. The table's identifiers and
  -- addresses are unique at the start, and the hook only ages rows.
  pub tombstones_stay :
      (actions : List Action) (w : World) (local : Bytes) (domain : ℕ) (x : Identity)
      → IsKeyed w.db.identities
      → row_of local domain w ≡ some x
      → x.state ≡ reserved
      → x.wrapped_data_key ≡ []
      → (y : Identity) × (row_of local domain (perform_all fnv_hash blobs enqueue actions w)
          ≡ some y)
        × (y.id ≡ x.id)
        × (y.state ≡ reserved)
        × (y.wrapped_data_key ≡ [])
  tombstones_stay actions w local domain x k e s d =
      let (y, found, aged) =
        find_first-HasAged local domain w.db.identities
          (perform_all fnv_hash blobs enqueue actions w).db.identities x (rows_evolve actions w k).0
          e in
      (
        y,
        found,
        sym aged.same_id,
        still_reserved y.state (subst (λ t. rank t ≤ rank y.state) s aged.state_moves_on),
        no_key x y d aged.key_kept,
      )
