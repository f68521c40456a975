-- ===== src/Examples/History.antt =====
-- The theorems on the history of the rows at a concrete history.
use phenk.Prelude.{ℕ, ◌≡◌, refl, Option, none, some, List, [], ◌∷◌, length, Bytes, codes, eq_bytes}
use phenk.Core.Identity.{Identity, random_kind, reserved, active}
use phenk.Store.Tables.{TxOf, empty_db}
use phenk.Store.Rows.{IsKeyed, HasAged}
use phenk.Store.Rows.Statements.{pure-Ages}
use phenk.Smtpd.Receiver.{ReceiveError, BlobStore}
use phenk.Worker.Lifecycle.{Options, World}
use phenk.History.{Action, expires, purges, notices, collects, perform_all}
use phenk.History.Tombstones.{row_of, rows_evolve, tombstones_stay}

abbrev blank_identity : ℕ → Bytes → Identity
blank_identity id local = record {
  id = id;
  local_part = local;
  domain_id = 1;
  kind = random_kind;
  state = active;
  owner_session = [];
  wrapped_data_key = 1 ∷ [];
  retention_hours = none;
  delivery_seq = 0;
  quota_messages = 10;
  quota_bytes = 10;
  used_messages = 0;
  used_bytes = 0;
  created_at = 0;
  expires_at = some 5;
  purged_at = none;
  reserved_until = none;
}

abbrev buried : Identity
buried = record (blank_identity 1 (codes "old")) {
  state = reserved;
  wrapped_data_key = [];
  purged_at = some 4;
}

abbrev a_world : World
a_world = record {
  db = record empty_db { identities = buried ∷ blank_identity 2 (codes "new") ∷ [] };
  files = [];
}

abbrev some_options : Options
some_options = record {
  purge_grace = 1;
  reserve_period = 1;
  expiring_notice = 1;
  named_retention = 1;
  batch_size = 5;
}

abbrev some_actions : List Action
some_actions =
    notices some_options 5 ∷ expires some_options 9 ∷ purges some_options 20 ∷ collects ∷ []

abbrev hash_length : Bytes → ℕ
hash_length s = length s

abbrev no_blobs : BlobStore
no_blobs = record { put = λ s. none; locate = λ sha. sha }

abbrev no_hook : Option (ℕ → TxOf ReceiveError (Unit {0}))
no_hook = none

a_world-IsKeyed : IsKeyed a_world.db.identities
unfolding eq_bytes
a_world-IsKeyed = (refl, (refl, tt))

rows_evolve_example :
    HasAged a_world.db.identities
      (perform_all hash_length no_blobs no_hook some_actions a_world).db.identities
    × IsKeyed (perform_all hash_length no_blobs no_hook some_actions a_world).db.identities
rows_evolve_example =
    rows_evolve hash_length no_blobs no_hook (λ id. pure-Ages tt) some_actions a_world
      a_world-IsKeyed

tombstones_stay_example :
    (y : Identity) × (row_of
        (codes "old")
        1
        (perform_all hash_length no_blobs no_hook some_actions a_world)
      ≡ some y)
    × (y.id ≡ 1)
    × (y.state ≡ reserved)
    × (y.wrapped_data_key ≡ [])
unfolding eq_bytes
tombstones_stay_example =
    tombstones_stay hash_length no_blobs no_hook (λ id. pure-Ages tt) some_actions a_world
      (codes "old") 1 buried a_world-IsKeyed refl refl refl
