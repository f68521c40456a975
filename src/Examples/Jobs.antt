-- ===== src/Examples/Jobs.antt =====
-- internal/worker/lifecycle/lifecycle.go: the theorem on purges at a concrete input.
use phenk.Prelude.{ℕ, ◌≡◌, refl, Bool, true, false, none, some, List, [], ◌∷◌, any, Bytes, codes}
use phenk.Prelude.Result.{Result, ok, err}
use phenk.Core.Identity.{Identity, IdentityState, random_kind}
use phenk.Core.Message.{Delivery, received, Blob}
use phenk.Store.Tables.{Db, StoreError, empty_db}
use phenk.Store.Deliveries.{of_identity}
use phenk.Store.Events.{append_event}
use phenk.Worker.Lifecycle.{Options, purge_tx}
use phenk.Worker.Lifecycle.Purging.{is_buried, purge_tx-buries}

abbrev a_lapsed_identity : ℕ → Bytes → Identity
a_lapsed_identity id local = record {
  id = id;
  local_part = local;
  domain_id = 1;
  kind = random_kind;
  state = IdentityState.expired;
  owner_session = [];
  wrapped_data_key = 1 ∷ [];
  retention_hours = none;
  delivery_seq = 0;
  quota_messages = 10;
  quota_bytes = 10;
  used_messages = 0;
  used_bytes = 0;
  created_at = 0;
  expires_at = some 5;
  purged_at = none;
  reserved_until = none;
}

abbrev a_delivery : Delivery
a_delivery = record {
  id = 3;
  identity_id = 2;
  seq = 1;
  blob_id = 4;
  envelope_from = [];
  client_ip = 0;
  helo = [];
  tls = false;
  size_bytes = 5;
  spf = none;
  dkim = none;
  dmarc = none;
  state = received;
  received_at = 1;
  parsed_at = none;
  wrapped_content_key = [];
}

abbrev a_blob : Blob
a_blob = record { id = 4; sha256 = []; size_bytes = 5; path = []; refcount = 1; created_at = 0 }

abbrev lapsed_db : Db
lapsed_db = record empty_db {
  identities = a_lapsed_identity 2 (codes "old") ∷ [];
  deliveries = a_delivery ∷ [];
  blobs = a_blob ∷ [];
}

abbrev some_options : Options
some_options = record {
  purge_grace = 1;
  reserve_period = 1;
  expiring_notice = 1;
  named_retention = 1;
  batch_size = 5;
}

abbrev db_of : Result StoreError ((List ℕ × Bool) × Db) → Db
db_of (ok s) = s.1
db_of (err e) = lapsed_db

purge_tx-buries_example :
    (any (of_identity 2) (db_of (purge_tx some_options 20 2 lapsed_db)).deliveries ≡ false)
    × (any (is_buried 2) (db_of (purge_tx some_options 20 2 lapsed_db)).identities ≡ true)
unfolding purge_tx append_event
purge_tx-buries_example =
    purge_tx-buries some_options 20 2 lapsed_db (db_of (purge_tx some_options 20 2 lapsed_db))
      (4 ∷ []) refl
