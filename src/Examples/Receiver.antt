-- ===== src/Examples/Receiver.antt =====
-- internal/smtpd/receiver.go: the theorems on commits at concrete inputs.
use phenk.Prelude.{
  ℕ, zero, suc, ◌≡◌, refl, false, find_first, Option, none, some, [], ◌∷◌, length, take, Bytes,
  codes, eq_bytes,
}
use phenk.Prelude.Result.{Result, ok, err}
use phenk.Core.Domain.{Domain, DomainState, public}
use phenk.Core.Identity.{Identity, IdentityState, named_kind, accepts_mail, quota_exceeded}
use phenk.Crypto.Aead.{toy, toy_open}
use phenk.Store.Blobs.{acquire_blob}
use phenk.Store.Deliveries.{reserve_delivery_slot, insert_delivery}
use phenk.Store.Events.{append_event}
use phenk.Crypto.Keys.{wrap}
use phenk.Crypto.Keyring.{Keyring, uuid_bytes}
use phenk.Store.Tables.{has_id, Db, TxOf, empty_db, in_tx, not_found}
use phenk.Store.Identities.{identity_for_update}
use phenk.Crypto.Stream.{seal_frames, read_chunk}
use phenk.Alloc.{new_allocator}
use phenk.Smtpd.Receiver.{
  Recipient, ReceiveError, of_store, StoreReceiver, new_store_receiver, BlobStore, Message,
  RecipientDraw, StoredBody, deliver_to, deliver, identity_of, deliver_all, store_body, commit,
}
use phenk.Smtpd.Receiver.Atomic.{commit_atomic, deliver_accepting, HasRoom}

abbrev zeros : ℕ → Bytes
zeros zero = []
zeros (suc n) = 0 ∷ zeros n

abbrev a_keyring : Keyring
a_keyring = record { cipher = toy; master = [] }

abbrev a_receiver : StoreReceiver
a_receiver =
    new_store_receiver
      (new_allocator a_keyring (record { default_ttl = 0; max_ttl = 0; named_retention = 0 }))
      (some a_keyring) 2

abbrev a_disk : BlobStore
a_disk = record { put = λ s. some (take 3 s, length s); locate = λ sha. sha }

abbrev no_hook : Option (ℕ → TxOf ReceiveError (Unit {0}))
no_hook = none

abbrev a_draw : RecipientDraw
a_draw = record {
  provision = record {
    id = 7;
    key = record { nonce = zeros 12; raw = zeros 32 };
    local_bytes = [];
    pick = 0;
    now = 3;
  };
  seal_nonce = zeros 12;
  blob_id = 8;
  delivery_id = 9;
}

abbrev a_domain : Domain
a_domain = record {
  id = 1;
  name = codes "phenk.io";
  state = DomainState.active;
  pool = public;
  created_at = 0;
  burned_at = none;
}

abbrev an_inbox : Identity
an_inbox = record {
  id = 1;
  local_part = codes "team";
  domain_id = 1;
  kind = named_kind;
  state = IdentityState.active;
  owner_session = [];
  wrapped_data_key = wrap toy [] (uuid_bytes 1) (zeros 12) (zeros 32);
  retention_hours = none;
  delivery_seq = 0;
  quota_messages = 2;
  quota_bytes = 100;
  used_messages = 0;
  used_bytes = 0;
  created_at = 0;
  expires_at = none;
  purged_at = none;
  reserved_until = none;
}

abbrev a_message : Message
a_message = record {
  envelope_from = [];
  client_ip = 1;
  helo = [];
  tls = false;
  body = record { bytes = 1 ∷ 2 ∷ []; fails = false };
  recipients =
      record {
        local_part = codes "team";
        domain = a_domain;
        identity = some an_inbox;
        provision = false;
      }
      ∷ [];
}

-- The inbox is gone by the time of the commit.
commit_atomic_example :
    let w =
      commit a_disk no_hook a_receiver toy
        (zeros 32)
        (zeros 4)
        (λ n. a_draw)
        3
        a_message
        empty_db in
    (w.2 ≡ empty_db) × (w.0 ≡ a_receiver)
unfolding commit store_body seal_frames read_chunk in_tx deliver_all identity_for_update
commit_atomic_example =
    commit_atomic a_disk no_hook a_receiver toy (zeros 32) (zeros 4) (λ n. a_draw) 3 a_message
      empty_db (of_store not_found) refl

abbrev inbox_db : Db
inbox_db = record empty_db { domains = a_domain ∷ []; identities = an_inbox ∷ [] }

abbrev a_body : StoredBody
a_body = record { sha256 = 1 ∷ []; stored_size = 40; plaintext_size = 2 }

-- What the cache has of the recipient's identity is out of date.
abbrev a_recipient : Recipient
a_recipient = record {
  local_part = [];
  domain = a_domain;
  identity = some (record an_inbox { state = IdentityState.expired });
  provision = false;
}

abbrev value_of : Result ReceiveError (Recipient × Db) → Recipient × Db
value_of (ok s) = s
value_of (err e) = (a_recipient, inbox_db)

deliver_accepting_example :
    (i : Identity) × (db₁ : Db) × (row : Identity) × (identity_of a_disk no_hook a_receiver
        a_draw.provision a_recipient inbox_db
      ≡ ok (i, db₁))
    × (find_first (has_id i.id) db₁.identities ≡ some row)
    × HasRoom a_body.plaintext_size row
    × ((value_of (
          deliver a_disk no_hook a_receiver
            (zeros 32)
            a_body
            a_message
            a_draw
            3
            a_recipient
            inbox_db)).0.identity
        ≡ some row)
unfolding deliver identity_of identity_for_update deliver_to accepts_mail quota_exceeded
    new_store_receiver wrap uuid_bytes toy_open eq_bytes acquire_blob reserve_delivery_slot
    insert_delivery append_event
deliver_accepting_example =
    deliver_accepting a_disk no_hook a_receiver (zeros 32) a_body a_message a_draw 3 a_recipient
      inbox_db
      (value_of (
        deliver a_disk no_hook a_receiver (zeros 32) a_body a_message a_draw 3 a_recipient
          inbox_db))
      refl
