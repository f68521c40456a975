-- ===== src/Smtpd/Receiver.antt =====
-- internal/smtpd/receiver.go: `storeReceiver`, which decides who may receive mail and commits it. The
-- blob store and the hook that schedules follow-up work are parameters, as they are in the source.
pub mod Evolution
pub mod Atomic
use phenk.Prelude.{
  ℕ, ◌+◌, Bool, true, false, not, Option, none, some, List, [], ◌∷◌, ◌++◌, if◌then◌else◌, is_empty,
  Bytes,
}
use phenk.Prelude.Result.{Result, ok, err}
use phenk.Prelude.Keys.{bytes_key}
use phenk.Crypto.Aead.{Aead}
use phenk.Core.Address.{AddressError, local_part_syntax, local_part_reserved, local_part_blocked}
use phenk.Core.Domain.{Domain, is_public, is_retired}
use phenk.Core.Identity.{Identity, accepts_mail, quota_exceeded}
use phenk.Core.Message.{Delivery, received, message_received}
use phenk.Crypto.Keys.{CryptoError, DataKey}
use phenk.Crypto.Keyring.{Keyring, seal_for}
use phenk.Crypto.Stream.{Source, Outcome, seal_stream}
use phenk.Store.Tables.{Db, Tx, TxOf, StoreError, not_found, in_tx, lift, ◌>>=◌, ◌>>◌}
use phenk.Store.Domains.{domain_by_name}
use phenk.Store.Identities.{identity_by_address, identity_for_update}
use phenk.Store.Deliveries.{reserve_delivery_slot, insert_delivery}
use phenk.Store.Blobs.{acquire_blob}
use phenk.Store.Events.{append_event}
use phenk.Alloc.{AllocError, Allocator, Allocated, Draw, refused, validate_named, provision_named}
use phenk.Smtpd.Cache.{TtlCache, new_ttl_cache, get, put, forget}

-- The first three are the errors that a session tells apart.
pub data ReceiveError : Type 0 where
  unknown_recipient relay_denied mailbox_full : ReceiveError
  no_recipients no_identity no_keyring storing_failed : ReceiveError
  of_store : StoreError → ReceiveError
  of_alloc : AllocError → ReceiveError
  of_crypto : CryptoError → ReceiveError

-- `identity` is `none` when the address is to be provisioned at commit time.
pub record Recipient : Type 0 where
  pub local_part : Bytes
  pub domain : Domain
  pub identity : Option Identity
  pub provision : Bool

abbrev pub address_of : Bytes → Domain → Bytes
address_of local domain = local ++ b'@' ∷ domain.name

-- Recipient.Address
unfoldable pub address : Recipient → Bytes
address r = address_of r.local_part r.domain

pub record Message : Type 0 where
  pub envelope_from : Bytes
  pub client_ip : ℕ
  pub helo : Bytes
  pub tls : Bool
  pub body : Source
  pub recipients : List Recipient

-- blob.Store: the address and the stored size of what is put, and the path of an address
pub record BlobStore : Type 0 where
  pub put : Bytes → Option (Bytes × ℕ)
  pub locate : Bytes → Bytes

pub record StoreReceiver : Type 0 where
  pub allocator : Allocator
  pub keyring : Option Keyring
  pub domains : TtlCache Bytes Domain
  pub identities : TtlCache Bytes Identity

-- newStoreReceiver
unfoldable pub new_store_receiver : Allocator → Option Keyring → ℕ → StoreReceiver
unfolding new_ttl_cache
new_store_receiver allocator keyring cache_ttl = record {
  allocator = allocator;
  keyring = keyring;
  domains = new_ttl_cache 256 cache_ttl;
  identities = new_ttl_cache 4096 cache_ttl;
}

abbrev pub keep_domain :
    StoreReceiver
    → Bytes
    → ℕ
    → Result StoreError (Domain × Db)
    → StoreReceiver × Result ReceiveError Domain
keep_domain r name now (err not_found) = (r, err relay_denied)
keep_domain r name now (err e) = (r, err (of_store e))
keep_domain r name now (ok (d, db)) =
    if is_retired d.state
    then (r, err relay_denied)
    else (record r { domains = put r.domains name d now }, ok d)

unfoldable pub resolve_domain :
    StoreReceiver → Bytes → ℕ → Db → StoreReceiver × Result ReceiveError Domain
unfolding get put
resolve_domain r name now db =
    let (domains, cached) = get r.domains name now in
    let r' = record r { domains = domains } in
    elim cached [ some d ↦ (r', ok d) | none ↦ keep_domain r' name now (domain_by_name name db) ]

abbrev pub keep_identity :
    StoreReceiver
    → Bytes
    → ℕ
    → Result StoreError (Identity × Db)
    → StoreReceiver × Result ReceiveError (Option Identity)
keep_identity r key now (err not_found) = (r, ok none)
keep_identity r key now (err e) = (r, err (of_store e))
keep_identity r key now (ok (i, db)) =
    if accepts_mail i.state
    then (record r { identities = put r.identities key i now }, ok (some i))
    else (r, ok (some i))

-- resolveIdentity: `ok none` when the address does not exist
unfoldable pub resolve_identity :
    StoreReceiver → Bytes → Domain → ℕ → Db → StoreReceiver × Result ReceiveError (Option Identity)
unfolding get put accepts_mail
resolve_identity r local domain now db =
    let key = address_of local domain in
    let (identities, cached) = get r.identities key now in
    let r' = record r { identities = identities } in
    elim cached [
      | some i ↦ (r', ok (some i))
      | none ↦ keep_identity r' key now (identity_by_address local domain.id db)
    ]

abbrev pub of_validation : AllocError → ReceiveError
of_validation (refused local_part_syntax) = unknown_recipient
of_validation (refused local_part_reserved) = unknown_recipient
of_validation (refused local_part_blocked) = unknown_recipient
of_validation e = of_alloc e

-- What `Resolve` makes of a name that has no identity.
unfoldable pub resolve_unseen : Bytes → Domain → Db → Result ReceiveError Recipient
unfolding validate_named
resolve_unseen local domain db =
    if is_public domain.pool
    then elim (validate_named local db) [
      | err e ↦ err (of_validation e)
      | ok _ ↦
          ok (record { local_part = local; domain = domain; identity = none; provision = true })
    ]
    else err unknown_recipient

-- What `Resolve` makes of an identity.
unfoldable pub resolve_known : Bytes → Domain → Identity → Result ReceiveError Recipient
unfolding accepts_mail quota_exceeded
resolve_known local domain i =
    if not (accepts_mail i.state)
    then err unknown_recipient
    else if quota_exceeded i 0
    then err mailbox_full
    else ok (record { local_part = local; domain = domain; identity = some i; provision = false })

abbrev pub resolve_in :
    StoreReceiver → Bytes → Domain → ℕ → Db → StoreReceiver × Result ReceiveError Recipient
resolve_in r local domain now db =
    let (r', found) = resolve_identity r local domain now db in
    elim found [
      | err e ↦ (r', err e)
      | ok none ↦ (r', resolve_unseen local domain db)
      | ok (some i) ↦ (r', resolve_known local domain i)
    ]

-- Resolve
unfoldable pub resolve :
    StoreReceiver → Bytes → Bytes → ℕ → Db → StoreReceiver × Result ReceiveError Recipient
unfolding resolve_domain resolve_identity resolve_unseen resolve_known
resolve r local domain_name now db =
    let (r', found) = resolve_domain r domain_name now db in
    elim found [ err e ↦ (r', err e) | ok domain ↦ resolve_in r' local domain now db ]

-- What the delivery to one recipient draws: its identifiers and its random bytes.
pub record RecipientDraw : Type 0 where
  pub provision : Draw
  pub seal_nonce : Bytes
  pub blob_id : ℕ
  pub delivery_id : ℕ

-- What storeBody returns.
pub record StoredBody : Type 0 where
  pub sha256 : Bytes
  pub stored_size : ℕ
  pub plaintext_size : ℕ

abbrev pub of_result : {A : Type 0} → Result CryptoError A → TxOf ReceiveError A
of_result (err e) db = err (of_crypto e)
of_result (ok a) db = ok (a, db)

abbrev pub check : Bool → ReceiveError → TxOf ReceiveError (Unit {0})
check b e db = if b then ok (tt, db) else err e

module _ (blobs : BlobStore) (enqueue : Option (ℕ → TxOf ReceiveError (Unit {0}))) where
  -- storeBody: what the cipher writes goes to the blob store as it comes, and its error ends it
  unfoldable pub store_body : Aead → Bytes → Bytes → Source → Result ReceiveError StoredBody
  unfolding seal_stream
  store_body cipher content_key prefix body =
      let sealed = seal_stream cipher (record { raw = some content_key }) prefix body in
      elim sealed.error [
        | some e ↦ err storing_failed
        | none ↦ elim (blobs.put sealed.written) [
          | none ↦ err storing_failed
          | some (sha, size) ↦
              ok (record { sha256 = sha; stored_size = size; plaintext_size = sealed.total })
        ]
      ]

  abbrev pub the_identity : Option Identity → TxOf ReceiveError Identity
  the_identity none db = err no_identity
  the_identity (some i) db = ok (i, db)

  -- The identity of a recipient, which may have to be made.
  unfoldable pub identity_of : StoreReceiver → Draw → Recipient → TxOf ReceiveError Identity
  identity_of r draw rcpt =
      if rcpt.provision
      then (lift of_alloc (provision_named r.allocator draw rcpt.domain rcpt.local_part) >>= λ a db.
          ok (a.identity, db))
      else the_identity rcpt.identity

  -- wrapForIdentity
  unfoldable pub wrap_for_identity :
      StoreReceiver → Identity → Bytes → Bytes → Result ReceiveError Bytes
  unfolding seal_for
  wrap_for_identity r i nonce content_key = elim r.keyring [
    | none ↦ err no_keyring
    | some k ↦ elim (seal_for k i.id i.wrapped_data_key nonce content_key) [
      | err e ↦ err (of_crypto e)
      | ok w ↦ ok w
    ]
  ]

  abbrev pub wrapped_for : StoreReceiver → Identity → Bytes → Bytes → TxOf ReceiveError Bytes
  wrapped_for r i nonce content_key db = elim (wrap_for_identity r i nonce content_key) [
    | err e ↦ err e
    | ok w ↦ ok (w, db)
  ]

  abbrev pub schedule : ℕ → TxOf ReceiveError (Unit {0})
  schedule id = elim enqueue [ none ↦ λ db. ok (tt, db) | some f ↦ f id ]

  abbrev pub new_delivery : Message → StoredBody → ℕ → ℕ → ℕ → Bytes → ℕ → Delivery
  new_delivery msg body identity_id blob_id seq wrapped now = record {
    id = 0;
    identity_id = identity_id;
    seq = seq;
    blob_id = blob_id;
    envelope_from = msg.envelope_from;
    client_ip = msg.client_ip;
    helo = msg.helo;
    tls = msg.tls;
    size_bytes = body.plaintext_size;
    spf = none;
    dkim = none;
    dmarc = none;
    state = received;
    received_at = now;
    parsed_at = none;
    wrapped_content_key = wrapped;
  }

  -- What follows once the identity is locked.
  unfoldable pub deliver_to :
      StoreReceiver
      → Bytes
      → StoredBody
      → Message
      → RecipientDraw
      → ℕ
      → Identity
      → TxOf ReceiveError Identity
  unfolding wrap_for_identity
  deliver_to r content_key body msg draw now locked = do
    check (accepts_mail locked.state) unknown_recipient
    check (not (quota_exceeded locked body.plaintext_size)) mailbox_full
    wrapped ← wrapped_for r locked draw.seal_nonce content_key
    (blob_id, fresh) ←
        lift of_store
          (acquire_blob draw.blob_id body.sha256 body.stored_size (blobs.locate body.sha256) now)
    seq ← lift of_store (reserve_delivery_slot locked.id body.plaintext_size)
    id ←
        lift of_store (
          insert_delivery draw.delivery_id
            (new_delivery msg body locked.id blob_id seq wrapped now))
    lift of_store (append_event (some locked.id) message_received)
    schedule id
    λ db. ok (locked, db)

  -- One round of the loop of `Commit`
  unfoldable pub deliver :
      StoreReceiver
      → Bytes
      → StoredBody
      → Message
      → RecipientDraw
      → ℕ
      → Recipient
      → TxOf ReceiveError Recipient
  unfolding identity_of deliver_to
  deliver r content_key body msg draw now rcpt = do
    identity ← identity_of r draw.provision rcpt
    locked ← lift of_store (identity_for_update identity.id)
    deliver_to r content_key body msg draw now locked
    λ db. ok (record rcpt { identity = some locked }, db)

  unfoldable pub deliver_all :
      StoreReceiver
      → Bytes
      → StoredBody
      → Message
      → (ℕ → RecipientDraw)
      → ℕ
      → ℕ
      → List Recipient
      → TxOf ReceiveError (List Recipient)
  unfolding deliver
  deliver_all r content_key body msg draws now n [] db = ok ([], db)
  deliver_all r content_key body msg draws now n (rcpt ∷ rcpts) db =
      (deliver r content_key body msg (draws n) now rcpt >>= λ done.
      deliver_all r content_key body msg draws now (n + 1) rcpts >>= λ rest db'.
      ok (done ∷ rest, db'))
        db

  unfoldable pub forget_all : List Recipient → TtlCache Bytes Identity → TtlCache Bytes Identity
  unfolding forget address
  forget_all [] c = c
  forget_all (rcpt ∷ rcpts) c = forget_all rcpts (forget c (address rcpt))

  abbrev pub after_commit :
      StoreReceiver
      → Message
      → Result ReceiveError (List Recipient) × Db
      → StoreReceiver × Result ReceiveError (Unit {0}) × Db
  after_commit r msg (err e, db) = (r, err e, db)
  after_commit r msg (ok rcpts, db) =
      (record r { identities = forget_all msg.recipients r.identities }, ok tt, db)

  abbrev pub commit_stored :
      StoreReceiver
      → Bytes
      → (ℕ → RecipientDraw)
      → ℕ
      → Message
      → Db
      → Result ReceiveError StoredBody
      → StoreReceiver × Result ReceiveError (Unit {0}) × Db
  commit_stored r content_key draws now msg db (err e) = (r, err e, db)
  commit_stored r content_key draws now msg db (ok body) =
      after_commit r msg (in_tx (deliver_all r content_key body msg draws now 0 msg.recipients) db)

  -- Commit; the content key and the prefix of its stream are random
  unfoldable pub commit :
      StoreReceiver
      → Aead
      → Bytes
      → Bytes
      → (ℕ → RecipientDraw)
      → ℕ
      → Message
      → Db
      → StoreReceiver × Result ReceiveError (Unit {0}) × Db
  commit r cipher content_key prefix draws now msg db =
      if is_empty msg.recipients
      then (r, err no_recipients, db)
      else commit_stored r content_key draws now msg db
          (store_body cipher content_key prefix msg.body)
