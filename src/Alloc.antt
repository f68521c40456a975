-- ===== src/Alloc.antt =====
-- internal/alloc/alloc.go: what an address looks like, on which domain it lands, and whether a name
-- may be provisioned. Random bytes and the readings of the clock are arguments; lengths of time are
-- numbers of nanoseconds, and one that is not positive is 0.
pub mod Generated
pub mod Evolution
use phenk.Prelude.{
  ℕ, zero, suc, ◌+◌, ◌*◌, ◌/◌, ◌%◌, ◌^◌, Bool, true, false, Option, none, some, [], map, ltb, leb,
  ◌==◌, if◌then◌else◌, length, is_empty, get_elem?, Bytes,
}
use phenk.Prelude.Result.{Result, ok, err}
use phenk.Core.Address.{
  AddressError, random_alphabet, normalize_local_part, validate_named_local_part,
  local_part_blocked, kind_pool_mismatch,
}
use phenk.Core.Domain.{Domain, Pool, is_public, random, public}
use phenk.Core.Identity.{
  Identity, random_kind, named_kind, active, default_random_quota_messages,
  default_random_quota_bytes, default_named_quota_messages, default_named_quota_bytes,
  default_named_retention_hours,
}
use phenk.Core.Message.{identity_created}
use phenk.Crypto.Keys.{CryptoError}
use phenk.Crypto.Keyring.{Keyring, KeyDraw, new_wrapped_key}
use phenk.Store.Tables.{Db, Tx, TxOf, StoreError, conflict, not_found, in_tx, lift, ◌>>=◌, ◌>>◌}
use phenk.Store.Domains.{allocatable_domains}
use phenk.Store.Identities.{
  create_identity, create_identity_if_absent, is_local_part_blocked, named_identity_by_local_part,
}
use phenk.Store.Events.{append_event}

pub data AllocError : Type 0 where
  no_domains exhausted : AllocError
  refused : AddressError → AllocError
  store_failed : StoreError → AllocError
  crypto_failed : CryptoError → AllocError

abbrev pub Alloc : Type 0 → Type 0
Alloc A = TxOf AllocError A

abbrev pub hour : ℕ
hour = 3600 * 10 ^ 9

abbrev pub allocation_attempts : ℕ
allocation_attempts = 5

pub record Options : Type 0 where
  pub default_ttl : ℕ
  pub max_ttl : ℕ
  pub named_retention : ℕ

pub record Allocator : Type 0 where
  pub keyring : Keyring
  pub default_ttl : ℕ
  pub max_ttl : ℕ
  pub named_hours : ℕ

abbrev or_default : ℕ → ℕ → ℕ
or_default d n = if n == 0 then d else n

-- New
unfoldable pub new_allocator : Keyring → Options → Allocator
new_allocator keyring opts = record {
  keyring = keyring;
  default_ttl = or_default hour opts.default_ttl;
  max_ttl = or_default (24 * hour) opts.max_ttl;
  named_hours = or_default (default_named_retention_hours * hour) opts.named_retention / hour;
}

pub record Allocated : Type 0 where
  pub identity : Identity
  pub domain : Domain
  pub created : Bool

-- What one attempt draws: an identifier, a key, the local part's bytes, and the number of `pickIndex`.
pub record Draw : Type 0 where
  pub id : ℕ
  pub key : KeyDraw
  pub local_bytes : Bytes
  pub pick : ℕ
  pub now : ℕ

abbrev pub letter_at : Option ℕ → ℕ
letter_at none = 0
letter_at (some c) = c

abbrev pub alphabet_letter : ℕ → ℕ
alphabet_letter b = letter_at (get_elem? random_alphabet (b % length random_alphabet))

-- GenerateLocalPart, from its random bytes
unfoldable pub generate_local_part : Bytes → Bytes
generate_local_part = map alphabet_letter

-- pickIndex, from eight random bytes as one number
unfoldable pub pick_index : ℕ → ℕ → ℕ
pick_index pick n = if leb n 1 then 0 else pick % n

abbrev pub domain_or_none : Option Domain → Alloc Domain
domain_or_none none db = err no_domains
domain_or_none (some d) db = ok (d, db)

-- SelectDomain; the index is within the list unless the list is empty
unfoldable pub select_domain : ℕ → Pool → Alloc Domain
unfolding pick_index
select_domain pick pool db =
    let domains = allocatable_domains pool db in
    domain_or_none (get_elem? domains (pick_index pick (length domains))) db

abbrev pub of_crypto : {A : Type 0} → Result CryptoError A → Alloc A
of_crypto (err e) db = err (crypto_failed e)
of_crypto (ok a) db = ok (a, db)

abbrev pub random_identity : Draw → Domain → Bytes → Bytes → ℕ → Identity
random_identity draw domain wrapped session ttl = record {
  id = draw.id;
  local_part = generate_local_part draw.local_bytes;
  domain_id = domain.id;
  kind = random_kind;
  state = active;
  owner_session = session;
  wrapped_data_key = wrapped;
  retention_hours = none;
  delivery_seq = 0;
  quota_messages = default_random_quota_messages;
  quota_bytes = default_random_quota_bytes;
  used_messages = 0;
  used_bytes = 0;
  created_at = draw.now;
  expires_at = some (draw.now + ttl);
  purged_at = none;
  reserved_until = none;
}

abbrev pub the_allocated : Identity → Domain → Bool → Allocated
the_allocated identity domain created = record {
  identity = identity;
  domain = domain;
  created = created;
}

-- The transaction of one attempt of `AllocateRandom`
unfoldable pub allocate_once : Allocator → Draw → Bytes → ℕ → Alloc Allocated
unfolding generate_local_part
allocate_once a draw session ttl = do
  domain ← select_domain draw.pick random
  wrapped ← of_crypto (new_wrapped_key a.keyring draw.key draw.id)
  let identity = random_identity draw domain wrapped session ttl
  lift store_failed (create_identity draw.id identity)
  lift store_failed (append_event (some draw.id) identity_created)
  λ db. ok (the_allocated identity domain true, db)

abbrev pub clamp_ttl : Allocator → ℕ → ℕ
clamp_ttl a ttl =
    let given = if ttl == 0 then a.default_ttl else ttl in
    if ltb a.max_ttl given then a.max_ttl else given

abbrev pub is_conflict : AllocError → Bool
is_conflict (store_failed conflict) = true
is_conflict _ = false

abbrev pub or_again :
    Result AllocError Allocated × Db
    → Result AllocError Allocated × Db
    → Result AllocError Allocated × Db
or_again again (ok allocated, db) = (ok allocated, db)
or_again again (err e, db) = if is_conflict e then again else (err e, db)

-- The attempts that are left, each with its draw; only a conflict is tried again.
unfoldable pub attempts :
    Allocator → (ℕ → Draw) → Bytes → ℕ → ℕ → Db → Result AllocError Allocated × Db
unfolding in_tx
attempts a draws session ttl zero db = (err exhausted, db)
attempts a draws session ttl (suc n) db =
    let again = attempts a draws session ttl n db in
    or_again again (in_tx (allocate_once a (draws n) session ttl) db)

-- AllocateRandom
unfoldable pub allocate_random :
    Allocator → (ℕ → Draw) → Bytes → ℕ → Db → Result AllocError Allocated × Db
unfolding attempts
allocate_random a draws session ttl db =
    attempts a draws session (clamp_ttl a ttl) allocation_attempts db

-- ValidateNamed
unfoldable pub validate_named : Bytes → Alloc (Unit {0})
validate_named local db = elim (validate_named_local_part local) [
  | err e ↦ err (refused e)
  | ok _ ↦ if is_local_part_blocked local db then err (refused local_part_blocked) else ok (tt, db)
]

abbrev pub named_identity : ℕ → Domain → Bytes → Bytes → ℕ → ℕ → Identity
named_identity id domain local wrapped hours now = record {
  id = id;
  local_part = local;
  domain_id = domain.id;
  kind = named_kind;
  state = active;
  owner_session = [];
  wrapped_data_key = wrapped;
  retention_hours = some hours;
  delivery_seq = 0;
  quota_messages = default_named_quota_messages;
  quota_bytes = default_named_quota_bytes;
  used_messages = 0;
  used_bytes = 0;
  created_at = now;
  expires_at = none;
  purged_at = none;
  reserved_until = none;
}

abbrev pub announce : Bool → Identity → Alloc (Unit {0})
announce false i db = ok (tt, db)
announce true i db =
    (lift store_failed (append_event (some i.id) identity_created) >>= λ seq db'. ok (tt, db')) db

-- `ProvisionNamed` on a domain of the public pool
abbrev pub provision_on : Allocator → Draw → Domain → Bytes → Alloc Allocated
provision_on a draw domain local = do
  validate_named local
  wrapped ← of_crypto (new_wrapped_key a.keyring draw.key draw.id)
  (stored, created) ← lift store_failed (
      create_identity_if_absent draw.id
        (named_identity draw.id domain local wrapped a.named_hours draw.now))
  announce created stored
  λ db. ok (the_allocated stored domain created, db)

-- ProvisionNamed
unfoldable pub provision_named : Allocator → Draw → Domain → Bytes → Alloc Allocated
provision_named a draw domain local =
    if is_public domain.pool
    then provision_on a draw domain local
    else (λ db. err (refused kind_pool_mismatch))

module _ (fnv_hash : Bytes → ℕ) where
  -- SelectNamedDomain, with the hash of hash/fnv
  unfoldable pub select_named_domain : Bytes → Alloc Domain
  select_named_domain local db =
      let domains = allocatable_domains public db in
      if is_empty domains
      then err no_domains
      else domain_or_none (get_elem? domains (fnv_hash local % length domains)) db

  abbrev pub or_create :
      Result AllocError (Allocated × Db)
      → Result StoreError ((Identity × Domain) × Db)
      → Result AllocError (Allocated × Db)
  or_create created (ok ((i, d), db)) = ok (the_allocated i d false, db)
  or_create created (err not_found) = created
  or_create created (err e) = err (store_failed e)

  -- The transaction of `ResolveOrCreateNamed`
  unfoldable pub resolve_or_create : Allocator → Draw → Bytes → Alloc Allocated
  resolve_or_create a draw local db =
      let create = select_named_domain local >>= λ d. provision_named a draw d local in
      or_create (create db) (named_identity_by_local_part local db)

  abbrev pub if_checked :
      Db
      → Result AllocError Allocated × Db
      → Result AddressError (Unit {0})
      → Result AllocError Allocated × Db
  if_checked db r (err e) = (err (refused e), db)
  if_checked db r (ok _) = r

  -- ResolveOrCreateNamed
  unfoldable pub resolve_or_create_named :
      Allocator → Draw → Bytes → Db → Result AllocError Allocated × Db
  resolve_or_create_named a draw typed db =
      let local = normalize_local_part typed in
      if_checked db (in_tx (resolve_or_create a draw local) db) (validate_named_local_part local)
