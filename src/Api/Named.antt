-- ===== src/Api/Named.antt =====
-- internal/api/named.go and named_wait.go: the public inboxes.
pub mod Doors
use phenk.Prelude.{
  ℕ, Bool, true, false, not, Option, none, some, List, [], ◌==◌, if◌then◌else◌, is_empty,
  find_first, any, Bytes, eq_bytes,
}
use phenk.Prelude.Result.{Result, ok, err}
use phenk.Prelude.Run.{◌>>=◌, done, or_fail, of_result, refuse_unless}
use phenk.Prelude.Keys.{Key}
use phenk.Strings.Lower.{trim_space}
use phenk.Core.Address.{
  AddressError, split_address, normalize_local_part, validate_named_local_part,
}
use phenk.Core.Domain.{Domain, Pool, public, is_public}
use phenk.Core.Identity.{Identity, is_named}
use phenk.Store.Tables.{Db, Tx, StoreError, not_found, in_tx}
use phenk.Store.Domains.{domain_by_name, allocatable_domains}
use phenk.Store.Identities.{identity_by_address, named_identity_by_local_part}
use phenk.Store.Deliveries.{latest_delivery}
use phenk.Alloc.{
  AllocError, Allocated, Draw, refused, no_domains, provision_named, resolve_or_create_named,
}
use phenk.Smtpd.Limits.Tokens.{RateLimiter, allow}
use phenk.Api.{
  Refusal, nothing_found, bad_request, internal, rate_limited, unavailable, Server, Detector,
  Handler, query, always_internal, missing_is_not_found,
}
use phenk.Api.Messages.{Message, MessageSummary, write_message, message_page, since, limit}
use phenk.Api.Identities.{IdentityReply, identity_response}

-- A status of net/http.
abbrev pub status_ok : ℕ
status_ok = 200

abbrev pub status_created : ℕ
status_created = 201

abbrev pub has_at : Bytes → Bool
has_at = any (λ (c : ℕ). c == b'@')

abbrev pub parts_or_empty : Result AddressError (Bytes × Bytes) → Bytes × Bytes
parts_or_empty (err e) = ([], [])
parts_or_empty (ok parts) = parts

-- splitNamed
unfoldable pub split_named : Bytes → Bytes × Bytes
unfolding split_address normalize_local_part trim_space
split_named address =
    if has_at (trim_space address)
    then parts_or_empty (split_address (trim_space address))
    else (normalize_local_part (trim_space address), [])

-- What `lookupNamed` finds instead of an inbox: nothing yet, `errNotPublic`, or another error.
pub data Missing : Type 0 where
  unused not_public lookup_failed : Missing

abbrev pub missing_of : StoreError → Missing
missing_of not_found = unused
missing_of e = lookup_failed

abbrev pub if_named : Result StoreError (Identity × Db) → Result Missing Identity
if_named (err e) = err (missing_of e)
if_named (ok (i, db)) = if is_named i.kind then ok i else err not_public

abbrev pub lookup_on : Bytes → Db → Result StoreError (Domain × Db) → Result Missing Identity
lookup_on local db (err e) = err (missing_of e)
lookup_on local db (ok (d, db')) =
    if is_public d.pool then if_named (identity_by_address local d.id db) else err not_public

abbrev pub without_domain :
    Result StoreError ((Identity × Domain) × Db) → Result StoreError (Identity × Db)
without_domain (err e) = err e
without_domain (ok ((i, d), db)) = ok (i, db)

abbrev pub lookup_valid :
    Bytes → Bytes → Db → Result AddressError (Unit {0}) → Result Missing Identity
lookup_valid local domain db (err e) = err not_public
lookup_valid local domain db (ok u) =
    if is_empty domain
    then if_named (without_domain (named_identity_by_local_part local db))
    else lookup_on local db (domain_by_name domain db)

abbrev pub lookup_parts : Bytes → Bytes → Db → Result Missing Identity
lookup_parts local domain db = lookup_valid local domain db (validate_named_local_part local)

-- lookupNamed, which changes nothing
unfoldable pub lookup_named : Bytes → Db → Result Missing Identity
unfolding split_named validate_named_local_part named_identity_by_local_part identity_by_address
lookup_named address db = lookup_parts (split_named address).0 (split_named address).1 db

abbrev pub found_or_refused : Result Missing Identity → Handler Identity
found_or_refused (ok i) = done i
found_or_refused (err lookup_failed) = or_fail internal none
found_or_refused (err e) = or_fail nothing_found none

-- namedIdentity
unfoldable pub named_identity : Bytes → Handler Identity
unfolding lookup_named
named_identity address s = found_or_refused (lookup_named address s.db) s

-- ListNamedMessages
unfoldable pub list_named_messages :
    Detector → Bytes → Option ℕ → Option ℕ → Handler (List MessageSummary × ℕ)
unfolding named_identity message_page since limit
list_named_messages detector address since_param limit_param =
    named_identity address >>= λ i. message_page detector i (since since_param) (limit limit_param)

-- GetLatestNamedMessage
unfoldable pub get_latest_named_message : Detector → Bytes → Handler Message
unfolding named_identity write_message latest_delivery
get_latest_named_message detector address = do
  i ← named_identity address
  _ ← refuse_unless (not (is_empty i.wrapped_data_key)) nothing_found
  d ← query missing_is_not_found (latest_delivery i.id)
  write_message detector d i

-- namedRate.Allow, with the caller's address and the time
abbrev pub kept_rate : Server → RateLimiter × Bool → Result Refusal (Unit {0}) × Server
kept_rate s (l, true) = (ok tt, record s { named_rate = l })
kept_rate s (l, false) = (err rate_limited, record s { named_rate = l })

unfoldable pub allow_named : Bytes → ℕ → Handler (Unit {0})
unfolding allow
allow_named client_ip now s = kept_rate s (allow s.named_rate client_ip now)

-- What the two ways to open an inbox make of an error of the allocator.
abbrev pub of_opening : Refusal → AllocError → Refusal
of_opening bad_name (refused e) = elim e [
  | AddressError.local_part_syntax ↦ bad_name
  | AddressError.local_part_reserved ↦ bad_name
  | AddressError.local_part_blocked ↦ bad_name
  | AddressError.address_syntax ↦ internal
  | AddressError.kind_pool_mismatch ↦ internal
  | AddressError.not_eligible_for_auth ↦ internal
]
of_opening bad_name no_domains = unavailable
of_opening bad_name e = internal

abbrev pub opened :
    Refusal → Server → Result AllocError Allocated × Db → Result Refusal Allocated × Server
opened bad_name s (err e, db) = (err (of_opening bad_name e), record s { db = db })
opened bad_name s (ok a, db) = (ok a, record s { db = db })

module _ (fnv_hash : Bytes → ℕ) where
  abbrev pub create_named : Refusal → Draw → Bytes → Handler Allocated
  create_named bad_name draw local s =
      opened bad_name s (resolve_or_create_named fnv_hash s.allocator draw local s.db)

  abbrev pub create_reply : ℕ → Allocated → IdentityReply × ℕ
  create_reply created_status a =
      (identity_response a.identity a.domain.name, if a.created then created_status else status_ok)

  abbrev pub open_missing :
      Bytes
      → ℕ
      → Draw
      → Bytes
      → ℕ
      → Result StoreError ((Identity × Domain) × Db)
      → Handler (IdentityReply × ℕ)
  open_missing client_ip now draw local created_status (ok ((i, d), db)) =
      done (identity_response i d.name, status_ok)
  open_missing client_ip now draw local created_status (err not_found) =
      (allow_named client_ip now >>= λ _.
      (create_named bad_request draw local >>= λ a. done (create_reply created_status a)))
  open_missing client_ip now draw local created_status (err e) = or_fail internal none

  abbrev pub open_checked :
      Bytes → ℕ → Draw → Bytes → ℕ → Result AddressError (Unit {0}) → Handler (IdentityReply × ℕ)
  open_checked client_ip now draw local created_status (err e) s = (err bad_request, s)
  open_checked client_ip now draw local created_status (ok u) s =
      open_missing client_ip now draw local created_status (named_identity_by_local_part local s.db)
        s

  -- openNamed: the inbox and the status of the reply
  unfoldable pub open_named : Bytes → ℕ → Draw → Bytes → ℕ → Handler (IdentityReply × ℕ)
  unfolding normalize_local_part validate_named_local_part named_identity_by_local_part allow_named
  open_named client_ip now draw typed created_status =
      let local = normalize_local_part typed in
      open_checked client_ip now draw local created_status (validate_named_local_part local)

  -- allocatablePublicDomain
  abbrev pub allocatable_public_domain : Bytes → Db → Option Domain
  allocatable_public_domain name db =
      find_first (λ (d : Domain). eq_bytes d.name name) (allocatable_domains public db)

  abbrev pub provision_checked : Bytes → ℕ → Draw → Bytes → Option Domain → Handler Identity
  provision_checked client_ip now draw local none = or_fail nothing_found none
  provision_checked client_ip now draw local (some d) =
      (allow_named client_ip now >>= λ _.
      ((λ s. opened nothing_found s (in_tx (provision_named s.allocator draw d local) s.db))
        >>= λ a. done a.identity))

  abbrev pub open_unused : Bytes → ℕ → Draw → Bytes → Bytes → Handler Identity
  open_unused client_ip now draw local domain s =
      if is_empty domain
      then (allow_named client_ip now >>= λ _.
            (create_named nothing_found draw local >>= λ a. done a.identity))
          s
      else provision_checked client_ip now draw local (allocatable_public_domain domain s.db) s

  abbrev pub open_if_unused : Bytes → ℕ → Draw → Bytes → Result Missing Identity → Handler Identity
  open_if_unused client_ip now draw address (ok i) = done i
  open_if_unused client_ip now draw address (err unused) =
      open_unused client_ip now draw (split_named address).0 (split_named address).1
  open_if_unused client_ip now draw address (err not_public) = or_fail nothing_found none
  open_if_unused client_ip now draw address (err lookup_failed) = or_fail internal none

  -- namedIdentityOrOpen
  unfoldable pub named_identity_or_open : Bytes → ℕ → Draw → Bytes → Handler Identity
  unfolding lookup_named allow_named provision_named
  named_identity_or_open client_ip now draw address s =
      open_if_unused client_ip now draw address (lookup_named address s.db) s

  -- CreateIdentity for a named address
  unfoldable pub create_identity_named :
      Bytes → ℕ → Draw → Option Bytes → Handler (IdentityReply × ℕ)
  unfolding open_named
  create_identity_named client_ip now draw none = or_fail bad_request none
  create_identity_named client_ip now draw (some local) =
      if is_empty local
      then or_fail bad_request none
      else open_named client_ip now draw local status_created

  -- OpenNamedInbox
  unfoldable pub open_named_inbox : Bytes → ℕ → Draw → Bytes → Handler (IdentityReply × ℕ)
  unfolding open_named
  open_named_inbox client_ip now draw local = open_named client_ip now draw local status_ok
