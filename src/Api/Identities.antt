-- ===== src/Api/Identities.antt =====
-- internal/api/identities.go, session.go and meta.go: private addresses and the domains on offer.
pub mod Owned
use phenk.Prelude.{
  ℕ, Bool, true, false, not, Option, none, some, List, [], ◌∷◌, ◌++◌, map, if◌then◌else◌, is_empty,
  Bytes, codes,
}
use phenk.Prelude.Result.{Result, ok, err}
use phenk.Prelude.Run.{◌>>=◌, done, refuse_unless}
use phenk.Core.Domain.{Domain, Pool, random, public}
use phenk.Core.Identity.{
  Identity, Kind, random_kind, is_named, IdentityState, active, expiring, expired,
}
use phenk.Core.Message.{identity_expired}
use phenk.Store.Tables.{Db, Tx, in_tx, get_or}
use phenk.Store.Domains.{domain_by_id, allocatable_domains}
use phenk.Store.Identities.{identity_by_id, set_identity_state}
use phenk.Store.Events.{append_event}
use phenk.Alloc.{AllocError, Allocated, Draw, no_domains, allocate_random}
use phenk.Api.{
  Refusal, nothing_found, internal, unavailable, feature_disabled, Server, Handler, query,
  always_internal, missing_is_not_found, session, seconds_as_duration,
}
use phenk.Api.Messages.{owns}

pub record IdentityReply : Type 0 where
  pub id : ℕ
  pub address : Bytes
  pub local_part : Bytes
  pub domain : Bytes
  pub kind : Kind
  pub state : IdentityState
  pub cursor : ℕ
  pub public : Bool
  pub created_at : ℕ
  pub quota_messages : ℕ
  pub quota_bytes : ℕ
  pub used_messages : ℕ
  pub used_bytes : ℕ
  pub expires_at : Option ℕ
  pub retention_hours : Option ℕ

-- identityResponse
unfoldable pub identity_response : Identity → Bytes → IdentityReply
identity_response i domain_name = record {
  id = i.id;
  address = i.local_part ++ (codes "@" ++ domain_name);
  local_part = i.local_part;
  domain = domain_name;
  kind = i.kind;
  state = i.state;
  cursor = i.delivery_seq;
  public = is_named i.kind;
  created_at = i.created_at;
  quota_messages = i.quota_messages;
  quota_bytes = i.quota_bytes;
  used_messages = i.used_messages;
  used_bytes = i.used_bytes;
  expires_at = i.expires_at;
  retention_hours = i.retention_hours;
}

-- ensureSession: the caller's session, or the one that is drawn for it
unfoldable pub ensure_session : Option Bytes → Bytes → Bytes
unfolding session
ensure_session cookie drawn = if is_empty (session cookie) then drawn else session cookie

-- ownedIdentity
unfoldable pub owned_identity : Option Bytes → ℕ → Handler (Identity × Domain)
unfolding session
owned_identity cookie id = do
  i ← query missing_is_not_found (identity_by_id id)
  _ ← refuse_unless (not (is_named i.kind)) nothing_found
  _ ← refuse_unless (owns (session cookie) i) nothing_found
  d ← query always_internal (domain_by_id i.domain_id)
  done (i, d)

-- GetIdentity
unfoldable pub get_identity : Option Bytes → ℕ → Handler IdentityReply
unfolding owned_identity identity_response
get_identity cookie id = owned_identity cookie id >>= λ o. done (identity_response o.0 o.1.name)

abbrev pub record_destroyed : ℕ → Bool → Handler (Unit {0})
record_destroyed id false = done tt
record_destroyed id true =
    query always_internal (append_event (some id) identity_expired) >>= λ seq. done tt

-- DestroyIdentity: the state is moved by one statement and the event appended by another
unfoldable pub destroy_identity : Option Bytes → ℕ → Handler (Unit {0})
unfolding owned_identity set_identity_state append_event
destroy_identity cookie id = do
  o ← owned_identity cookie id
  moved ← query always_internal (set_identity_state o.0.id expired (active ∷ expiring ∷ []))
  record_destroyed o.0.id moved

abbrev pub of_allocation : AllocError → Refusal
of_allocation no_domains = unavailable
of_allocation e = internal

abbrev pub allocated_reply :
    Server → Result AllocError Allocated × Db → Result Refusal IdentityReply × Server
allocated_reply s (err e, db) = (err (of_allocation e), record s { db = db })
allocated_reply s (ok a, db) =
    (ok (identity_response a.identity a.domain.name), record s { db = db })

-- The lifetime that is asked for, or the server's.
abbrev pub ttl_of : ℕ → Option ℕ → ℕ
ttl_of default none = default
ttl_of default (some n) = seconds_as_duration n

-- CreateIdentity for a private address; `session_drawn` are the characters drawn for a new session
unfoldable pub create_random : Option Bytes → Bytes → (ℕ → Draw) → Option ℕ → Handler IdentityReply
unfolding ensure_session allocate_random identity_response
create_random cookie session_drawn draws ttl_seconds s =
    if not s.config.disposable
    then (err feature_disabled, s)
    else allocated_reply s (
        allocate_random s.allocator draws (ensure_session cookie session_drawn)
          (ttl_of s.config.default_ttl ttl_seconds) s.db)

-- offeredDomains
abbrev pub offered_pools : Bool → List Pool
offered_pools true = random ∷ public ∷ []
offered_pools false = public ∷ []

abbrev pub offered_in : List Pool → Db → List (Bytes × Pool)
offered_in [] db = []
offered_in (p ∷ ps) db =
    map (λ (d : Domain). (d.name, d.pool)) (allocatable_domains p db) ++ offered_in ps db

unfoldable pub offered_domains : Server → List (Bytes × Pool)
offered_domains s = offered_in (offered_pools s.config.disposable) s.db
