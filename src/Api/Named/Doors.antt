-- ===== src/Api/Named/Doors.antt =====
-- internal/api/named.go and identities.go: which inboxes are reached by which routes.
use phenk.Prelude.{
  ℕ, ◌≡◌, ◌≢◌, inl, inr, refl, ap, Bool, true, false, ◌&&◌, Option, some, [], if◌then◌else◌,
  Bool-cases, is_empty, Bytes,
}
use mathlib.Core.Path.{subst}
use phenk.Prelude.Result.{Result, ok, err}
use phenk.Prelude.Run.{done-ok, done, continue, ◌>>=◌}
use phenk.Core.Address.{AddressError, normalize_local_part, validate_named_local_part}
use phenk.Core.Domain.{Domain, is_public}
use phenk.Core.Identity.{Identity, Kind, named_kind, random_kind, is_named}
use phenk.Api.Messages.Access.{owns_iff}
use phenk.Store.Tables.{Db, StoreError, not_found, conflict, violation, invalid}
use phenk.Store.Domains.{domain_by_name}
use phenk.Store.Identities.{identity_by_address, named_identity_by_local_part}
use phenk.Alloc.{AllocError, Allocated, Draw, resolve_or_create_named}
use phenk.Smtpd.Limits.Tokens.{RateLimiter, allow}
use phenk.Api.{bad_request, Server}
use phenk.Api.Identities.{owned_identity}
use phenk.Api.Identities.Owned.{owned_identity-IsOwned}
use phenk.Api.Named.{
  Missing, unused, not_public, lookup_failed, if_named, lookup_on, without_domain, lookup_valid,
  lookup_named, split_named, found_or_refused, named_identity, open_named, open_missing,
  allow_named, kept_rate, opened, create_named, create_reply,
}

checked-ok :
    (b : Bool) (j i : Identity) (e : Missing)
    → (if b then ok j else err e) ≡ ok i
    → (b ≡ true) × (j ≡ i)
checked-ok true j i e h = (refl, cc)
checked-ok false j i e h = absurd cc

abbrev IsPublicInbox : Identity → Type 0
IsPublicInbox i = is_named i.kind ≡ true

if_named-ok :
    (r : Result StoreError (Identity × Db)) (i : Identity) → if_named r ≡ ok i → IsPublicInbox i
if_named-ok (err e) i h = absurd cc
if_named-ok (ok (j, db)) i h =
    let c = checked-ok (is_named j.kind) j i not_public h in subst IsPublicInbox c.1 c.0

lookup_on-ok :
    (local : Bytes) (db : Db) (r : Result StoreError (Domain × Db)) (i : Identity)
    → lookup_on local db r ≡ ok i
    → IsPublicInbox i
lookup_on-ok local db (err e) i h = absurd cc
lookup_on-ok local db (ok (d, db')) i h = elim (Bool-cases (is_public d.pool)) [
  | inl e ↦ if_named-ok (identity_by_address local d.id db) i (rw e at h)
  | inr e ↦
      let k : ◌≡◌ {A = Result Missing Identity} (err not_public) (ok i) = rw e at h in absurd cc
]

lookup_valid-ok :
    (local domain : Bytes) (db : Db) (r : Result AddressError (Unit {0})) (i : Identity)
    → lookup_valid local domain db r ≡ ok i
    → IsPublicInbox i
lookup_valid-ok local domain db (err e) i h = absurd cc
lookup_valid-ok local domain db (ok u) i h = elim (Bool-cases (is_empty domain)) [
  | inl e ↦ if_named-ok (without_domain (named_identity_by_local_part local db)) i (rw e at h)
  | inr e ↦ lookup_on-ok local db (domain_by_name domain db) i (rw e at h)
]

found-ok :
    (r : Result Missing Identity) (i : Identity) (s t : Server)
    → ((j : Identity) → r ≡ ok j → IsPublicInbox j)
    → found_or_refused r s ≡ (ok i, t)
    → IsPublicInbox i
found-ok (ok j) i s t k h = k i (ap ok (done-ok j i s t h))
found-ok (err unused) i s t k h = absurd cc
found-ok (err not_public) i s t k h = absurd cc
found-ok (err lookup_failed) i s t k h = absurd cc

-- What the public routes give out is a named inbox, whatever address they are asked for.
named_identity-IsPublicInbox :
    (address : Bytes) (s : Server) (i : Identity) (t : Server)
    → named_identity address s ≡ (ok i, t)
    → IsPublicInbox i
unfolding named_identity lookup_named
named_identity-IsPublicInbox address s i t h =
    found-ok (lookup_named address s.db) i s t
      (lookup_valid-ok (split_named address).0 (split_named address).1 s.db
        (validate_named_local_part (split_named address).0))
      h

kind_of_named : (k : Kind) → is_named k ≡ true → k ≡ named_kind
kind_of_named named_kind h = refl
kind_of_named random_kind h = absurd cc

kind_of_random : (k : Kind) → is_named k ≡ false → k ≡ random_kind
kind_of_random named_kind h = absurd cc
kind_of_random random_kind h = refl

-- What `namedIdentity` gives out, to any caller, is a named identity; what `ownedIdentity` gives out is
-- a random one that has an owner, and the caller has sent the owner's cookie. So neither gives out an
-- identity that the other does, of whichever states of the server.
pub named_identity-owned_identity_apart :
    (address : Bytes) (s : Server) (i : Identity) (t : Server) (cookie : Option Bytes) (id : ℕ)
    (s' : Server) (j : Identity) (d : Domain) (t' : Server)
    → named_identity address s ≡ (ok i, t)
    → owned_identity cookie id s' ≡ (ok (j, d), t')
    → (i.kind ≡ named_kind)
      × (j.kind ≡ random_kind)
      × (j.owner_session ≢ [])
      × (cookie ≡ some j.owner_session)
      × (i ≢ j)
named_identity-owned_identity_apart address s i t cookie id s' j d t' h g =
    let public = named_identity-IsPublicInbox address s i t h in
    let private = owned_identity-IsOwned cookie id s' j d t' g in
    let owner = (owns_iff cookie j).0 private.1 in
    (
      kind_of_named i.kind public,
      kind_of_random j.kind private.0,
      owner.0,
      owner.1,
      λ e. let p = subst IsPublicInbox e public in let q = private.0 in cc,
    )

-- Nobody has used the name yet.
abbrev pub is_unused : Result StoreError ((Identity × Domain) × Db) → Bool
is_unused (err not_found) = true
is_unused _ = false

module _ (fnv_hash : Bytes → ℕ) where
  -- What an opening leaves of the limiter and of the tables.
  abbrev Charges :
      Draw
      → Bytes
      → Result StoreError ((Identity × Domain) × Db)
      → RateLimiter × Bool
      → Server
      → Server
      → Type 0
  Charges draw local found rate s t =
      (t.named_rate ≡ (if is_unused found then rate.0 else s.named_rate))
      × (t.db ≡ (
          if is_unused found && rate.1
          then (resolve_or_create_named fnv_hash s.allocator draw local s.db).1
          else s.db))

  created-Charges :
      (status : ℕ) (draw : Draw) (local : Bytes) (s : Server) (l : RateLimiter)
      (r : Result AllocError Allocated × Db)
      → ((continue
            (λ a. done (create_reply fnv_hash status a))
            (opened bad_request (record s { named_rate = l }) r)).1.named_rate
          ≡ l)
        × ((continue
              (λ a. done (create_reply fnv_hash status a))
              (opened bad_request (record s { named_rate = l }) r)).1.db
            ≡ r.1)
  created-Charges status draw local s l (err e, db) = (refl, refl)
  created-Charges status draw local s l (ok a, db) = (refl, refl)

  allowed-Charges :
      (draw : Draw) (local : Bytes) (status : ℕ) (s : Server) (rate : RateLimiter × Bool)
      → Charges draw local
          (err not_found)
          rate
          s
          (continue
            (λ (u : Unit {0}). create_named fnv_hash bad_request draw local >>= λ a.
              done (create_reply fnv_hash status a))
            (kept_rate s rate)).1
  allowed-Charges draw local status s (l, false) = (refl, refl)
  allowed-Charges draw local status s (l, true) =
      created-Charges status draw local s l
        (resolve_or_create_named fnv_hash s.allocator draw local s.db)

  open_missing-Charges :
      (client_ip : Bytes) (now : ℕ) (draw : Draw) (local : Bytes) (status : ℕ) (s : Server)
      (found : Result StoreError ((Identity × Domain) × Db))
      → Charges draw local found
          (allow s.named_rate client_ip now)
          s
          (open_missing fnv_hash client_ip now draw local status found s).1
  unfolding allow_named
  open_missing-Charges client_ip now draw local status s (ok ((i, d), db)) = (refl, refl)
  open_missing-Charges client_ip now draw local status s (err not_found) =
      allowed-Charges draw local status s (allow s.named_rate client_ip now)
  open_missing-Charges client_ip now draw local status s (err conflict) = (refl, refl)
  open_missing-Charges client_ip now draw local status s (err violation) = (refl, refl)
  open_missing-Charges client_ip now draw local status s (err invalid) = (refl, refl)

  -- Opening an inbox by a valid name takes from the caller's budget exactly when nobody has used the
  -- name yet, and changes the tables only when the budget allows it, as the allocator does then: to
  -- open an inbox that exists costs nothing and changes nothing.
  pub open_named_charges :
      (client_ip : Bytes) (now : ℕ) (draw : Draw) (typed : Bytes) (status : ℕ) (s : Server)
      → validate_named_local_part (normalize_local_part typed) ≡ ok tt
      → ((open_named fnv_hash client_ip now draw typed status s).1.named_rate ≡ (
          if is_unused (named_identity_by_local_part (normalize_local_part typed) s.db)
          then (allow s.named_rate client_ip now).0
          else s.named_rate))
        × ((open_named fnv_hash client_ip now draw typed status s).1.db ≡ (
            if is_unused (named_identity_by_local_part (normalize_local_part typed) s.db)
              && (allow s.named_rate client_ip now).1
            then (resolve_or_create_named fnv_hash s.allocator draw
                (normalize_local_part typed)
                s.db).1
            else s.db))
  unfolding open_named
  open_named_charges client_ip now draw typed status s v = rw v (
      open_missing-Charges client_ip now draw (normalize_local_part typed) status s
        (named_identity_by_local_part (normalize_local_part typed) s.db))
