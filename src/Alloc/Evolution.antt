-- ===== src/Alloc/Evolution.antt =====
-- internal/alloc/alloc.go: what allocation does to the rows of the identities table.
use phenk.Prelude.{
  ℕ, zero, suc, ◌≡◌, inl, inr, refl, ap, ◌∙◌, Bool, true, false, some, arith, Bool-cases, Bytes,
}
use phenk.Prelude.Result.{Result, ok, err}
use phenk.Core.Address.{AddressError, validate_named_local_part, normalize_local_part}
use phenk.Core.Domain.{Domain, Pool, random, is_public}
use phenk.Core.Identity.{Identity}
use phenk.Core.Message.{identity_created}
use phenk.Crypto.Keys.{CryptoError}
use phenk.Crypto.Keyring.{new_wrapped_key}
use phenk.Store.Tables.{Db, StoreError, in_tx, lift, ◌>>=◌, not_found, conflict, violation, invalid}
use phenk.Store.Identities.{
  create_identity, create_identity_if_absent, named_identity_by_local_part,
}
use phenk.Store.Events.{append_event}
use phenk.Store.Respect.{ok-state}
use phenk.Store.Rows.Statements.{
  Evolves, Evolves-refl, Ages, bind-Ages, pure-Ages, reads-Ages, lift-Ages, in_tx-Evolves,
  append_event-Ages, create_identity-Ages, create_identity_if_absent-Ages, untouched,
}
use phenk.Alloc.{
  or_again, or_create, if_checked, AllocError, Allocator, Draw, Allocated, store_failed,
  select_domain, of_crypto, random_identity, the_allocated, allocate_once, attempts, is_conflict,
  allocate_random, clamp_ttl, allocation_attempts, validate_named, announce, provision_named,
  named_identity, select_named_domain, resolve_or_create, resolve_or_create_named,
}

select_domain-Ages : (pick : ℕ) (pool : Pool) → Ages (select_domain pick pool)
unfolding select_domain
select_domain-Ages pick pool = reads-Ages (select_domain pick pool) (λ db s h. ground arith)

of_crypto-Ages : {A : Type 0} (r : Result CryptoError A) → Ages (of_crypto r)
of_crypto-Ages (err e) = reads-Ages (of_crypto (err e)) (λ db s h. absurd cc)
of_crypto-Ages (ok a) = pure-Ages a

allocate_once-Ages :
    (a : Allocator) (draw : Draw) (session : Bytes) (ttl : ℕ)
    → Ages (allocate_once a draw session ttl)
unfolding allocate_once
allocate_once-Ages a draw session ttl =
    bind-Ages (select_domain draw.pick random) _ (select_domain-Ages draw.pick random) (λ domain.
      bind-Ages (of_crypto (new_wrapped_key a.keyring draw.key draw.id)) _
        (of_crypto-Ages (new_wrapped_key a.keyring draw.key draw.id))
        (λ wrapped.
          let i = random_identity draw domain wrapped session ttl in
          bind-Ages (lift store_failed (create_identity draw.id i)) _
            (lift-Ages store_failed (create_identity draw.id i) (create_identity-Ages draw.id i))
            (λ _.
              bind-Ages (lift store_failed (append_event (some draw.id) identity_created)) _
                (lift-Ages store_failed (append_event (some draw.id) identity_created)
                  (append_event-Ages (some draw.id) identity_created))
                (λ _. pure-Ages (the_allocated i domain true)))))

attempted-Evolves :
    (a : Db) (again r : Result AllocError Allocated × Db)
    → Evolves a again.1
    → Evolves a r.1
    → Evolves a (or_again again r).1
attempted-Evolves a again (ok x, db) h g = g
attempted-Evolves a again (err e, db) h g = elim (Bool-cases (is_conflict e)) [
  | inl conflicts ↦ rw conflicts h
  | inr other ↦ rw other g
]

attempts-Evolves :
    (a : Allocator) (draws : ℕ → Draw) (session : Bytes) (ttl n : ℕ) (db : Db)
    → Evolves db (attempts a draws session ttl n db).1
unfolding attempts
attempts-Evolves a draws session ttl zero db = Evolves-refl db
attempts-Evolves a draws session ttl (suc n) db =
    attempted-Evolves db (attempts a draws session ttl n db)
      (in_tx (allocate_once a (draws n) session ttl) db) (attempts-Evolves a draws session ttl n db)
      (in_tx-Evolves (allocate_once a (draws n) session ttl) db
        (allocate_once-Ages a (draws n) session ttl))

pub allocate_random-Evolves :
    (a : Allocator) (draws : ℕ → Draw) (session : Bytes) (ttl : ℕ) (db : Db)
    → Evolves db (allocate_random a draws session ttl db).1
unfolding allocate_random
allocate_random-Evolves a draws session ttl db =
    attempts-Evolves a draws session (clamp_ttl a ttl) allocation_attempts db

validate_named-Ages : (local : Bytes) → Ages (validate_named local)
unfolding validate_named
validate_named-Ages local = reads-Ages (validate_named local) (λ db s h. ground arith)

announce-Ages : (created : Bool) (i : Identity) → Ages (announce created i)
announce-Ages false i = pure-Ages tt
announce-Ages true i =
    bind-Ages (lift store_failed (append_event (some i.id) identity_created)) _
      (lift-Ages store_failed (append_event (some i.id) identity_created)
        (append_event-Ages (some i.id) identity_created))
      (λ _. pure-Ages tt)

pub provision_named-Ages :
    (a : Allocator) (draw : Draw) (domain : Domain) (local : Bytes)
    → Ages (provision_named a draw domain local)
unfolding provision_named
provision_named-Ages a draw domain local = elim (Bool-cases (is_public domain.pool)) [
  | inr closed ↦ rw closed (λ db s h. absurd cc)
  | inl open_to_all ↦
      let new : Bytes → Identity =
        λ wrapped. named_identity draw.id domain local wrapped a.named_hours draw.now in
      rw open_to_all (
        bind-Ages (validate_named local) _ (validate_named-Ages local) (λ _.
          bind-Ages (of_crypto (new_wrapped_key a.keyring draw.key draw.id)) _
            (of_crypto-Ages (new_wrapped_key a.keyring draw.key draw.id))
            (λ wrapped.
              bind-Ages (lift store_failed (create_identity_if_absent draw.id (new wrapped))) _
                (lift-Ages store_failed (create_identity_if_absent draw.id (new wrapped))
                  (create_identity_if_absent-Ages draw.id (new wrapped)))
                (λ stored.
                  bind-Ages (announce stored.1 stored.0) _ (announce-Ages stored.1 stored.0)
                    (λ _. pure-Ages (the_allocated stored.0 domain stored.1))))))
]

module _ (fnv_hash : Bytes → ℕ) where
  select_named_domain-Ages : (local : Bytes) → Ages (select_named_domain fnv_hash local)
  unfolding select_named_domain
  select_named_domain-Ages local =
      reads-Ages (select_named_domain fnv_hash local) (λ db s h. ground arith)

  created-Ages :
      (a : Allocator) (draw : Draw) (local : Bytes)
      → Ages (select_named_domain fnv_hash local >>= λ d. provision_named a draw d local)
  created-Ages a draw local =
      bind-Ages (select_named_domain fnv_hash local) _ (select_named_domain-Ages local)
        (λ d. provision_named-Ages a draw d local)

  or_create-Evolves :
      (db : Db) (created : Result AllocError (Allocated × Db))
      (found : Result StoreError ((Identity × Domain) × Db)) (s : Allocated × Db)
      → (created ≡ ok s → Evolves db s.1)
      → ((x : (Identity × Domain) × Db) → found ≡ ok x → x.1 ≡ db)
      → or_create fnv_hash created found ≡ ok s
      → Evolves db s.1
  or_create-Evolves db created (ok ((i, d), db')) s h g e =
      untouched db s.1
        (ap (λ t. t.identities) (ok-state (the_allocated i d false) db' s e ∙ g ((i, d), db') refl))
  or_create-Evolves db created (err not_found) s h g e = h e
  or_create-Evolves db created (err conflict) s h g e = absurd cc
  or_create-Evolves db created (err violation) s h g e = absurd cc
  or_create-Evolves db created (err invalid) s h g e = absurd cc

  named_identity_by_local_part-reads :
      (local : Bytes) (db : Db) (x : (Identity × Domain) × Db)
      → named_identity_by_local_part local db ≡ ok x
      → x.1 ≡ db
  unfolding named_identity_by_local_part
  named_identity_by_local_part-reads local db x h = ground arith

  resolve_or_create-Ages :
      (a : Allocator) (draw : Draw) (local : Bytes) → Ages (resolve_or_create fnv_hash a draw local)
  unfolding resolve_or_create
  resolve_or_create-Ages a draw local db s e =
      or_create-Evolves db
        ((select_named_domain fnv_hash local >>= λ d. provision_named a draw d local) db)
        (named_identity_by_local_part local db) s (created-Ages a draw local db s)
        (named_identity_by_local_part-reads local db) e

  checked-Evolves :
      (db : Db) (x : Result AddressError (Unit {0})) (r : Result AllocError Allocated × Db)
      → Evolves db r.1
      → Evolves db (if_checked fnv_hash db r x).1
  checked-Evolves db (err e) r h = Evolves-refl db
  checked-Evolves db (ok _) r h = h

  pub resolve_or_create_named-Evolves :
      (a : Allocator) (draw : Draw) (typed : Bytes) (db : Db)
      → Evolves db (resolve_or_create_named fnv_hash a draw typed db).1
  unfolding resolve_or_create_named
  resolve_or_create_named-Evolves a draw typed db =
      let local = normalize_local_part typed in
      checked-Evolves db (validate_named_local_part local)
        (in_tx (resolve_or_create fnv_hash a draw local) db)
        (in_tx-Evolves (resolve_or_create fnv_hash a draw local) db
          (resolve_or_create-Ages a draw local))
