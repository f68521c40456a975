-- ===== src/Smtpd/Cache/Bounds.antt =====
-- internal/smtpd/cache.go: the cache stays within its capacity and holds no key twice.
use phenk.Prelude.{
  ℕ, zero, suc, ◌+◌, ◌-◌, ◌≤◌, ◌≡◌, inl, inr, refl, true, false, Option, none, some, List, [], ◌∷◌,
  arith, ltb, if◌then◌else◌, Option-cases, length,
}
use phenk.Prelude.Keys.{Key}
use phenk.Prelude.Assoc.{
  Assoc, lookup, remove, insert, Lacks, IsDistinct, remove-Lacks, remove-IsDistinct, length-remove,
  length-remove_held, Lacks-of_lookup,
}
use phenk.Smtpd.Cache.{
  TtlCache, CacheEntry, Use, gets, puts, forgets, new_ttl_cache, drop_back, evict_loop, evict, get,
  put, forget, step, run,
}

length-drop_back : {A : Type 0} (xs : List A) → length (drop_back xs) ≡ length xs - 1
unfolding drop_back
length-drop_back [] = refl
length-drop_back (x ∷ []) = refl
length-drop_back (x ∷ y ∷ xs) = omega (arith, length-drop_back (y ∷ xs))

length-evict_loop :
    {A : Type 0} (fuel capacity : ℕ) (xs : List A)
    → length xs ≤ fuel
    → length (evict_loop fuel capacity xs) ≤ capacity
unfolding evict_loop
length-evict_loop zero capacity xs h = omega arith
length-evict_loop (suc fuel) capacity xs h =
    ground (arith, length-drop_back xs, length-evict_loop fuel capacity (drop_back xs))

pub length-evict-le :
    {A : Type 0} (capacity : ℕ) (xs : List A) → length (evict capacity xs) ≤ capacity
unfolding evict
length-evict-le capacity xs = length-evict_loop (length xs) capacity xs (omega arith)

module _ {K V : Type 0} ⦃e : Key K⦄ where
  Lacks-drop_back : (k : K) (m : Assoc K V) → Lacks k m → Lacks k (drop_back m)
  unfolding drop_back
  Lacks-drop_back k [] h = tt
  Lacks-drop_back k (x ∷ []) h = tt
  Lacks-drop_back k (x ∷ y ∷ m) h = (h.0, Lacks-drop_back k (y ∷ m) h.1)

  drop_back-IsDistinct : (m : Assoc K V) → IsDistinct m → IsDistinct (drop_back m)
  unfolding drop_back
  drop_back-IsDistinct [] h = tt
  drop_back-IsDistinct (x ∷ []) h = tt
  drop_back-IsDistinct ((k, v) ∷ y ∷ m) h =
      (Lacks-drop_back k (y ∷ m) h.0, drop_back-IsDistinct (y ∷ m) h.1)

  evict_loop-IsDistinct :
      (fuel capacity : ℕ) (m : Assoc K V) → IsDistinct m → IsDistinct (evict_loop fuel capacity m)
  unfolding evict_loop
  evict_loop-IsDistinct zero capacity m h = h
  evict_loop-IsDistinct (suc fuel) capacity m h =
      elim (ltb capacity (length m))
        as (λ b. IsDistinct (if b then evict_loop fuel capacity (drop_back m) else m)) [
          | true ↦ evict_loop-IsDistinct fuel capacity (drop_back m) (drop_back-IsDistinct m h)
          | false ↦ h
        ]

module _ {K V : Type 0} ⦃e : Key K⦄ where
  -- No key stands twice, and there are no more entries than the capacity.
  pub record IsBounded (c : TtlCache K V) : Type 0 where
    pub distinct : IsDistinct c.entries
    pub fits : length c.entries ≤ c.capacity

  front-IsBounded :
      (c : TtlCache K V) (key : K) (entry old : CacheEntry V)
      → lookup key c.entries ≡ some old
      → IsBounded c
      → IsBounded (record c { entries = insert key entry c.entries })
  unfolding insert
  front-IsBounded c key entry old found v = record {
    distinct = (remove-Lacks key c.entries, remove-IsDistinct key c.entries v.distinct);
    fits = omega (arith, length-remove_held key old c.entries found, v.fits);
  }

  forget-IsBounded : (c : TtlCache K V) (key : K) → IsBounded c → IsBounded (forget c key)
  unfolding forget
  forget-IsBounded c key v = record {
    distinct = remove-IsDistinct key c.entries v.distinct;
    fits = omega (arith, length-remove key c.entries, v.fits);
  }

  get-IsBounded : (c : TtlCache K V) (key : K) (now : ℕ) → IsBounded c → IsBounded (get c key now).0
  unfolding get forget
  get-IsBounded c key now v = elim (Option-cases (lookup key c.entries)) [
    | inl missing ↦ rw missing v
    | inr (entry, found) ↦
        rw found
          (elim (ltb entry.expires now)
            as (λ b.
              IsBounded
                (if◌then◌else◌ {A = TtlCache K V × Option V} b
                  (record c { entries = remove key c.entries }, none)
                  (record c { entries = insert key entry c.entries }, some entry.value)).0) [
                    | true ↦ forget-IsBounded c key v
                    | false ↦ front-IsBounded c key entry entry found v
                  ])
  ]

  put-IsBounded :
      (c : TtlCache K V) (key : K) (value : V) (now : ℕ)
      → IsBounded c
      → IsBounded (put c key value now)
  unfolding put evict
  put-IsBounded c key value now v =
      let x : CacheEntry V = record { value = value; expires = now + c.ttl } in
      let added : Assoc K (CacheEntry V) = (key, x) ∷ c.entries in
      elim (Option-cases (lookup key c.entries)) [
        | inl missing ↦ rw missing (record {
          distinct =
              evict_loop-IsDistinct (length added) c.capacity added
                (Lacks-of_lookup key c.entries missing, v.distinct);
          fits = length-evict-le c.capacity added;
        })
        | inr (old, found) ↦ rw found (front-IsBounded c key x old found v)
      ]

  step-IsBounded : (c : TtlCache K V) (u : Use K V) → IsBounded c → IsBounded (step c u)
  unfolding step
  step-IsBounded c (gets key now) v = get-IsBounded c key now v
  step-IsBounded c (puts key value now) v = put-IsBounded c key value now v
  step-IsBounded c (forgets key) v = forget-IsBounded c key v

  pub run-IsBounded : (c : TtlCache K V) (us : List (Use K V)) → IsBounded c → IsBounded (run c us)
  unfolding run
  run-IsBounded c [] v = v
  run-IsBounded c (u ∷ us) v = run-IsBounded (step c u) us (step-IsBounded c u v)

  pub new_ttl_cache-IsBounded :
      (capacity ttl : ℕ) → IsBounded (new_ttl_cache {K = K} {V = V} capacity ttl)
  unfolding new_ttl_cache
  new_ttl_cache-IsBounded capacity ttl = record { distinct = tt; fits = omega arith }

  pub rates-step :
      (c : TtlCache K V) (u : Use K V)
      → ((step c u).capacity ≡ c.capacity) × ((step c u).ttl ≡ c.ttl)
  unfolding step get put forget
  rates-step c (gets key now) = ground arith
  rates-step c (puts key value now) = ground arith
  rates-step c (forgets key) = (refl, refl)

  pub rates-run :
      (c : TtlCache K V) (us : List (Use K V))
      → ((run c us).capacity ≡ c.capacity) × ((run c us).ttl ≡ c.ttl)
  unfolding run
  rates-run c [] = (refl, refl)
  rates-run c (u ∷ us) = ground (arith, rates-run (step c u) us, rates-step c u)

  -- After any calls a cache holds no key twice, and no more entries than the capacity that it was
  -- made with, or than one where that is zero.
  pub cache_bounded :
      (capacity ttl : ℕ) (us : List (Use K V))
      → let c = run (new_ttl_cache capacity ttl) us in
        IsDistinct c.entries × (length c.entries ≤ (if ltb capacity 1 then 1 else capacity))
  cache_bounded capacity ttl us =
      let v =
        run-IsBounded (new_ttl_cache capacity ttl) us (new_ttl_cache-IsBounded capacity ttl) in
      (
        v.distinct,
        unfold new_ttl_cache in
            omega (arith, v.fits, (rates-run (new_ttl_cache capacity ttl) us).0),
      )
