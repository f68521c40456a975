-- ===== src/Smtpd/Cache/Answers.antt =====
-- internal/smtpd/cache.go: the cache against a map that forgets nothing by itself.
use phenk.Prelude.{
  ℕ, zero, suc, ◌+◌, ◌≤◌, ◌<◌, ◌≡◌, inl, inr, refl, Option, none, some, List, [], ◌∷◌, arith, leb,
  if◌then◌else◌, Option-cases, length,
}
use mathlib.Core.Path.{subst}
use phenk.Smtpd.Cache.Bounds.{rates-step}
use phenk.Prelude.Keys.{Key}
use phenk.Prelude.Assoc.{Assoc, lookup, remove, insert, lookup-remove, lookup-insert}
use phenk.Smtpd.Cache.{
  TtlCache, CacheEntry, Use, gets, puts, forgets, new_ttl_cache, drop_back, evict_loop, evict, get,
  put, put_entry, forget, step, run,
}

module _ {K V : Type 0} ⦃e : Key K⦄ where
  -- What an unbounded map would hold: the last value put under each key and not forgotten since,
  -- with the time until which it may be used.
  unfoldable pub ideal_step : ℕ → Assoc K (CacheEntry V) → Use K V → Assoc K (CacheEntry V)
  ideal_step ttl m (gets key now) = m
  ideal_step ttl m (puts key value now) =
      insert key (record { value = value; expires = now + ttl }) m
  ideal_step ttl m (forgets key) = remove key m

  unfoldable pub ideal_run : ℕ → Assoc K (CacheEntry V) → List (Use K V) → Assoc K (CacheEntry V)
  ideal_run ttl m [] = m
  ideal_run ttl m (u ∷ us) = ideal_run ttl (ideal_step ttl m u) us

  -- All that the cache holds, the ideal map holds.
  abbrev Within : Assoc K (CacheEntry V) → Assoc K (CacheEntry V) → Type 0
  Within m ideal = (k : K) (x : CacheEntry V) → lookup k m ≡ some x → lookup k ideal ≡ some x

  lookup-drop_back :
      (k : K) (x : CacheEntry V) (m : Assoc K (CacheEntry V))
      → lookup k (drop_back m) ≡ some x
      → lookup k m ≡ some x
  unfolding lookup drop_back
  lookup-drop_back k x [] h = cc
  lookup-drop_back k x (y ∷ []) h = cc
  lookup-drop_back k x (y ∷ z ∷ m) h = ground (arith, lookup-drop_back k x (z ∷ m))

  lookup-evict_loop :
      (fuel capacity : ℕ) (k : K) (x : CacheEntry V) (m : Assoc K (CacheEntry V))
      → lookup k (evict_loop fuel capacity m) ≡ some x
      → lookup k m ≡ some x
  unfolding evict_loop
  lookup-evict_loop zero capacity k x m h = h
  lookup-evict_loop (suc fuel) capacity k x m h =
      ground (arith, lookup-evict_loop fuel capacity k x (drop_back m), lookup-drop_back k x m)

  forget-Within :
      (c : TtlCache K V) (ideal : Assoc K (CacheEntry V)) (key : K)
      → Within c.entries ideal
      → Within (remove key c.entries) (remove key ideal)
  forget-Within c ideal key w k x h =
      ground (arith, lookup-remove key k c.entries, lookup-remove key k ideal, w k x)

  insert-Within :
      (c : TtlCache K V) (ideal : Assoc K (CacheEntry V)) (key : K) (x : CacheEntry V)
      → Within c.entries ideal
      → Within (insert key x c.entries) (insert key x ideal)
  insert-Within c ideal key x w k y h =
      ground (arith, lookup-insert key k x c.entries, lookup-insert key k x ideal, w k y)

  -- A read may drop an entry and may move one: it adds none.
  get-Within :
      (c : TtlCache K V) (ideal : Assoc K (CacheEntry V)) (key : K) (now : ℕ)
      → Within c.entries ideal
      → Within (get c key now).0.entries ideal
  unfolding get
  get-Within c ideal key now w k y h = elim (Option-cases (lookup key c.entries)) [
    | inl missing ↦ w k y (ground arith)
    | inr (x, found) ↦ w k y (
        ground
          (arith, lookup-remove key k c.entries, lookup-insert key k x c.entries, e.same_iff key k))
  ]

  put_entry-Within :
      (c : TtlCache K V) (ideal : Assoc K (CacheEntry V)) (key : K) (x : CacheEntry V)
      → Within c.entries ideal
      → (o : Option (CacheEntry V)) → lookup key c.entries ≡ o
      → Within (put_entry c key x o).entries (insert key x ideal)
  unfolding evict
  put_entry-Within c ideal key x w (some old) found k y h = insert-Within c ideal key x w k y h
  put_entry-Within c ideal key x w none missing k y h =
      let added : Assoc K (CacheEntry V) = (key, x) ∷ c.entries in
      let back = lookup-evict_loop (length added) c.capacity k y added h in
      unfold lookup in ground (arith, back, lookup-insert key k x ideal, w k y)

  step-Within :
      (c : TtlCache K V) (ideal : Assoc K (CacheEntry V)) (u : Use K V)
      → Within c.entries ideal
      → Within (step c u).entries (ideal_step c.ttl ideal u)
  unfolding step ideal_step put forget
  step-Within c ideal (gets key now) w = get-Within c ideal key now w
  step-Within c ideal (puts key value now) w =
      put_entry-Within c ideal key (record { value = value; expires = now + c.ttl }) w
        (lookup key c.entries) refl
  step-Within c ideal (forgets key) w = forget-Within c ideal key w

  run-Within :
      (c : TtlCache K V) (ideal : Assoc K (CacheEntry V)) (us : List (Use K V))
      → Within c.entries ideal
      → Within (run c us).entries (ideal_run c.ttl ideal us)
  unfolding run ideal_run
  run-Within c ideal [] w = w
  run-Within c ideal (u ∷ us) w =
      subst (λ t. Within (run (step c u) us).entries (ideal_run t (ideal_step c.ttl ideal u) us))
        (rates-step c u).1
        (run-Within (step c u) (ideal_step c.ttl ideal u) us (step-Within c ideal u w))

  get_sound :
      (c : TtlCache K V) (ideal : Assoc K (CacheEntry V)) (key : K) (now : ℕ) (v : V)
      → Within c.entries ideal
      → (get c key now).1 ≡ some v
      → (x : CacheEntry V) × (lookup key ideal ≡ some x) × (x.value ≡ v) × (now ≤ x.expires)
  unfolding get
  get_sound c ideal key now v w h = elim (Option-cases (lookup key c.entries)) [
    | inl missing ↦ absurd (ground arith)
    | inr (x, found) ↦ (x, w key x found, ground arith, ground arith)
  ]

  -- Whatever calls went before, the answer of `Get` is the value put last under the key, not
  -- forgotten since, and put no longer ago than the ttl: a stale or a foreign value is never served.
  pub get_last_put :
      (capacity ttl : ℕ) (us : List (Use K V)) (key : K) (now : ℕ) (v : V)
      → (get (run (new_ttl_cache capacity ttl) us) key now).1 ≡ some v
      → (x : CacheEntry V) × (lookup key (ideal_run ttl [] us) ≡ some x)
        × (x.value ≡ v)
        × (now ≤ x.expires)
  unfolding new_ttl_cache
  get_last_put capacity ttl us key now v h =
      let c : TtlCache K V = new_ttl_cache capacity ttl in
      get_sound (run c us) (ideal_run ttl [] us) key now v (run-Within c [] us (λ k x p. p)) h

  lookup-evict_loop_front :
      (fuel capacity : ℕ) (key : K) (x : CacheEntry V) (m : Assoc K (CacheEntry V))
      → 0 < capacity
      → lookup key (evict_loop fuel capacity ((key, x) ∷ m)) ≡ some x
  unfolding lookup evict_loop drop_back
  lookup-evict_loop_front zero capacity key x m h = ground (arith, e.same_iff key key)
  lookup-evict_loop_front (suc fuel) capacity key x [] h = ground (arith, e.same_iff key key)
  lookup-evict_loop_front (suc fuel) capacity key x (y ∷ m) h =
      ground (
        arith,
        e.same_iff key key,
        lookup-evict_loop_front fuel capacity key x (drop_back (y ∷ m)) h,
      )

  lookup-put_entry :
      (c : TtlCache K V) (key : K) (x : CacheEntry V) (o : Option (CacheEntry V))
      → 0 < c.capacity
      → lookup key (put_entry c key x o).entries ≡ some x
  unfolding evict
  lookup-put_entry c key x none h =
      lookup-evict_loop_front (length ((key, x) ∷ c.entries)) c.capacity key x c.entries h
  lookup-put_entry c key x (some old) h =
      ground (arith, lookup-insert key key x c.entries, e.same_iff key key)

  -- A value just put is read back for as long as the ttl, and no longer.
  get-put :
      (c : TtlCache K V) (key : K) (v : V) (now later : ℕ)
      → 0 < c.capacity
      → (get (put c key v now) key later).1 ≡ (if leb later (now + c.ttl) then some v else none)
  unfolding get put
  get-put c key v now later h =
      let x : CacheEntry V = record { value = v; expires = now + c.ttl } in
      rw (lookup-put_entry c key x (lookup key c.entries) h) (ground arith)
