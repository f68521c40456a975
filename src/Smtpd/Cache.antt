-- ===== src/Smtpd/Cache.antt =====
-- internal/smtpd/cache.go: `ttlCache`. The map and the linked list hold the same entries, so the
-- cache is one list of entries, the most recently used first. `now` is the reading of the clock that
-- a call makes.
pub mod Bounds
pub mod Answers
use phenk.Prelude.{ℕ, zero, suc, ◌+◌, Option, none, some, List, [], ◌∷◌, ltb, if◌then◌else◌, length}
use phenk.Prelude.Keys.{Key}
use phenk.Prelude.Assoc.{Assoc, lookup, remove, insert}

pub record CacheEntry (V : Type 0) : Type 0 where
  pub value : V
  pub expires : ℕ

pub record TtlCache (K V : Type 0) : Type 0 where
  pub entries : Assoc K (CacheEntry V)
  pub capacity : ℕ
  pub ttl : ℕ

unfoldable pub new_ttl_cache : {K V : Type 0} → ℕ → ℕ → TtlCache K V
new_ttl_cache capacity ttl = record {
  entries = [];
  capacity = if ltb capacity 1 then 1 else capacity;
  ttl = ttl;
}

-- `removeLocked(c.order.Back())`
unfoldable pub drop_back : {A : Type 0} → List A → List A
drop_back [] = []
drop_back (x ∷ []) = []
drop_back (x ∷ y ∷ xs) = x ∷ drop_back (y ∷ xs)

-- The loop of `Put` that evicts from the back while there are too many. Each round removes one
-- entry, so as many rounds as there are entries are enough.
unfoldable pub evict_loop : {A : Type 0} → ℕ → ℕ → List A → List A
evict_loop zero capacity xs = xs
evict_loop (suc fuel) capacity xs =
    let rest = evict_loop fuel capacity (drop_back xs) in
    if ltb capacity (length xs) then rest else xs

unfoldable pub evict : {A : Type 0} → ℕ → List A → List A
unfolding drop_back evict_loop
evict capacity xs = evict_loop (length xs) capacity xs

module _ {K V : Type 0} ⦃e : Key K⦄ where
  abbrev pub answer : TtlCache K V → K → ℕ → Option (CacheEntry V) → TtlCache K V × Option V
  answer c key now none = (c, none)
  answer c key now (some entry) =
      if ltb entry.expires now
      then (record c { entries = remove key c.entries }, none)
      else (record c { entries = insert key entry c.entries }, some entry.value)

  -- `Get`; `insert` of the entry that is there is `MoveToFront`
  unfoldable pub get : TtlCache K V → K → ℕ → TtlCache K V × Option V
  get c key now = answer c key now (lookup key c.entries)

  abbrev pub put_entry : TtlCache K V → K → CacheEntry V → Option (CacheEntry V) → TtlCache K V
  put_entry c key entry (some old) = record c { entries = insert key entry c.entries }
  put_entry c key entry none = record c { entries = evict c.capacity ((key, entry) ∷ c.entries) }

  unfoldable pub put : TtlCache K V → K → V → ℕ → TtlCache K V
  put c key value now =
      put_entry c key (record { value = value; expires = now + c.ttl }) (lookup key c.entries)

  unfoldable pub forget : TtlCache K V → K → TtlCache K V
  forget c key = record c { entries = remove key c.entries }

-- A call on the cache, with the time at which it is made.
pub data Use (K V : Type 0) : Type 0 where
  gets : K → ℕ → Use K V
  puts : K → V → ℕ → Use K V
  forgets : K → Use K V

module _ {K V : Type 0} ⦃e : Key K⦄ where
  unfoldable pub step : TtlCache K V → Use K V → TtlCache K V
  step c (gets key now) = (get c key now).0
  step c (puts key value now) = put c key value now
  step c (forgets key) = forget c key

  unfoldable pub run : TtlCache K V → List (Use K V) → TtlCache K V
  run c [] = c
  run c (u ∷ us) = run (step c u) us
