-- ===== src/Examples/Cache.antt =====
-- internal/smtpd/cache.go: the theorems at concrete inputs.
use phenk.Prelude.{ℕ, ◌≤◌, ◌≡◌, refl, some, List, [], ◌∷◌, ltb, if◌then◌else◌, length}
use phenk.Prelude.Keys.{nat_key, bytes_key}
use phenk.Prelude.Assoc.{lookup, remove, insert, IsDistinct}
use phenk.Smtpd.Cache.{
  CacheEntry, Use, gets, puts, forgets, new_ttl_cache, run, step, get, put, forget, evict,
}
use phenk.Smtpd.Cache.Bounds.{cache_bounded}
use phenk.Smtpd.Cache.Answers.{ideal_run, get_last_put}

abbrev some_uses : List (Use ℕ ℕ)
some_uses = puts 1 10 0 ∷ puts 2 20 1 ∷ gets 1 2 ∷ puts 3 30 3 ∷ forgets 2 ∷ []

cache_bounded_example :
    let c = run (new_ttl_cache 2 100) some_uses in
    IsDistinct c.entries × (length c.entries ≤ (if ltb 2 1 then 1 else 2))
cache_bounded_example = cache_bounded 2 100 some_uses

get_last_put_example :
    (x : CacheEntry ℕ) × (lookup 3 (ideal_run 100 [] some_uses) ≡ some x)
    × (x.value ≡ 30)
    × (50 ≤ x.expires)
unfolding run step get put new_ttl_cache lookup forget remove evict insert
get_last_put_example = get_last_put 2 100 some_uses 3 50 30 refl
