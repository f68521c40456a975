-- ===== src/Smtpd/Limits/Tokens/Rate.antt =====
-- internal/smtpd/limits.go: how many events a rate limiter lets through.
use phenk.Prelude.{
  ℕ, ◌+◌, ◌≤◌, ◌≡◌, ◌↔◌, refl, ◌∙◌, true, ◌&&◌, List, [], ◌∷◌, arith, if◌then◌else◌, Bytes,
  eq_bytes,
}
use phenk.Prelude.Keys.{bytes_key}
use phenk.Prelude.Assoc.{lookup}
use phenk.Smtpd.Limits.Tokens.{RateLimiter, sweep, spend, allow, refilled, or_full}
use phenk.Smtpd.Limits.Tokens.Budget.{IsSound, available, refilled-or_full, available-sweep}

-- How many of the calls, each a key and a time, are allowed for one key.
unfoldable pub granted : RateLimiter → Bytes → List (Bytes × ℕ) → ℕ
granted l j [] = 0
granted l j ((key, now) ∷ calls) =
    (if (allow l key now).1 && eq_bytes key j then 1 else 0) + granted (allow l key now).0 j calls

-- The calls are in the order of their times, all between two times.
abbrev pub InOrder : ℕ → ℕ → List (Bytes × ℕ) → Type 0
InOrder start finish [] = start ≤ finish
InOrder start finish ((key, now) ∷ calls) = (start ≤ now) × InOrder now finish calls

rates-sweep :
    (l : RateLimiter) (now : ℕ)
    → ((sweep l now).window ≡ l.window) × ((sweep l now).burst ≡ l.burst)
unfolding sweep
rates-sweep l now = ground arith

spend_iff :
    (l : RateLimiter) (key : Bytes) (now tokens : ℕ)
    → ((spend l key now tokens).1 ≡ true) ↔ (l.window ≤ tokens)
spend_iff l key now tokens = ground arith

allow-spend :
    (l : RateLimiter) (key : Bytes) (now : ℕ)
    → (allow l key now).1
      ≡ (spend (sweep l now) key now (
          refilled
            (sweep l now)
            now
            (or_full (sweep l now) now (lookup key (sweep l now).buckets)))).1
unfolding allow
allow-spend l key now = refl

refilled-available :
    (l : RateLimiter) (key : Bytes) (now : ℕ)
    → refilled l now (or_full l now (lookup key l.buckets)) ≡ available l key now
unfolding available
refilled-available l key now = refilled-or_full l now (lookup key l.buckets)

-- A call is allowed exactly when the key has a whole token: the sweep takes none away.
allow_iff :
    (l : RateLimiter) (key : Bytes) (now : ℕ)
    → IsSound l
    → ((allow l key now).1 ≡ true) ↔ (l.window ≤ available l key now)
allow_iff l key now v =
    let s = sweep l now in
    let tokens = refilled s now (or_full s now (lookup key s.buckets)) in
    let same : tokens ≡ available l key now =
      refilled-available s key now ∙ available-sweep l key now v in
    ground (arith, rates-sweep l now, spend_iff s key now tokens, allow-spend l key now, same)
