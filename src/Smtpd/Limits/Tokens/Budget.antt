-- ===== src/Smtpd/Limits/Tokens/Budget.antt =====
-- internal/smtpd/limits.go: how much a key can spend.
use phenk.Prelude.{
  ℕ, ◌+◌, ◌-◌, ◌*◌, ◌≤◌, ◌≡◌, inl, inr, refl, sym, ◌∙◌, false, ◌&&◌, Option, none, some, arith, ltb,
  leb, if◌then◌else◌, Bool-cases, Option-cases, Bytes, eq_bytes, eq_bytes_iff,
}
use native.Mathlib.Nat.{sub_self}
use mathlib.Core.Path.{subst}
use phenk.Prelude.Keys.{bytes_key}
use phenk.Prelude.Assoc.{
  Assoc, lookup, retain, insert, lookup-insert, lookup-retain, IsDistinct, remove-IsDistinct,
  remove-Lacks, retain-IsDistinct, filtered,
}
use phenk.Smtpd.Limits.Tokens.{
  swept_recently, or_full, spend, Bucket, RateLimiter, capacity, full_after, stays, sweep, refilled,
  allow,
}

-- What a key could spend at a time: a key with no bucket has all of the burst.
abbrev value : RateLimiter → ℕ → Option Bucket → ℕ
value l t none = capacity l
value l t (some b) = refilled l t b

unfoldable pub available : RateLimiter → Bytes → ℕ → ℕ
available l key t = value l t (lookup key l.buckets)

refilled-le : (l : RateLimiter) (t : ℕ) (b : Bucket) → refilled l t b ≤ capacity l
unfolding refilled
refilled-le l t b = ground arith

pub available-le : (l : RateLimiter) (key : Bytes) (t : ℕ) → available l key t ≤ capacity l
unfolding available
available-le l key t = elim (Option-cases (lookup key l.buckets)) [
  | inl e ↦ rw e (omega arith)
  | inr (b, e) ↦ rw e (refilled-le l t b)
]

mul_mono : (x y b : ℕ) → x ≤ y → x * b ≤ y * b
mul_mono x y b h = grind arith

elapsed_mul : (s t u b : ℕ) → t ≤ u → (u - s) * b ≤ (t - s) * b + (u - t) * b
elapsed_mul s t u b h = omega (arith, mul_mono (u - s) ((t - s) + (u - t)) b (omega arith))

refilled_grows :
    (l : RateLimiter) (t u : ℕ) (b : Bucket)
    → t ≤ u
    → refilled l u b ≤ refilled l t b + (u - t) * l.burst
unfolding refilled
refilled_grows l t u b h = ground (arith, elapsed_mul b.seen t u l.burst)

-- Between two times a key gains at most what the rate gives.
pub available_grows :
    (l : RateLimiter) (key : Bytes) (t u : ℕ)
    → t ≤ u
    → available l key u ≤ available l key t + (u - t) * l.burst
unfolding available
available_grows l key t u h = elim (Option-cases (lookup key l.buckets)) [
  | inl e ↦ rw e (omega arith)
  | inr (b, e) ↦ rw e (refilled_grows l t u b h)
]

-- A bucket that the sweep drops is as old as the window, and no key has two buckets.
pub record IsSound (l : RateLimiter) : Type 0 where
  pub patient : l.window ≤ full_after l.burst l.window
  pub distinct : IsDistinct l.buckets

idle_mul : (e w b : ℕ) → w ≤ e → b * w ≤ e * b
idle_mul e w b h = grind arith

capped_full :
    (e f w b tokens : ℕ)
    → w ≤ f
    → leb e f ≡ false
    → (if ltb (b * w) (tokens + e * b) then b * w else tokens + e * b) ≡ b * w
capped_full e f w b tokens h k = ground (arith, idle_mul e w b (ground arith))

-- A bucket that the sweep drops would have been full again.
refilled_of_stale :
    (l : RateLimiter) (now : ℕ) (b : Bucket)
    → l.window ≤ full_after l.burst l.window
    → stays l now b ≡ false
    → refilled l now b ≡ capacity l
unfolding stays refilled
refilled_of_stale l now b w h =
    capped_full (now - b.seen) (full_after l.burst l.window) l.window l.burst b.tokens w h

value-filtered :
    (l : RateLimiter) (now : ℕ) (o : Option Bucket)
    → l.window ≤ full_after l.burst l.window
    → value l now (filtered (stays l now) o) ≡ value l now o
value-filtered l now none w = refl
value-filtered l now (some b) w = elim (Bool-cases (stays l now b)) [
  | inl s ↦ rw s
  | inr s ↦ rw s (sym (refilled_of_stale l now b w s))
]

-- What a key could spend depends on its bucket and on the rate alone.
value-with :
    (l : RateLimiter) (m : Assoc Bytes Bucket) (w : Option ℕ) (t : ℕ) (o : Option Bucket)
    → value (record l { buckets = m; swept = w }) t o ≡ value l t o
unfolding refilled
value-with l m w t none = refl
value-with l m w t (some b) = refl

pub available-sweep :
    (l : RateLimiter) (key : Bytes) (now : ℕ)
    → IsSound l
    → available (sweep l now) key now ≡ available l key now
unfolding available sweep
available-sweep l key now v = elim (Bool-cases (swept_recently l.swept now)) [
  | inl early ↦ rw (early, sweep)
  | inr late ↦
      rw (late, sweep)
        (rw (lookup-retain (stays l now) key l.buckets v.distinct) (
          value-with l (retain (stays l now) l.buckets) (some now) now
            (filtered (stays l now) (lookup key l.buckets))
          ∙ value-filtered l now (lookup key l.buckets) v.patient))
]

sweep-IsSound : (l : RateLimiter) (now : ℕ) → IsSound l → IsSound (sweep l now)
unfolding sweep
sweep-IsSound l now v = elim (Bool-cases (swept_recently l.swept now)) [
  | inl early ↦ rw (early, sweep) v
  | inr late ↦
      rw (late, sweep)
        (record {
          patient = v.patient;
          distinct = retain-IsDistinct (stays l now) l.buckets v.distinct;
        })
]

pub refilled-or_full :
    (l : RateLimiter) (now : ℕ) (o : Option Bucket)
    → refilled l now (or_full l now o) ≡ value l now o
unfolding refilled
refilled-or_full l now none = ground arith
refilled-or_full l now (some b) = refl

no_time_mul : (now b : ℕ) → (now - now) * b ≡ 0
no_time_mul now b = rw (sub_self now) (omega arith)

refilled_now :
    (l : RateLimiter) (now tokens : ℕ)
    → tokens ≤ capacity l
    → refilled l now (record { tokens = tokens; seen = now }) ≡ tokens
unfolding refilled
refilled_now l now tokens h = ground (arith, no_time_mul now l.burst)

with_bucket : RateLimiter → Bytes → Bucket → RateLimiter
with_bucket l key b = record l { buckets = insert key b l.buckets }

available-with_bucket :
    (l : RateLimiter) (key j : Bytes) (b : Bucket) (now : ℕ)
    → available (with_bucket l key b) j now
      ≡ (if eq_bytes key j then refilled l now b else available l j now)
unfolding available with_bucket
available-with_bucket l key j b now = elim (Bool-cases (eq_bytes key j)) [
  | inl s ↦ rw (lookup-insert key j b l.buckets) (rw s (value-with l _ l.swept now (some b)))
  | inr d ↦
      rw (lookup-insert key j b l.buckets) (rw d (value-with l _ l.swept now (lookup j l.buckets)))
]

available-spend :
    (l : RateLimiter) (key j : Bytes) (now tokens : ℕ)
    → tokens ≡ available l key now
    → available (spend l key now tokens).0 j now
        + (if (spend l key now tokens).1 && eq_bytes key j then l.window else 0)
      ≡ available l j now
unfolding with_bucket
available-spend l key j now tokens e =
    let kept : Bucket = record { tokens = tokens; seen = now } in
    let less : Bucket = record { tokens = tokens - l.window; seen = now } in
    elim (Bool-cases (ltb tokens l.window)) [
      | inl few ↦ rw (few) (
          ground (
            arith,
            available-with_bucket l key j kept now,
            refilled_now l now tokens,
            available-le l key now,
            eq_bytes_iff key j,
          ))
      | inr enough ↦ rw enough (
          ground (
            arith,
            available-with_bucket l key j less now,
            refilled_now l now (tokens - l.window),
            available-le l key now,
            eq_bytes_iff key j,
          ))
    ]

window-sweep : (l : RateLimiter) (now : ℕ) → (sweep l now).window ≡ l.window
unfolding sweep
window-sweep l now = ground arith

-- A call at `now` takes one token, which is `window`, off what its own key could spend if it is
-- allowed, and nothing else off any key.
pub available-allow :
    (l : RateLimiter) (key j : Bytes) (now : ℕ)
    → IsSound l
    → available (allow l key now).0 j now
        + (if (allow l key now).1 && eq_bytes key j then l.window else 0)
      ≡ available l j now
unfolding allow
available-allow l key j now v =
    let s = sweep l now in
    subst
      (λ w.
        available (allow l key now).0 j now
          + (if (allow l key now).1 && eq_bytes key j then w else 0)
        ≡ available l j now)
      (window-sweep l now)
      (available-spend s key j now (refilled s now (or_full s now (lookup key s.buckets)))
          (unfold available in refilled-or_full s now (lookup key s.buckets))
        ∙ available-sweep l j now v)

spend-IsSound :
    (l : RateLimiter) (key : Bytes) (now tokens : ℕ)
    → IsSound l
    → IsSound (spend l key now tokens).0
unfolding insert
spend-IsSound l key now tokens v =
    ground (arith, remove-IsDistinct key l.buckets v.distinct, remove-Lacks key l.buckets)

pub allow-IsSound :
    (l : RateLimiter) (key : Bytes) (now : ℕ) → IsSound l → IsSound (allow l key now).0
unfolding allow
allow-IsSound l key now v = spend-IsSound (sweep l now) key now _ (sweep-IsSound l now v)
