-- ===== src/Smtpd/Limits/Tokens.antt =====
-- internal/smtpd/limits.go: `rateLimiter`. Its tokens are kept exact by scaling: `tokens` counts in
-- units of one token over the window's nanoseconds, so `elapsed * rate` is `elapsed * burst` and one
-- token is `window`. The time after which the sweep drops a bucket is computed in float64. Times are nanoseconds of a clock that does not go back; `swept` is `none` before
-- the first sweep, when any time is more than a minute after it.
pub mod Budget
pub mod Rate
use phenk.Prelude.{
  ℕ, ◌+◌, ◌-◌, ◌*◌, ◌/◌, ◌%◌, ◌^◌, Bool, true, false, Option, none, some, [], ltb, leb, ◌==◌,
  if◌then◌else◌, Bytes,
}
use phenk.Prelude.Float64.{Float64, of_nat, to_nat, plus, over, rounded}
use phenk.Prelude.Keys.{bytes_key}
use phenk.Prelude.Assoc.{Assoc, lookup, insert, retain}

abbrev pub second : ℕ
second = 10 ^ 9

abbrev pub minute : ℕ
minute = 60 * second

pub record Bucket : Type 0 where
  pub tokens : ℕ
  pub seen : ℕ

pub record RateLimiter : Type 0 where
  pub buckets : Assoc Bytes Bucket
  pub burst : ℕ
  pub window : ℕ
  pub swept : Option ℕ

unfoldable pub new_rate_limiter : ℕ → ℕ → RateLimiter
new_rate_limiter burst window = record {
  buckets = [];
  burst = if ltb burst 1 then 1 else burst;
  window = if window == 0 then second else window;
  swept = none;
}

-- All the tokens that a bucket can hold.
abbrev pub capacity : RateLimiter → ℕ
capacity l = l.burst * l.window

-- time.Duration.Seconds
abbrev pub in_seconds : ℕ → Float64
in_seconds window =
    plus (of_nat (window / second)) (over (of_nat (window % second)) (of_nat second))

-- `time.Duration(l.burst/l.rate) * time.Second`, where the rate is `burst / window.Seconds()`: what is
-- cut off of the quotient can be a whole second, since it may be rounded to less than the window.
unfoldable pub full_after : ℕ → ℕ → ℕ
unfolding rounded
full_after burst window =
    to_nat (over (of_nat burst) (over (of_nat burst) (in_seconds window))) * second

unfoldable pub stays : RateLimiter → ℕ → Bucket → Bool
unfolding full_after
stays l now b = leb (now - b.seen) (full_after l.burst l.window)

abbrev pub swept_recently : Option ℕ → ℕ → Bool
swept_recently none now = false
swept_recently (some t) now = ltb (now - t) minute

unfoldable pub sweep : RateLimiter → ℕ → RateLimiter
sweep l now =
    if swept_recently l.swept now
    then l
    else record l { buckets = retain (stays l now) l.buckets; swept = some now }

abbrev pub or_full : RateLimiter → ℕ → Option Bucket → Bucket
or_full l now none = record { tokens = capacity l; seen = now }
or_full l now (some b) = b

-- What the bucket holds at `now`, after the refill.
unfoldable pub refilled : RateLimiter → ℕ → Bucket → ℕ
refilled l now b =
    let t = b.tokens + (now - b.seen) * l.burst in if ltb (capacity l) t then capacity l else t

abbrev pub spend : RateLimiter → Bytes → ℕ → ℕ → RateLimiter × Bool
spend l key now tokens =
    if ltb tokens l.window
    then (
      record l { buckets = insert key (record { tokens = tokens; seen = now }) l.buckets },
      false,
    )
    else (
      record l {
        buckets = insert key (record { tokens = tokens - l.window; seen = now }) l.buckets;
      },
      true,
    )

unfoldable pub allow : RateLimiter → Bytes → ℕ → RateLimiter × Bool
allow l₀ key now =
    let l = sweep l₀ now in spend l key now (refilled l now (or_full l now (lookup key l.buckets)))
