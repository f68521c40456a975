-- ===== src/Examples/Limits.antt =====
-- internal/smtpd/limits.go: the theorems at concrete inputs.
use phenk.Prelude.{
  ℕ, ◌+◌, ◌*◌, ◌≤◌, ◌<◌, ◌≡◌, ◌↔◌, refl, true, List, [], ◌∷◌, ltb, if◌then◌else◌, Bytes, codes,
  eq_bytes,
}
use phenk.Prelude.Keys.{nat_key, bytes_key}
use phenk.Prelude.Assoc.{lookup, retain, insert}
use phenk.Smtpd.Limits.Connections.{
  Happening, accepts, closes, new_listener, run, open_from, accept,
}
use phenk.Smtpd.Limits.Connections.Slots.{open_connections_bounded, accept_exact}
use phenk.Smtpd.Limits.Tokens.{new_rate_limiter, second, allow, full_after, sweep, stays, refilled}
use phenk.Prelude.Float64.{rounded}
use phenk.Smtpd.Limits.Tokens.Rate.{granted}

abbrev some_happenings : List Happening
some_happenings = accepts (7 ∷ 7 ∷ 8 ∷ []) ∷ closes 0 ∷ accepts (7 ∷ []) ∷ []

open_connections_bounded_example :
    open_from 7 (run (new_listener 1) some_happenings).conns ≤ (if ltb 1 1 then 1 else 1)
open_connections_bounded_example = open_connections_bounded 1 7 some_happenings

accept_exact_example :
    let l = run (new_listener 1) some_happenings in
    (((accept l (7 ∷ [])).1 ≡ 0) × ((accept l (7 ∷ [])).2 ≡ true))
    ↔ (open_from 7 l.conns < l.limiter.limit)
accept_exact_example = accept_exact 1 7 some_happenings []

abbrev some_calls : List (Bytes × ℕ)
some_calls = (codes "a", 5) ∷ (codes "b", 6) ∷ (codes "a", 6) ∷ (codes "a", 7) ∷ []

abbrev hour : ℕ
hour = 3600 * second

-- Of three an hour, the quotient in float64 is less than 3600: the sweep drops a bucket half a second
-- before it is full, and gives three tokens again where the rate has given less than three.
abbrev early_calls : List (Bytes × ℕ)
early_calls =
    (codes "a", 0)
    ∷ (codes "a", 0)
    ∷ (codes "a", 0)
    ∷ (codes "a", 3599 * second + 1)
    ∷ (codes "a", 3599 * second + 1)
    ∷ (codes "a", 3599 * second + 1)
    ∷ []

early_sweep :
    (full_after 3 hour ≡ 3599 * second)
    × (granted (new_rate_limiter 3 hour) (codes "a") early_calls ≡ 6)
unfolding full_after rounded granted new_rate_limiter allow sweep stays refilled eq_bytes lookup
    retain insert
early_sweep = (refl, refl)
