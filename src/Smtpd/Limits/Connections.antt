-- ===== src/Smtpd/Limits/Connections.antt =====
-- internal/smtpd/limits.go: `connectionLimiter`, the listener that asks it, and the connections that
-- give their slots back. An address is a number.
pub mod Slots
use phenk.Prelude.{
  ℕ, zero, suc, ◌+◌, ◌-◌, Bool, true, false, Option, none, some, List, [], ◌∷◌, ltb, leb, ◌==◌,
  if◌then◌else◌, count_if,
}
use phenk.Prelude.Keys.{nat_key}
use phenk.Prelude.Assoc.{Assoc, lookup, insert, remove}

pub record ConnectionLimiter : Type 0 where
  pub per_ip : Assoc ℕ ℕ
  pub limit : ℕ

unfoldable pub new_connection_limiter : ℕ → ConnectionLimiter
new_connection_limiter limit = record { per_ip = []; limit = if ltb limit 1 then 1 else limit }

-- A missing key reads as zero.
abbrev or_zero : Option ℕ → ℕ
or_zero none = 0
or_zero (some n) = n

unfoldable pub held : ConnectionLimiter → ℕ → ℕ
held l ip = or_zero (lookup ip l.per_ip)

unfoldable pub acquire : ConnectionLimiter → ℕ → ConnectionLimiter × Bool
acquire l ip =
    if leb l.limit (held l ip)
    then (l, false)
    else (record l { per_ip = insert ip (held l ip + 1) l.per_ip }, true)

unfoldable pub release : ConnectionLimiter → ℕ → ConnectionLimiter
release l ip =
    if leb (held l ip) 1
    then record l { per_ip = remove ip l.per_ip }
    else record l { per_ip = insert ip (held l ip - 1) l.per_ip }

-- `released` is the state of the `sync.Once`.
pub record CountedConn : Type 0 where
  pub ip : ℕ
  pub released : Bool

pub record LimitedListener : Type 0 where
  pub limiter : ConnectionLimiter
  pub conns : List CountedConn

unfoldable pub new_listener : ℕ → LimitedListener
new_listener limit = record { limiter = new_connection_limiter limit; conns = [] }

abbrev accepted : LimitedListener → ℕ → LimitedListener
accepted l ip = record {
  limiter = (acquire l.limiter ip).0;
  conns = record { ip = ip; released = false } ∷ l.conns;
}

-- `Accept` over the addresses of the connections that come in: those that find no slot are refused
-- and the loop goes on. The result tells how many were refused, and whether one was accepted before
-- the underlying listener failed.
unfoldable pub accept : LimitedListener → List ℕ → LimitedListener × ℕ × Bool
accept l [] = (l, 0, false)
accept l (ip ∷ incoming) = elim ((acquire l.limiter ip).1) [
  | true ↦ (accepted l ip, 0, true)
  | false ↦ let (l', refused, got) = accept l incoming in (l', suc refused, got)
]

-- `Close` of the connection at a position: the slot goes back once.
unfoldable pub close_at :
    ConnectionLimiter → List CountedConn → ℕ → ConnectionLimiter × List CountedConn
close_at l [] i = (l, [])
close_at l (c ∷ cs) zero =
    if c.released then (l, c ∷ cs) else (release l c.ip, record c { released = true } ∷ cs)
close_at l (c ∷ cs) (suc i) = let (l', cs') = close_at l cs i in (l', c ∷ cs')

unfoldable pub close : LimitedListener → ℕ → LimitedListener
unfolding close_at
close l i = record {
  limiter = (close_at l.limiter l.conns i).0;
  conns = (close_at l.limiter l.conns i).1;
}

-- What happens to a listener: a call of `Accept`, or of `Close` on one of its connections.
pub data Happening : Type 0 where
  accepts : List ℕ → Happening
  closes : ℕ → Happening

unfoldable pub happen : LimitedListener → Happening → LimitedListener
happen l (accepts incoming) = (accept l incoming).0
happen l (closes i) = close l i

unfoldable pub run : LimitedListener → List Happening → LimitedListener
run l [] = l
run l (h ∷ hs) = run (happen l h) hs

-- The connections from an address that are open.
abbrev pub is_open_from : ℕ → CountedConn → Bool
is_open_from ip c = if c.released then false else c.ip == ip

abbrev pub open_from : ℕ → List CountedConn → ℕ
open_from ip = count_if (is_open_from ip)
