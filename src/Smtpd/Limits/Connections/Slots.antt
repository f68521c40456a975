-- ===== src/Smtpd/Limits/Connections/Slots.antt =====
-- internal/smtpd/limits.go: the limiter counts exactly the connections that are open.
use phenk.Prelude.{
  ℕ, zero, suc, ◌+◌, ◌-◌, ◌≤◌, ◌<◌, ◌≡◌, ◌↔◌, inl, inr, refl, ◌∙◌, true, ◌&&◌, List, [], ◌∷◌, arith,
  ltb, ◌==◌, if◌then◌else◌, Bool-cases,
}
use phenk.Prelude.Keys.{nat_key}
use phenk.Prelude.Assoc.{lookup, lookup-insert, lookup-remove}
use phenk.Smtpd.Limits.Connections.{
  ConnectionLimiter, CountedConn, LimitedListener, Happening, accepts, closes, new_listener,
  new_connection_limiter, held, acquire, release, accept, close_at, close, happen, run, open_from,
  is_open_from,
}

held-acquire :
    (l : ConnectionLimiter) (ip j : ℕ)
    → held (acquire l ip).0 j ≡ (if (acquire l ip).1 && (ip == j) then held l j + 1 else held l j)
unfolding held acquire
held-acquire l ip j = ground (arith, lookup-insert ip j (held l ip + 1) l.per_ip)

held-release :
    (l : ConnectionLimiter) (ip j : ℕ)
    → held (release l ip) j ≡ (if ip == j then held l j - 1 else held l j)
unfolding held release
held-release l ip j =
    ground (arith, lookup-insert ip j (held l ip - 1) l.per_ip, lookup-remove ip j l.per_ip)

limit-acquire : (l : ConnectionLimiter) (ip : ℕ) → (acquire l ip).0.limit ≡ l.limit
unfolding acquire
limit-acquire l ip = ground arith

limit-release : (l : ConnectionLimiter) (ip : ℕ) → (release l ip).limit ≡ l.limit
unfolding release
limit-release l ip = ground arith

-- A slot is granted exactly while the address holds fewer than the limit.
acquire_iff : (l : ConnectionLimiter) (ip : ℕ) → ((acquire l ip).1 ≡ true) ↔ (held l ip < l.limit)
unfolding acquire
acquire_iff l ip = ground arith

held-close_at :
    (l : ConnectionLimiter) (cs : List CountedConn) (i j n : ℕ)
    → held l j ≡ n + open_from j cs
    → held (close_at l cs i).0 j ≡ n + open_from j (close_at l cs i).1
unfolding close_at
held-close_at l [] i j n h = h
held-close_at l (c ∷ cs) zero j n h = ground (arith, held-release l c.ip j)
held-close_at l (c ∷ cs) (suc i) j n h =
    let step : ℕ = if is_open_from j c then 1 else 0 in
    omega (arith, held-close_at l cs i j (n + step) (omega arith))

open_from-close_at :
    (l : ConnectionLimiter) (cs : List CountedConn) (i j : ℕ)
    → open_from j (close_at l cs i).1 ≤ open_from j cs
unfolding close_at
open_from-close_at l [] i j = omega arith
open_from-close_at l (c ∷ cs) zero j = ground arith
open_from-close_at l (c ∷ cs) (suc i) j = omega (arith, open_from-close_at l cs i j)

limit-close_at :
    (l : ConnectionLimiter) (cs : List CountedConn) (i : ℕ) → (close_at l cs i).0.limit ≡ l.limit
unfolding close_at
limit-close_at l [] i = refl
limit-close_at l (c ∷ cs) zero = ground (arith, limit-release l c.ip)
limit-close_at l (c ∷ cs) (suc i) = limit-close_at l cs i

-- The counter of every address is the number of its open connections, within the limit.
pub record IsCounted (l : LimitedListener) : Type 0 where
  pub counts : (ip : ℕ) → held l.limiter ip ≡ open_from ip l.conns
  pub within : (ip : ℕ) → open_from ip l.conns ≤ l.limiter.limit

new_listener-IsCounted : (limit : ℕ) → IsCounted (new_listener limit)
unfolding new_listener new_connection_limiter held lookup
new_listener-IsCounted limit = record { counts = λ ip. refl; within = λ ip. omega arith }

accept-IsCounted : (l : LimitedListener) (ips : List ℕ) → IsCounted l → IsCounted (accept l ips).0
unfolding accept
accept-IsCounted l [] v = v
accept-IsCounted l (ip ∷ ips) v = elim (Bool-cases ((acquire l.limiter ip).1)) [
  | inl got ↦
      rw (got, accept)
        (record {
          counts = λ j. ground (arith, held-acquire l.limiter ip j, v.counts j);
          within = λ j.
              ground (
                arith,
                limit-acquire l.limiter ip,
                acquire_iff l.limiter ip,
                v.counts j,
                v.within j,
              );
        })
  | inr full ↦ rw (full, accept) (accept-IsCounted l ips v)
]

close-IsCounted : (l : LimitedListener) (i : ℕ) → IsCounted l → IsCounted (close l i)
unfolding close
close-IsCounted l i v = record {
  counts = λ j. omega (arith, held-close_at l.limiter l.conns i j 0 (omega (arith, v.counts j)));
  within = λ j. omega (
    arith,
    limit-close_at l.limiter l.conns i,
    open_from-close_at l.limiter l.conns i j,
    v.within j,
  );
}

happen-IsCounted : (l : LimitedListener) (h : Happening) → IsCounted l → IsCounted (happen l h)
unfolding happen
happen-IsCounted l (accepts ips) v = accept-IsCounted l ips v
happen-IsCounted l (closes i) v = close-IsCounted l i v

run-IsCounted : (l : LimitedListener) (hs : List Happening) → IsCounted l → IsCounted (run l hs)
unfolding run
run-IsCounted l [] v = v
run-IsCounted l (h ∷ hs) v = run-IsCounted (happen l h) hs (happen-IsCounted l h v)

limit-accept :
    (l : LimitedListener) (ips : List ℕ) → (accept l ips).0.limiter.limit ≡ l.limiter.limit
unfolding accept
limit-accept l [] = refl
limit-accept l (ip ∷ ips) = elim (Bool-cases ((acquire l.limiter ip).1)) [
  | inl got ↦ rw (got, accept) (limit-acquire l.limiter ip)
  | inr full ↦ rw (full, accept) (limit-accept l ips)
]

limit-happen : (l : LimitedListener) (h : Happening) → (happen l h).limiter.limit ≡ l.limiter.limit
unfolding happen close
limit-happen l (accepts ips) = limit-accept l ips
limit-happen l (closes i) = limit-close_at l.limiter l.conns i

limit-run : (l : LimitedListener) (hs : List Happening) → (run l hs).limiter.limit ≡ l.limiter.limit
unfolding run
limit-run l [] = refl
limit-run l (h ∷ hs) = limit-run (happen l h) hs ∙ limit-happen l h

-- After any history of `Accept` and `Close`, no address has more connections open than the limit
-- that the limiter was made with, or than one where that limit was zero.
pub open_connections_bounded :
    (limit ip : ℕ) (hs : List Happening)
    → open_from ip (run (new_listener limit) hs).conns ≤ (if ltb limit 1 then 1 else limit)
unfolding new_listener new_connection_limiter
open_connections_bounded limit ip hs =
    let l = new_listener limit in
    omega (arith, (run-IsCounted l hs (new_listener-IsCounted limit)).within ip, limit-run l hs)

accept_iff :
    (l : LimitedListener) (ip : ℕ) (ips : List ℕ)
    → held l.limiter ip ≡ open_from ip l.conns
    → (((accept l (ip ∷ ips)).1 ≡ 0) × ((accept l (ip ∷ ips)).2 ≡ true))
      ↔ (open_from ip l.conns < l.limiter.limit)
unfolding accept
accept_iff l ip ips e = elim (Bool-cases ((acquire l.limiter ip).1)) [
  | inl got ↦
      rw (got, accept) (λ _. omega (arith, (acquire_iff l.limiter ip).0 got, e), λ _. (refl, refl))
  | inr full ↦
      rw (full, accept)
        (
          λ h. absurd (omega (arith, h.0)),
          λ h. cc ((acquire_iff l.limiter ip).1 (omega (arith, e))),
        )
]

-- After any history, `Accept` takes the next incoming connection at once exactly when its address
-- has fewer connections open than the limit: a closed connection always gives its slot back.
pub accept_exact :
    (limit ip : ℕ) (hs : List Happening) (ips : List ℕ)
    → let l = run (new_listener limit) hs in
      (((accept l (ip ∷ ips)).1 ≡ 0) × ((accept l (ip ∷ ips)).2 ≡ true))
      ↔ (open_from ip l.conns < l.limiter.limit)
accept_exact limit ip hs ips =
    let l = run (new_listener limit) hs in
    accept_iff l ip ips
      ((run-IsCounted (new_listener limit) hs (new_listener-IsCounted limit)).counts ip)

close_at_again :
    (l l' : ConnectionLimiter) (cs : List CountedConn) (i : ℕ)
    → close_at l' (close_at l cs i).1 i ≡ (l', (close_at l cs i).1)
unfolding close_at
close_at_again l l' [] i = refl
close_at_again l l' (c ∷ cs) zero = ground arith
close_at_again l l' (c ∷ cs) (suc i) = rw (close_at_again l l' cs i)

-- Closing a connection once more changes nothing: its slot goes back once.
close_idem : (l : LimitedListener) (i : ℕ) → close (close l i) i ≡ close l i
unfolding close
close_idem l i = rw (close_at_again l.limiter (close_at l.limiter l.conns i).0 l.conns i)
