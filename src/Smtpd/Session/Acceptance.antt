-- ===== src/Smtpd/Session/Acceptance.antt =====
-- internal/smtpd/session.go: when `Data` acknowledges a message.
use phenk.Prelude.{
  ℕ, ◌+◌, ◌≤◌, ◌<◌, ◌≡◌, ◌≢◌, ◌↔◌, ◌⊎◌, inl, inr, refl, ap, Bool, true, false, none, List, [], ◌∷◌,
  arith, ltb, if◌then◌else◌, ltb→lt, Bool-cases, length, take, any, Bytes,
}
use phenk.Prelude.Result.{Result, ok, err}
use phenk.Smtpd.Receiver.{ReceiveError, Recipient}
use phenk.Smtpd.Server.{Server}
use phenk.Smtpd.Session.{
  MailReceiver, Reply, Session, DataReader, Ending, ends, breaks, refuses, Spool, message_of,
  size_limit, copied, copy_limited, at_end, reply_temporary, commit_spooled, data_command,
  committed, is_for_public,
}

abbrev pub public_among : List Recipient → Bool
public_among rs = any is_for_public rs

abbrev pub lesser : ℕ → ℕ → ℕ
lesser a b = if ltb b a then b else a

-- The limit of a transaction is the general one, or the public one where a recipient is on a domain
-- of the public pool and that is less, whatever the order of the recipients.
size_limit_exact :
    (limit public_limit : ℕ) (rs : List Recipient)
    → size_limit limit public_limit rs
      ≡ (if public_among rs then lesser limit public_limit else limit)
unfolding size_limit
size_limit_exact limit public_limit [] = refl
size_limit_exact limit public_limit (r ∷ rs) =
    ground
      (arith, size_limit_exact limit public_limit rs, size_limit_exact public_limit public_limit rs)

abbrev IsWhole : ℕ → DataReader → Type 0
IsWhole limit r = (r.ending ≡ ends) × (length r.bytes ≤ limit)

ending_cases : (x : Ending) → (x ≡ ends) ⊎ ((e : Reply) × ((n : ℕ) → at_end n x ≡ err e))
ending_cases ends = inl refl
ending_cases breaks = inr (reply_temporary, λ n. refl)
ending_cases (refuses reply) = inr (reply, λ n. refl)

-- Either the whole of the bytes is copied, or one too many, or the reader's failure is the reply.
copy_limited_cases :
    (limit : ℕ) (r : DataReader)
    → (IsWhole limit r × (copy_limited limit r ≡ ok (length r.bytes)))
      ⊎ ((¬ IsWhole limit r)
          × ((copy_limited limit r ≡ ok (limit + 1))
              ⊎ ((e : Reply) × (copy_limited limit r ≡ err e))))
unfolding copy_limited
copy_limited_cases limit r = elim (Bool-cases (ltb limit (length r.bytes))) [
  | inl long ↦
      let n = ltb→lt limit (length r.bytes) long in
      inr (λ w. omega (arith, w.1, n), inl (rw long refl))
  | inr short ↦ elim (ending_cases r.ending) [
    | inl whole ↦ inl ((whole, ground arith), rw short (rw whole refl))
    | inr (e, cut) ↦
        inr (λ w. cc (w.0, cut (length r.bytes)), inr (e, rw short (cut (length r.bytes))))
  ]
]

take-all : (s : Bytes) → take (length s) s ≡ s
take-all [] = refl
take-all (c ∷ s) = ap (λ t. c ∷ t) (take-all s)

abbrev pub IsAccepted : {S : Type 0} → MailReceiver S → Server S → Session → ℕ → DataReader → Type 0
IsAccepted receiver v s now r =
    (0 < length s.recipients)
    × (r.ending ≡ ends)
    × (length r.bytes
        ≤ size_limit v.cfg.max_message_bytes v.cfg.max_public_message_bytes s.recipients)
    × ((receiver.commit v.receiver now (message_of s r.bytes)).1 ≡ ok tt)

module _ {S : Type 0} (receiver : MailReceiver S) (v : Server S) (s : Session) (now : ℕ) where
  committed-none :
      (c : S × Result ReceiveError (Unit {0})) → ((committed receiver v c).1 ≡ none) ↔ (c.1 ≡ ok tt)
  committed-none (state, ok _) = (λ _. refl, λ _. refl)
  committed-none (state, err e) = (λ h. cc, λ h. cc)

  commit_spooled-none :
      (rewinds : Bool) (limit n : ℕ) (body sent : Bytes)
      → take n body ≡ sent
      → ((commit_spooled receiver v s now rewinds limit body (ok n)).1 ≡ none) ↔ (
          (n ≤ limit)
          × (rewinds ≡ true)
          × ((receiver.commit v.receiver now (message_of s sent)).1 ≡ ok tt))
  unfolding commit_spooled
  commit_spooled-none rewinds limit n body sent e =
      let done = committed-none (receiver.commit v.receiver now (message_of s sent)) in
      rw e (ground (arith, done))

  commit_spooled_err :
      (rewinds : Bool) (limit : ℕ) (body : Bytes) (reply : Reply)
      → (commit_spooled receiver v s now rewinds limit body (err reply)).1 ≢ none
  unfolding commit_spooled
  commit_spooled_err rewinds limit body reply h = cc

  abbrev limit_of : ℕ
  limit_of = size_limit v.cfg.max_message_bytes v.cfg.max_public_message_bytes s.recipients

  spooled_none :
      (rewinds : Bool) (r : DataReader)
      → ((commit_spooled receiver v s now rewinds limit_of r.bytes (copy_limited limit_of r)).1
          ≡ none)
        ↔ ((rewinds ≡ true)
            × IsWhole limit_of r
            × ((receiver.commit v.receiver now (message_of s r.bytes)).1 ≡ ok tt))
  spooled_none rewinds r = elim (copy_limited_cases limit_of r) [
    | inl (whole, e) ↦
        let n =
          commit_spooled-none rewinds limit_of (length r.bytes) r.bytes r.bytes
            (take-all r.bytes) in
        rw e (λ h. let x = n.0 h in (x.1, whole, x.2), λ h. n.1 (whole.1, h.0, h.2))
    | inr (cut, inl e) ↦
        let n = commit_spooled-none rewinds limit_of (limit_of + 1) r.bytes _ refl in
        rw e (λ h. absurd (omega (arith, (n.0 h).0)), λ h. absurd (cut h.1))
    | inr (cut, inr (reply, e)) ↦
        rw e
          (λ h. absurd (commit_spooled_err rewinds limit_of r.bytes reply h), λ h. absurd (cut h.1))
  ]

  copied-none :
      (rewinds writes : Bool) (r : DataReader)
      → ((commit_spooled receiver v s now rewinds limit_of r.bytes (copied writes limit_of r)).1
          ≡ none)
        ↔ ((rewinds ≡ true)
            × (writes ≡ true)
            × IsWhole limit_of r
            × ((receiver.commit v.receiver now (message_of s r.bytes)).1 ≡ ok tt))
  unfolding copied
  copied-none rewinds true r =
      let n = spooled_none rewinds r in
      (λ h. let x = n.0 h in (x.0, refl, x.1, x.2), λ h. n.1 (h.0, h.2, h.3))
  copied-none rewinds false r =
      (λ h. absurd (commit_spooled_err rewinds limit_of r.bytes reply_temporary h), λ h. absurd cc)

  -- `Data` answers 250 exactly when the session has a recipient, the spool file works, the reader
  -- ends without an error within the limit, and `Commit` of the whole of its bytes has succeeded.
  pub data_accepts_iff :
      (spool : Spool) (r : DataReader)
      → ((data_command receiver v s now spool r).1 ≡ none) ↔ (
          (spool.opens ≡ true)
          × (spool.writes ≡ true)
          × (spool.rewinds ≡ true)
          × IsAccepted receiver v s now r)
  unfolding data_command
  data_accepts_iff spool r = ground (arith, copied-none spool.rewinds spool.writes r)
