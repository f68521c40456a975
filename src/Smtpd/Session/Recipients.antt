-- ===== src/Smtpd/Session/Recipients.antt =====
-- internal/smtpd/session.go: the recipients of a session, whatever is called on it.
use phenk.Prelude.{
  ℕ, ◌≤◌, ◌<◌, ◌≡◌, inl, inr, refl, sym, ap, ◌∙◌, Bool, true, false, List, [], ◌∷◌, ◌++◌, arith,
  leb, Bool-cases, length, is_empty, take, length-append, any, Bytes, eq_bytes_iff,
}
use mathlib.Core.Path.{subst}
use phenk.Smtpd.Limits.Tokens.{allow}
use phenk.Prelude.Result.{Result, ok, err}
use phenk.Core.Address.{AddressError, split_address}
use phenk.Smtpd.Receiver.{ReceiveError, Recipient, address}
use phenk.Smtpd.Server.{Server}
use phenk.Smtpd.Session.{
  Reply, Spool, DataReader, message_of, size_limit, copied, committed, MailReceiver, Session,
  Command, mail_from, rcpt_to, data_sent, rset, add_recipient, is_for, resolved, spend_budgets,
  commit_spooled, reset, mail, rcpt, from_address, at_address, admit, data_command, step, run,
}

-- No two recipients have the same address.
abbrev pub AreDistinct : List Recipient → Type 0
AreDistinct [] = Unit
AreDistinct (r ∷ rs) = (any (is_for (address r)) rs ≡ false) × AreDistinct rs

any-append :
    (p : Recipient → Bool) (rs : List Recipient) (r : Recipient)
    → any p rs ≡ false
    → p r ≡ false
    → any p (rs ++ r ∷ []) ≡ false
any-append p [] r h f = rw f refl
any-append p (q ∷ rs) r h f = ground (arith, any-append p rs r)

is_for_sym : (q r : Recipient) → is_for (address r) q ≡ is_for (address q) r
is_for_sym q r =
    ground (arith, eq_bytes_iff (address q) (address r), eq_bytes_iff (address r) (address q))

append-AreDistinct :
    (rs : List Recipient) (r : Recipient)
    → AreDistinct rs
    → any (is_for (address r)) rs ≡ false
    → AreDistinct (rs ++ r ∷ [])
append-AreDistinct [] r d h = (refl, tt)
append-AreDistinct (q ∷ rs) r d h =
    let same = is_for_sym q r in
    (
      any-append (is_for (address q)) rs r d.0 (ground arith),
      append-AreDistinct rs r d.1 (ground arith),
    )

abbrev pub IsBounded : ℕ → Session → Type 0
IsBounded most s = (length s.recipients ≤ most) × AreDistinct s.recipients

add_recipient-IsBounded :
    (most : ℕ) (s : Session) (r : Recipient)
    → IsBounded most s
    → length s.recipients < most
    → IsBounded most (add_recipient s r)
unfolding add_recipient
add_recipient-IsBounded most s r b room =
    elim (Bool-cases (any (is_for (address r)) s.recipients)) [
      | inl there ↦ rw there b
      | inr new ↦ rw new (
        omega (arith, length-append s.recipients (r ∷ [])),
        append-AreDistinct s.recipients r b.1 new,
      )
    ]

from_address-IsBounded :
    (most : ℕ) (s : Session) (from : Bytes) (x : Result AddressError (Bytes × Bytes))
    → IsBounded most s
    → IsBounded most (from_address s from x).0
from_address-IsBounded most s from (err e) b = b
from_address-IsBounded most s from (ok _) b = b

reset-IsBounded : (most : ℕ) (s : Session) → IsBounded most (reset s)
unfolding reset
reset-IsBounded most s = (omega arith, tt)

mail-IsBounded : (most : ℕ) (s : Session) (from : Bytes) → IsBounded most (mail s from).0
unfolding mail
mail-IsBounded most s from = elim (Bool-cases (is_empty from)) [
  | inl none_given ↦ rw none_given (reset-IsBounded most s)
  | inr given ↦
      rw given
        (from_address-IsBounded most (reset s) from (split_address from) (reset-IsBounded most s))
]

module _ {S : Type 0} (receiver : MailReceiver S) where
  abbrev Keeps : Server S → ℕ → Server S × Session → Type 0
  Keeps v most w = (w.0.cfg ≡ v.cfg) × IsBounded most w.1

  spend_budgets-cfg :
      (v : Server S) (ip : Bytes) (now : ℕ) → (spend_budgets receiver v ip now).0.cfg ≡ v.cfg
  unfolding spend_budgets
  spend_budgets-cfg v ip now = elim (Bool-cases (allow v.provision_per_ip ip now).1) [
    | inl first ↦ rw first refl
    | inr first ↦ rw first refl
  ]

  committed-cfg :
      (v : Server S) (x : S × Result ReceiveError (Unit {0}))
      → (committed receiver v x).0.cfg ≡ v.cfg
  committed-cfg v (state, ok _) = refl
  committed-cfg v (state, err e) = refl

  commit_spooled-cfg :
      (v : Server S) (s : Session) (now : ℕ) (rewinds : Bool) (limit : ℕ) (body : Bytes)
      (n : Result Reply ℕ)
      → (commit_spooled receiver v s now rewinds limit body n).0.cfg ≡ v.cfg
  unfolding commit_spooled
  commit_spooled-cfg v s now rewinds limit body (err reply) = refl
  commit_spooled-cfg v s now rewinds limit body (ok n) =
      ground (arith, committed-cfg v (receiver.commit v.receiver now (message_of s (take n body))))

  data_command-cfg :
      (v : Server S) (s : Session) (now : ℕ) (spool : Spool) (r : DataReader)
      → (data_command receiver v s now spool r).0.cfg ≡ v.cfg
  unfolding data_command
  data_command-cfg v s now spool r =
      let limit = size_limit v.cfg.max_message_bytes v.cfg.max_public_message_bytes s.recipients in
      ground (
        arith,
        commit_spooled-cfg v s now spool.rewinds limit r.bytes (copied spool.writes limit r),
      )

  admit-IsBounded :
      (wanted : Bool) (spent : Server S × Bool) (v : Server S) (s : Session) (r : Recipient)
      → spent.0.cfg ≡ v.cfg
      → IsBounded v.cfg.max_recipients s
      → length s.recipients < v.cfg.max_recipients
      → let w = admit receiver wanted spent v s r in Keeps v v.cfg.max_recipients (w.0, w.1)
  admit-IsBounded false spent v s r e b room =
      (refl, add_recipient-IsBounded v.cfg.max_recipients s r b room)
  admit-IsBounded true (v', true) v s r e b room =
      (e, add_recipient-IsBounded v.cfg.max_recipients s r b room)
  admit-IsBounded true (v', false) v s r e b room = (e, b)

  resolved-IsBounded :
      (v : Server S) (s : Session) (now : ℕ) (x : S × Result ReceiveError Recipient)
      → IsBounded v.cfg.max_recipients s
      → length s.recipients < v.cfg.max_recipients
      → let w = resolved receiver v s now x in Keeps v v.cfg.max_recipients (w.0, w.1)
  resolved-IsBounded v s now (state, err e) b room = (refl, b)
  resolved-IsBounded v s now (state, ok r) b room =
      let v' = record v { receiver = state } in
      admit-IsBounded r.provision (spend_budgets receiver v' s.ip_text now) v' s r
        (spend_budgets-cfg v' s.ip_text now) b room

  at_address-IsBounded :
      (v : Server S) (s : Session) (now : ℕ) (x : Result AddressError (Bytes × Bytes))
      → IsBounded v.cfg.max_recipients s
      → length s.recipients < v.cfg.max_recipients
      → let w = at_address receiver v s now x in Keeps v v.cfg.max_recipients (w.0, w.1)
  at_address-IsBounded v s now (err e) b room = (refl, b)
  at_address-IsBounded v s now (ok (local, domain)) b room =
      resolved-IsBounded v s now (receiver.resolve v.receiver now local domain) b room

  rcpt-IsBounded :
      (v : Server S) (s : Session) (now : ℕ) (to : Bytes)
      → IsBounded v.cfg.max_recipients s
      → let w = rcpt receiver v s now to in Keeps v v.cfg.max_recipients (w.0, w.1)
  unfolding rcpt
  rcpt-IsBounded v s now to b = elim (Bool-cases (leb v.cfg.max_recipients (length s.recipients))) [
    | inl full ↦ rw full (refl, b)
    | inr room ↦ rw room (at_address-IsBounded v s now (split_address to) b (ground arith))
  ]

  step-IsBounded :
      (v : Server S) (s : Session) (c : Command)
      → IsBounded v.cfg.max_recipients s
      → Keeps v v.cfg.max_recipients (step receiver v s c)
  unfolding step
  step-IsBounded v s (mail_from from) b = (refl, mail-IsBounded v.cfg.max_recipients s from)
  step-IsBounded v s (rcpt_to now to) b = rcpt-IsBounded v s now to b
  step-IsBounded v s (data_sent now spool r) b = (data_command-cfg v s now spool r, b)
  step-IsBounded v s rset b = (refl, reset-IsBounded v.cfg.max_recipients s)

  run-IsBounded :
      (most : ℕ) (v : Server S) (s : Session) (calls : List Command)
      → v.cfg.max_recipients ≡ most
      → IsBounded most s
      → IsBounded most (run receiver v s calls).1
  unfolding run
  run-IsBounded most v s [] e b = b
  run-IsBounded most v s (c ∷ cs) e b =
      let kept = step-IsBounded v s c (subst (λ m. IsBounded m s) (sym e) b) in
      run-IsBounded most (step receiver v s c).0 (step receiver v s c).1 cs
        (ap (λ k. k.max_recipients) kept.0 ∙ e)
        (subst (λ m. IsBounded m (step receiver v s c).1) e kept.1)

  -- On a session that begins within the bound, whatever is called on it, there are never more
  -- recipients than the configuration allows, and no two of them have the same address.
  pub recipients-IsBounded :
      (v : Server S) (s : Session) (calls : List Command)
      → IsBounded v.cfg.max_recipients s
      → IsBounded v.cfg.max_recipients (run receiver v s calls).1
  recipients-IsBounded v s calls b = run-IsBounded v.cfg.max_recipients v s calls refl b
