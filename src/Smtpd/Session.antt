-- ===== src/Smtpd/Session.antt =====
-- internal/smtpd/session.go: one SMTP conversation, over any `MailReceiver`. The outcome of a call is
-- `none` where the source returns nil, which the SMTP library answers with 250. Spooling to a file may
-- fail; what the reader of a message gives, and how it ends, is an argument.
pub mod Recipients
pub mod Acceptance
use phenk.Prelude.{
  ℕ, zero, suc, ◌+◌, ◌/◌, ◌%◌, Bool, true, false, not, ◌&&◌, Option, none, some, List, [], ◌∷◌,
  ◌++◌, ltb, leb, if◌then◌else◌, length, is_empty, take, any, Bytes, codes, eq_bytes,
}
use phenk.Prelude.Result.{Result, ok, err}
use phenk.Core.Address.{AddressError, split_address}
use phenk.Core.Domain.{is_public}
use phenk.Crypto.Stream.{Source}
use phenk.Smtpd.Receiver.{
  ReceiveError, unknown_recipient, relay_denied, mailbox_full, Recipient, Message, address,
}
use phenk.Smtpd.Server.{Server, Config}
use phenk.Smtpd.Limits.Tokens.{allow}

-- MailReceiver, over a state of its own
pub record MailReceiver (S : Type 0) : Type 0 where
  pub resolve : S → ℕ → Bytes → Bytes → S × Result ReceiveError Recipient
  pub commit : S → ℕ → Message → S × Result ReceiveError (Unit {0})

pub record Reply : Type 0 where
  pub code : ℕ
  pub enhanced : ℕ × ℕ × ℕ
  pub message : Bytes

abbrev pub reply_no_such_user : Reply
reply_no_such_user = record {
  code = 550;
  enhanced = (5, 1, 1);
  message = codes "No such user here";
}

abbrev pub reply_relay_denied : Reply
reply_relay_denied = record {
  code = 550;
  enhanced = (5, 7, 1);
  message = codes "Relay access denied";
}

abbrev pub reply_mailbox_full : Reply
reply_mailbox_full = record { code = 452; enhanced = (4, 2, 2); message = codes "Mailbox full" }

abbrev pub reply_too_many_recipients : Reply
reply_too_many_recipients = record {
  code = 452;
  enhanced = (4, 5, 3);
  message = codes "Too many recipients";
}

abbrev pub reply_provision_throttled : Reply
reply_provision_throttled = record {
  code = 451;
  enhanced = (4, 7, 1);
  message = codes "Too many new addresses, try again later";
}

-- The digits of a number, by at most so many divisions.
unfoldable pub decimal : ℕ → ℕ → Bytes
decimal zero n = []
decimal (suc fuel) n =
    let higher = decimal fuel (n / 10) in (if ltb n 10 then [] else higher) ++ (b'0' + n % 10) ∷ []

-- A number has no more digits than bits, and the limit fits 64.
abbrev pub reply_too_big : ℕ → Reply
reply_too_big limit = record {
  code = 552;
  enhanced = (5, 3, 4);
  message = codes "Message exceeds the " ++ decimal 64 limit ++ codes " byte limit";
}

abbrev pub reply_temporary : Reply
reply_temporary = record {
  code = 451;
  enhanced = (4, 3, 0);
  message = codes "Temporary failure, try again later";
}

abbrev pub reply_syntax : Bytes → Reply
reply_syntax what = record {
  code = 501;
  enhanced = (5, 1, 3);
  message = codes "Malformed " ++ what;
}

abbrev pub reply_no_valid_recipients : Reply
reply_no_valid_recipients = record {
  code = 554;
  enhanced = (5, 5, 1);
  message = codes "No valid recipients";
}

pub record Session : Type 0 where
  pub client_ip : ℕ
  pub ip_text : Bytes
  pub helo : Bytes
  pub tls : Bool
  pub from : Bytes
  pub recipients : List Recipient

unfoldable pub reset : Session → Session
reset s = record s { from = []; recipients = [] }

abbrev pub from_address :
    Session → Bytes → Result AddressError (Bytes × Bytes) → Session × Option Reply
from_address s from (err e) = (s, some (reply_syntax (codes "sender address")))
from_address s from (ok _) = (record s { from = from }, none)

-- Mail
unfoldable pub mail : Session → Bytes → Session × Option Reply
unfolding reset
mail s from =
    let fresh = reset s in
    if is_empty from then (fresh, none) else from_address fresh from (split_address from)

abbrev pub is_for : Bytes → Recipient → Bool
is_for a r = eq_bytes (address r) a

-- The end of `Rcpt`: a recipient that is there already is not taken twice.
unfoldable pub add_recipient : Session → Recipient → Session
unfolding address
add_recipient s r =
    if any (is_for (address r)) s.recipients
    then s
    else record s { recipients = s.recipients ++ r ∷ [] }

abbrev pub is_for_public : Recipient → Bool
is_for_public r = is_public r.domain.pool

-- `sizeLimit`, from the limit for all and the limit of the public pool
unfoldable pub size_limit : ℕ → ℕ → List Recipient → ℕ
size_limit limit public_limit [] = limit
size_limit limit public_limit (r ∷ rs) =
    let lower = if is_for_public r && ltb public_limit limit then public_limit else limit in
    size_limit lower public_limit rs

-- How the reader of the message ends, when it is read to the end.
pub data Ending : Type 0 where
  ends breaks : Ending
  refuses : Reply → Ending

pub record DataReader : Type 0 where
  pub bytes : Bytes
  pub ending : Ending

abbrev pub at_end : ℕ → Ending → Result Reply ℕ
at_end n ends = ok n
at_end n breaks = err reply_temporary
at_end n (refuses reply) = err reply

-- io.Copy from io.LimitReader(r, limit+1): the number of bytes copied
unfoldable pub copy_limited : ℕ → DataReader → Result Reply ℕ
copy_limited limit r =
    if ltb limit (length r.bytes) then ok (limit + 1) else at_end (length r.bytes) r.ending

-- The temporary file: whether it can be made, every write to it succeeds, and it can be rewound.
pub record Spool : Type 0 where
  pub opens : Bool
  pub writes : Bool
  pub rewinds : Bool

-- io.Copy to the file: the first write that fails ends it.
unfoldable pub copied : Bool → ℕ → DataReader → Result Reply ℕ
unfolding copy_limited
copied writes limit r = if writes then copy_limited limit r else err reply_temporary

unfoldable pub rcpt_reply : ReceiveError → Reply
rcpt_reply unknown_recipient = reply_no_such_user
rcpt_reply relay_denied = reply_relay_denied
rcpt_reply mailbox_full = reply_mailbox_full
rcpt_reply e = reply_temporary

unfoldable pub data_reply : ReceiveError → Reply
data_reply unknown_recipient = reply_no_such_user
data_reply mailbox_full = reply_mailbox_full
data_reply e = reply_temporary

-- The message of a session, of the bytes that were spooled.
abbrev pub message_of : Session → Bytes → Message
message_of s body = record {
  envelope_from = s.from;
  client_ip = s.client_ip;
  helo = s.helo;
  tls = s.tls;
  body = record { bytes = body; fails = false };
  recipients = s.recipients;
}

module _ {S : Type 0} (receiver : MailReceiver S) where
  -- The budgets that a recipient to be provisioned spends.
  unfoldable pub spend_budgets : Server S → Bytes → ℕ → Server S × Bool
  unfolding allow
  spend_budgets v ip now =
      let (per_ip, first) = allow v.provision_per_ip ip now in
      let (global, second) = allow v.provision_global (codes "global") now in
      if first
      then (record v { provision_per_ip = per_ip; provision_global = global }, second)
      else (record v { provision_per_ip = per_ip }, false)

  -- By whether the address is to be provisioned, and what its budgets answer.
  abbrev pub admit :
      Bool → Server S × Bool → Server S → Session → Recipient → Server S × Session × Option Reply
  admit false spent v s r = (v, add_recipient s r, none)
  admit true (v', true) v s r = (v', add_recipient s r, none)
  admit true (v', false) v s r = (v', s, some reply_provision_throttled)

  abbrev pub take_recipient : Server S → Session → ℕ → Recipient → Server S × Session × Option Reply
  take_recipient v s now r = admit r.provision (spend_budgets v s.ip_text now) v s r

  abbrev pub resolved :
      Server S → Session → ℕ → S × Result ReceiveError Recipient → Server S × Session × Option Reply
  resolved v s now (state, err e) = (record v { receiver = state }, s, some (rcpt_reply e))
  resolved v s now (state, ok r) = take_recipient (record v { receiver = state }) s now r

  abbrev pub at_address :
      Server S
      → Session
      → ℕ
      → Result AddressError (Bytes × Bytes)
      → Server S × Session × Option Reply
  at_address v s now (err e) = (v, s, some (reply_syntax (codes "recipient address")))
  at_address v s now (ok (local, domain)) =
      resolved v s now (receiver.resolve v.receiver now local domain)

  -- Rcpt
  unfoldable pub rcpt : Server S → Session → ℕ → Bytes → Server S × Session × Option Reply
  unfolding spend_budgets add_recipient rcpt_reply
  rcpt v s now to =
      if leb v.cfg.max_recipients (length s.recipients)
      then (v, s, some reply_too_many_recipients)
      else at_address v s now (split_address to)

  abbrev pub committed : Server S → S × Result ReceiveError (Unit {0}) → Server S × Option Reply
  committed v (state, ok _) = (record v { receiver = state }, none)
  committed v (state, err e) = (record v { receiver = state }, some (data_reply e))

  -- What `Data` does with the number of bytes that it has spooled.
  unfoldable pub commit_spooled :
      Server S → Session → ℕ → Bool → ℕ → Bytes → Result Reply ℕ → Server S × Option Reply
  unfolding data_reply
  commit_spooled v s now rewinds limit body (err reply) = (v, some reply)
  commit_spooled v s now rewinds limit body (ok size) =
      if ltb limit size
      then (v, some (reply_too_big limit))
      else if not rewinds
      then (v, some reply_temporary)
      else committed v (receiver.commit v.receiver now (message_of s (take size body)))

  -- Data
  unfoldable pub data_command :
      Server S → Session → ℕ → Spool → DataReader → Server S × Option Reply
  unfolding commit_spooled copied size_limit
  data_command v s now spool r =
      let limit = size_limit v.cfg.max_message_bytes v.cfg.max_public_message_bytes s.recipients in
      if is_empty s.from && is_empty s.recipients
      then (v, some (reply_syntax (codes "transaction")))
      else if is_empty s.recipients
      then (v, some reply_no_valid_recipients)
      else if not spool.opens
      then (v, some reply_temporary)
      else commit_spooled v s now spool.rewinds limit r.bytes (copied spool.writes limit r)

-- The calls that the SMTP library makes on a session, with the time of each.
pub data Command : Type 0 where
  mail_from : Bytes → Command
  rcpt_to : ℕ → Bytes → Command
  data_sent : ℕ → Spool → DataReader → Command
  rset : Command

module _ {S : Type 0} (receiver : MailReceiver S) where
  unfoldable pub step : Server S → Session → Command → Server S × Session
  unfolding mail rcpt data_command reset
  step v s (mail_from from) = (v, (mail s from).0)
  step v s (rcpt_to now to) = let (v', s', reply) = rcpt receiver v s now to in (v', s')
  step v s (data_sent now spool r) = ((data_command receiver v s now spool r).0, s)
  step v s rset = (v, reset s)

  unfoldable pub run : Server S → Session → List Command → Server S × Session
  unfolding step
  run v s [] = (v, s)
  run v s (c ∷ cs) = let (v', s') = step v s c in run v' s' cs
