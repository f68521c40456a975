-- ===== src/Examples/Session.antt =====
-- internal/smtpd/session.go: the theorems at concrete inputs.
use phenk.Prelude.{ℕ, ◌+◌, ◌≡◌, ◌↔◌, true, false, none, List, [], ◌∷◌, arith, Bytes, codes}
use phenk.Prelude.Result.{ok}
use phenk.Core.Domain.{Domain, public, active}
use phenk.Smtpd.Receiver.{Recipient}
use phenk.Smtpd.Server.{Server, Config, new_with_receiver}
use phenk.Smtpd.Session.{
  run, MailReceiver, Session, Command, mail_from, rcpt_to, Spool, DataReader, ends, data_command,
}
use phenk.Smtpd.Session.Recipients.{IsBounded, recipients-IsBounded}
use phenk.Smtpd.Session.Acceptance.{IsAccepted, data_accepts_iff}

abbrev a_domain : Domain
a_domain = record {
  id = 1;
  name = codes "phenk.io";
  state = active;
  pool = public;
  created_at = 0;
  burned_at = none;
}

abbrev a_recipient : Bytes → Recipient
a_recipient local = record {
  local_part = local;
  domain = a_domain;
  identity = none;
  provision = true;
}

-- A receiver that takes everyone and counts what it commits.
abbrev open_receiver : MailReceiver ℕ
open_receiver = record {
  resolve = λ s now local domain. (s, ok (a_recipient local));
  commit = λ s now msg. (s + 1, ok tt);
}

abbrev a_config : Config
a_config = record {
  hostname = [];
  max_message_bytes = 10;
  max_public_message_bytes = 4;
  max_recipients = 2;
  max_connections_per_ip = 0;
  idle_timeout = 0;
  resolve_cache_ttl = 0;
  provisions_per_ip_hour = 0;
  global_provisions_hour = 0;
}

abbrev a_server : Server ℕ
a_server = new_with_receiver a_config 0

abbrev a_session : List Recipient → Session
a_session rs = record {
  client_ip = 9;
  ip_text = codes "9";
  helo = [];
  tls = false;
  from = codes "x@y";
  recipients = rs;
}

abbrev some_commands : List Command
some_commands =
    mail_from (codes "x@y")
    ∷ rcpt_to 5 (codes "a@phenk.io")
    ∷ rcpt_to 5 (codes "A@phenk.io")
    ∷ rcpt_to 6 (codes "b@phenk.io")
    ∷ rcpt_to 6 (codes "c@phenk.io")
    ∷ []

recipients-IsBounded_example :
    IsBounded a_server.cfg.max_recipients
      (run open_receiver a_server (a_session []) some_commands).1
recipients-IsBounded_example =
    recipients-IsBounded open_receiver a_server (a_session []) some_commands (omega arith, tt)

abbrev a_reader : DataReader
a_reader = record { bytes = 1 ∷ 2 ∷ 3 ∷ []; ending = ends }

abbrev a_spool : Spool
a_spool = record { opens = true; writes = true; rewinds = true }

data_accepts_iff_example :
    ((data_command open_receiver a_server
        (a_session (a_recipient (codes "a") ∷ []))
        5
        a_spool
        a_reader).1
      ≡ none)
    ↔ ((a_spool.opens ≡ true)
        × (a_spool.writes ≡ true)
        × (a_spool.rewinds ≡ true)
        × IsAccepted open_receiver a_server (a_session (a_recipient (codes "a") ∷ [])) 5 a_reader)
data_accepts_iff_example =
    data_accepts_iff open_receiver a_server (a_session (a_recipient (codes "a") ∷ [])) 5 a_spool
      a_reader
