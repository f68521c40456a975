-- ===== src/Smtpd/Server.antt =====
-- internal/smtpd/server.go: the listener's configuration and its state. A setting that is not
-- positive is 0. The connections and TLS of the SMTP library are left out.
use phenk.Prelude.{ℕ, ◌*◌, ◌^◌, ◌||◌, ltb, ◌==◌, if◌then◌else◌, is_empty, Bytes, codes}
use phenk.Smtpd.Limits.Tokens.{RateLimiter, new_rate_limiter, second}
use phenk.Smtpd.Limits.Connections.{ConnectionLimiter, new_connection_limiter}

pub record Config : Type 0 where
  pub hostname : Bytes
  pub max_message_bytes : ℕ
  pub max_public_message_bytes : ℕ
  pub max_recipients : ℕ
  pub max_connections_per_ip : ℕ
  pub idle_timeout : ℕ
  pub resolve_cache_ttl : ℕ
  pub provisions_per_ip_hour : ℕ
  pub global_provisions_hour : ℕ

abbrev or_default : ℕ → ℕ → ℕ
or_default d n = if n == 0 then d else n

-- Config.withDefaults
unfoldable pub with_defaults : Config → Config
with_defaults c =
    let bytes = or_default (25 * 2 ^ 20) c.max_message_bytes in
    record {
      hostname = if is_empty c.hostname then codes "localhost" else c.hostname;
      max_message_bytes = bytes;
      max_public_message_bytes =
          if c.max_public_message_bytes == 0 || ltb bytes c.max_public_message_bytes
          then bytes
          else c.max_public_message_bytes;
      max_recipients = or_default 10 c.max_recipients;
      max_connections_per_ip = or_default 10 c.max_connections_per_ip;
      idle_timeout = or_default (30 * second) c.idle_timeout;
      resolve_cache_ttl = or_default (2 * second) c.resolve_cache_ttl;
      provisions_per_ip_hour = or_default 20 c.provisions_per_ip_hour;
      global_provisions_hour = or_default 5000 c.global_provisions_hour;
    }

pub record Server (S : Type 0) : Type 0 where
  pub cfg : Config
  pub receiver : S
  pub connections : ConnectionLimiter
  pub provision_per_ip : RateLimiter
  pub provision_global : RateLimiter

-- newWithReceiver
unfoldable pub new_with_receiver : {S : Type 0} → Config → S → Server S
unfolding with_defaults new_rate_limiter new_connection_limiter
new_with_receiver c receiver =
    let cfg = with_defaults c in
    record {
      cfg = cfg;
      receiver = receiver;
      connections = new_connection_limiter cfg.max_connections_per_ip;
      provision_per_ip = new_rate_limiter cfg.provisions_per_ip_hour (3600 * second);
      provision_global = new_rate_limiter cfg.global_provisions_hour (3600 * second);
    }
