-- ===== src/Smtpd/Limits.antt =====
-- internal/smtpd/limits.go: the connection cap for each source and the token buckets.
pub mod Connections
pub mod Tokens
