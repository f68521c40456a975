-- ===== src/Smtpd.antt =====
-- internal/smtpd: the inbound SMTP listener.
pub mod Limits
pub mod Cache
pub mod Receiver
pub mod Server
pub mod Session
