-- ===== src/Core.antt =====
-- internal/core: addresses, identities, domains and identifiers.
pub mod Address
pub mod Domain
pub mod Identity
pub mod Message
pub mod Uuid
