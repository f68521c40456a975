-- ===== src/Crypto.antt =====
-- internal/crypto: keys and what is sealed under them. The cipher (AES-GCM of the standard library)
-- is a parameter, `Aead`.
pub mod Aead
pub mod Keys
pub mod Keyring
pub mod Stream
