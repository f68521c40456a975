-- ===== src/Examples.antt =====
-- The theorems at concrete inputs.
mod Core
mod Limits
mod Cache
mod Receiver
mod Session
mod Crypto
mod Jobs
mod History
mod Extract
mod Parse
mod Api
mod Events
mod Stream
