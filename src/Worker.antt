-- ===== src/Worker.antt =====
-- internal/worker: the background jobs.
pub mod Lifecycle
pub mod Parse
