-- ===== src/Store.antt =====
-- internal/store/pg: the tables and the statements on them. A statement of SQL is read as the
-- function on the tables that it denotes, with the constraints of migrations/0001_init.sql; the
-- rows of a table stand in the order of their insertion. A transaction is a function of the tables
-- that fails or returns new ones (db.go: `InTx` commits the new tables or leaves the old ones).
-- Failures of the connection to the database are not modelled.
pub mod Tables
pub mod Domains
pub mod Identities
pub mod Deliveries
pub mod Parsed
pub mod Blobs
pub mod Files
pub mod Events
pub mod Lifecycle
pub mod Respect
pub mod Rows
