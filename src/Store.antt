-- ===== src/Store.antt =====
-- The database of the SaaS layer: its tables (Store/Schema), sessions (Store/Sql) and the sums over
-- the ledger (Store/Ledger).
pub mod Schema
pub mod Engine
pub mod Sql
pub mod Rules
pub mod Autocommit
pub mod Keeps
pub mod Ledger
