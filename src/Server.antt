-- ===== src/Server.antt =====
-- internal/server: what the proxy keeps in memory about its upstream accounts.
pub mod Health
pub mod Sticky
