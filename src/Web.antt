-- ===== src/Web.antt =====
-- src/web: what the proxy records.
pub mod Traffic
pub mod Capture
