-- ===== src/Dns.antt =====
-- src/dns/mod.rs: the name server of the daemon and of the sidecar.
pub mod Utf8
pub mod Message
pub mod Zone
mod Examples
