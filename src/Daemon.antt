-- ===== src/Daemon.antt =====
-- src/daemon: what the daemon does by itself about the containers that it watches.
pub mod Heal
