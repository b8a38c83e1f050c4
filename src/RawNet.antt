-- ===== src/RawNet.antt =====
-- src/raw_net: the virtual addresses under which raw ports are reached, and the routes to them.
pub mod Assign
