-- ===== src/Resolver.antt =====
-- src/resolver: from the checkouts of a workspace to its graph.
pub mod Warning
pub mod Name
pub mod Config
pub mod Graph
pub mod Search
pub mod Closure
pub mod Cycles
pub mod Uniqueness
pub mod Examples
