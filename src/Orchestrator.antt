-- ===== src/Orchestrator.antt =====
-- src/orchestrator: starting and stopping the nodes of a workspace.
pub mod Order
pub mod Closure
pub mod Outcomes
mod Examples
