-- ===== src/State.antt =====
-- src/state: the workspace state that the reducer owns. The types are in `Container` and
-- `Workspace`; `Query` has the projections over all workspaces.
pub mod Container
pub mod Condition
pub mod Workspace
pub mod Query
mod Examples
