-- ===== src/Reducer.antt =====
-- src/reducer/mod.rs: the dispatch of an action to the request or the report reducer. The proofs
-- are in the children.
pub mod Base
pub mod Request
pub mod Report
pub mod Views
pub mod Frame
pub mod Gate
pub mod Settle
pub mod Invariant
pub mod Examples
use fghj.Prelude.{some}
use fghj.State.Workspace.{WorkspaceState}
use fghj.Action.{
  Action, env_planned, node_start_requested, node_stop_requested, node_debug_wait_requested,
  node_delete_requested, container_observed, container_action_settled, env_create_settled,
  env_create_progress, sidecar_restored, env_create_working, volume_observed, config_drift_observed,
  owner_set,
}
use Base.{Outcome, accepted}
use Request
use Report

unfoldable pub reduce : WorkspaceState → Action → Outcome
reduce s (env_planned plan) = Request.reduce s (env_planned plan)
reduce s (node_start_requested n) = Request.reduce s (node_start_requested n)
reduce s (node_stop_requested n) = Request.reduce s (node_stop_requested n)
reduce s (node_delete_requested n) = Request.reduce s (node_delete_requested n)
reduce s (node_debug_wait_requested n w) = Request.reduce s (node_debug_wait_requested n w)
reduce s (owner_set owner) = accepted (record s { owner = some owner })
reduce s a = Report.reduce s a
