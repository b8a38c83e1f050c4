-- ===== src/Reducer/Frame.antt =====
-- What an action leaves alone.
use fghj.Prelude.{String, true, false, ◌≡◌, ◌≢◌, refl, arith}
use fghj.Prelude.BTreeMap.{get-nil, get-insert, get-remove}
use fghj.State.Container.{ContainerInfo}
use fghj.State.Workspace.{WorkspaceState}
use fghj.Action.{
  Action, is_report, env_planned, node_start_requested, node_stop_requested,
  node_debug_wait_requested, node_delete_requested, container_observed, container_action_settled,
  env_create_settled, env_create_progress, sidecar_restored, env_create_working, volume_observed,
  config_drift_observed, owner_set,
}
use fghj.Reducer.{reduce}
use fghj.Reducer.Base.{accepted, panicked}
use fghj.Reducer.Request
use fghj.Reducer.Request.{plan_env, set_debug_wait, start_node, set_pending}
use fghj.Reducer.Report
use fghj.Reducer.Report.{
  observe, settle_action, settle_create, create_working, create_progress, restore_sidecar,
  observe_volume, observe_drift,
}
use fghj.Reducer.Views.{container_of, concerns}

-- No action makes the reducer panic.
pub reduce-ne-panicked : (s : WorkspaceState) (a : Action) → reduce s a ≢ panicked
unfolding reduce Request.reduce Report.reduce plan_env set_debug_wait start_node set_pending
reduce-ne-panicked s (env_planned plan) = ground arith
reduce-ne-panicked s (node_stop_requested n) = ground arith
reduce-ne-panicked s _ = ground arith

-- A report is accepted in every state.
pub reduce-report :
    (s : WorkspaceState) (a : Action)
    → is_report a ≡ true
    → (t : WorkspaceState) × (reduce s a ≡ accepted t)
unfolding reduce Report.reduce
reduce-report s (container_observed _ _ _ _ _ _ _) h = (_, refl)
reduce-report s (container_action_settled _ _ _) h = (_, refl)
reduce-report s (env_create_settled _) h = (_, refl)
reduce-report s (env_create_progress _ _ _ _) h = (_, refl)
reduce-report s (sidecar_restored _) h = (_, refl)
reduce-report s (env_create_working _ _) h = (_, refl)
reduce-report s (volume_observed _ _) h = (_, refl)
reduce-report s (config_drift_observed _ _ _) h = (_, refl)
reduce-report s _ h = cc

-- An action about other nodes leaves the container of node `j` as it is.
pub reduce-frame :
    (s t : WorkspaceState) (a : Action) (j : String)
    → concerns a j ≡ false
    → reduce s a ≡ accepted t
    → container_of t j ≡ container_of s j
unfolding reduce Request.reduce Report.reduce plan_env set_debug_wait start_node set_pending observe
    settle_action settle_create create_working create_progress restore_sidecar observe_volume
    observe_drift
reduce-frame s t (env_planned plan) j h e = ground (arith, get-nil {V = ContainerInfo} j)
reduce-frame s t (node_start_requested n) j h e = grind (arith, get-nil, get-insert, get-remove)
reduce-frame s t (node_stop_requested n) j h e = grind (arith, get-nil, get-insert, get-remove)
reduce-frame s t (node_debug_wait_requested n w) j h e =
    grind (arith, get-nil, get-insert, get-remove)
reduce-frame s t (node_delete_requested n) j h e = grind (arith, get-nil, get-insert, get-remove)
reduce-frame s t (container_observed n a1 a2 a3 a4 a5 a6) j h e =
    grind (arith, get-nil, get-insert, get-remove)
reduce-frame s t (container_action_settled n of r) j h e =
    grind (arith, get-nil, get-insert, get-remove)
reduce-frame s t (env_create_settled r) j h e = cc
reduce-frame s t (env_create_progress a1 a2 a3 info) j h e = grind (arith, get-insert)
reduce-frame s t (sidecar_restored ip) j h e = ground arith
reduce-frame s t (env_create_working n p) j h e = grind (arith, get-nil, get-insert, get-remove)
reduce-frame s t (volume_observed v x) j h e = ground arith
reduce-frame s t (config_drift_observed n d x) j h e =
    grind (arith, get-nil, get-insert, get-remove)
reduce-frame s t (owner_set o) j h e = ground arith
