-- ===== src/Action.antt =====
-- src/action.rs: every way a workspace's state can change, and why a request is refused.
use fghj.Prelude.{ℕ, String, Bool, true, false, Option, ℤ, Result}
use fghj.Prelude.BTreeMap.{BTreeMap}
use fghj.State.Container.{ContainerInfo, ContainerObserved, PendingAction, SyncStatus}
use fghj.State.Workspace.{EnvCreateError, EnvSpec, EnvState, WorkspaceOwner}

-- The arguments are the source's fields, in its order.
pub data Action : Type 0 where
  env_planned : (plan : EnvSpec) → Action
  node_start_requested : (node_id : String) → Action
  node_stop_requested : (node_id : String) → Action
  node_debug_wait_requested : (node_id : String) (wait : Bool) → Action
  node_delete_requested : (node_id : String) → Action
  container_observed :
      (node_id status : String) (published_port : Option ℕ) (ports : BTreeMap (Option ℕ))
      (exit_code : Option ℤ) (unseen : Bool) (based_on : ContainerObserved)
      → Action
  container_action_settled :
      (node_id : String) (of : Option PendingAction) (result : Result (Option ContainerInfo) String)
      → Action
  env_create_settled : (result : Result EnvState EnvCreateError) → Action
  env_create_progress :
      (network sidecar_container_name : String) (sidecar_ip : Option String) (info : ContainerInfo)
      → Action
  sidecar_restored : (sidecar_ip : String) → Action
  env_create_working : (node_id : String) (action : Option PendingAction) → Action
  volume_observed : (volume_name : String) (exists : Bool) → Action
  config_drift_observed : (node_id : String) (drift : SyncStatus) (seeded : Option Bool) → Action
  owner_set : (owner : WorkspaceOwner) → Action

pub data ActionRejected : Type 0 where
  already_in_flight no_environment node_not_found : ActionRejected

-- The two kinds that the documentation of the type tells apart: a report is never refused.
abbrev pub is_report : Action → Bool
is_report (container_observed _ _ _ _ _ _ _) = true
is_report (container_action_settled _ _ _) = true
is_report (env_create_settled _) = true
is_report (env_create_progress _ _ _ _) = true
is_report (sidecar_restored _) = true
is_report (env_create_working _ _) = true
is_report (volume_observed _ _) = true
is_report (config_drift_observed _ _ _) = true
is_report _ = false

-- The `Display` of a refusal.
unfoldable pub rejection_text : ActionRejected → String
rejection_text already_in_flight = "an action is already in flight"
rejection_text no_environment = "no environment yet"
rejection_text node_not_found = "no such node"
