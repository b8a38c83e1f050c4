-- ===== src/Reducer/Views.antt =====
-- Projections of a workspace state that the statements about the reducer read.
use fghj.Prelude.{String, Bool, true, false, Option, none, some, [], str_eq}
use fghj.Prelude.BTreeMap.{BTreeMap, get}
use fghj.State.Container.{ContainerInfo, PendingAction}
use fghj.State.Workspace.{WorkspaceState, EnvSpec}
use fghj.Action.{
  Action, env_planned, node_start_requested, node_stop_requested, node_debug_wait_requested,
  node_delete_requested, container_observed, container_action_settled, env_create_settled,
  env_create_progress, sidecar_restored, env_create_working, volume_observed, config_drift_observed,
  owner_set,
}

abbrev pub container_of : WorkspaceState → String → Option ContainerInfo
container_of s j = elim s.env [ none ↦ none | some run ↦ get j run.containers ]

abbrev pub containers_of : WorkspaceState → BTreeMap ContainerInfo
containers_of s = elim s.env [ none ↦ [] | some run ↦ run.containers ]

abbrev pub pending_create_of : WorkspaceState → Option EnvSpec
pending_create_of s = elim s.env [ none ↦ none | some run ↦ run.pending_create ]

abbrev pub pending_at : WorkspaceState → String → Option PendingAction
pending_at s j = elim (container_of s j) [ none ↦ none | some c ↦ c.pending_action ]

-- Whether an action can be about node `j`. The end of a create is about every node.
abbrev pub concerns : Action → String → Bool
concerns (env_planned plan) j = false
concerns (node_start_requested n) j = str_eq n j
concerns (node_stop_requested n) j = str_eq n j
concerns (node_debug_wait_requested n _) j = str_eq n j
concerns (node_delete_requested n) j = str_eq n j
concerns (container_observed n _ _ _ _ _ _) j = str_eq n j
concerns (container_action_settled n _ _) j = str_eq n j
concerns (env_create_settled _) j = true
concerns (env_create_progress _ _ _ info) j = str_eq info.node_id j
concerns (sidecar_restored _) j = false
concerns (env_create_working n _) j = str_eq n j
concerns (volume_observed _ _) j = false
concerns (config_drift_observed n _ _) j = str_eq n j
concerns (owner_set _) j = false
