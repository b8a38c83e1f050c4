-- ===== src/Reducer/Report.antt =====
-- src/reducer/observation.rs: reports, which are never refused.
use fghj.Prelude.{
  ℕ, String, Bool, true, false, Option, none, some, ℤ, Result, ok, err, is_some, not, ◌||◌, ◌&&◌,
  ◌==◌, eq_Option, if◌then◌else◌,
}
use fghj.Prelude.BTreeMap.{BTreeMap, get, insert, remove, retain, map_values}
use fghj.State.Container.{
  ContainerInfo, ContainerObserved, PendingAction, SyncStatus, same_reading, settle_interruption,
  eq_PendingAction, is_placeholder,
}
use fghj.State.Workspace.{EnvCreateError, EnvState, WorkspaceState, VolumeInfo}
use fghj.Action.{
  Action, container_observed, container_action_settled, env_create_settled, env_create_progress,
  sidecar_restored, env_create_working, volume_observed, config_drift_observed,
}
use fghj.Reducer.Base.{Outcome, accepted, panicked, with_env, with_container, starting_placeholder}

-- The reading that a container keeps, unless the report is stale.
unfoldable pub take_reading :
    ContainerObserved
    → String
    → Option ℕ
    → BTreeMap (Option ℕ)
    → Option ℤ
    → Bool
    → ContainerObserved
unfolding settle_interruption
take_reading observed status published_port ports exit_code unseen =
    if unseen
    then record observed { unseen = true }
    else settle_interruption observed.unseen (record observed {
      unseen = false;
      status = status;
      published_port = published_port;
      ports = ports;
      exit_code = exit_code;
    })

-- Older than what is held, or an action is under way that will record its own result.
unfoldable pub is_stale : ContainerInfo → ContainerObserved → Bool
is_stale c based_on = is_some c.pending_action || not (same_reading c.observed based_on)

unfoldable pub observe :
    WorkspaceState
    → String
    → String
    → Option ℕ
    → BTreeMap (Option ℕ)
    → Option ℤ
    → Bool
    → ContainerObserved
    → WorkspaceState
unfolding is_stale
observe s node_id status published_port ports exit_code unseen based_on = elim s.env [
  | none ↦ s
  | some run ↦ elim (get node_id run.containers) [
    | none ↦ s
    | some c ↦
        if is_stale c based_on
        then s
        else with_env s (
            with_container run node_id (record c {
              observed = take_reading c.observed status published_port ports exit_code unseen;
            }))
  ]
]

abbrev pub pending_of : EnvState → String → Option PendingAction
pending_of run node_id = elim (get node_id run.containers) [
  | none ↦ none
  | some c ↦ c.pending_action
]

abbrev pub clear_pending : ContainerInfo → ContainerInfo
clear_pending c = record c { pending_action = none }

-- The `match` on a settled action's result.
abbrev pub apply_settled : EnvState → String → Result (Option ContainerInfo) String → EnvState
apply_settled run node_id (ok (some info)) = with_container run node_id (clear_pending info)
apply_settled run node_id (ok none) = record run { containers = remove node_id run.containers }
apply_settled run node_id (err _) = elim (get node_id run.containers) [
  | none ↦ run
  | some c ↦ with_container run node_id (clear_pending c)
]

unfoldable pub settle_action :
    WorkspaceState
    → String
    → Option PendingAction
    → Result (Option ContainerInfo) String
    → WorkspaceState
settle_action s node_id of result = elim s.env [
  | none ↦ s
  | some run ↦
      if is_some of && not (of == pending_of run node_id)
      then s
      else with_env s (apply_settled run node_id result)
]

unfoldable pub clear_create_marks : EnvState → EnvState
clear_create_marks run = record run {
  pending_create = none;
  containers = map_values clear_pending (retain (λ c. not (is_placeholder c)) run.containers);
}

-- The environment after a create, given the one that `EnvPlanned` made.
abbrev pub created : EnvState → Result EnvState EnvCreateError → EnvState
created run (ok next) = clear_create_marks next
created run (err e) = elim e.partial [
  | none ↦ clear_create_marks run
  | some next ↦ clear_create_marks next
]

unfoldable pub settle_create : WorkspaceState → Result EnvState EnvCreateError → WorkspaceState
settle_create s result = elim s.env [ none ↦ s | some run ↦ with_env s (created run result) ]

abbrev pub mark_working : EnvState → String → Option PendingAction → Option ContainerInfo → EnvState
mark_working run node_id (some action) (some c) =
    with_container run node_id (record c { pending_action = some action })
mark_working run node_id (some action) none =
    with_container run node_id (starting_placeholder node_id)
mark_working run node_id none (some c) =
    if is_placeholder c
    then record run { containers = remove node_id run.containers }
    else with_container run node_id (clear_pending c)
mark_working run node_id none none = run

unfoldable pub create_working : WorkspaceState → String → Option PendingAction → WorkspaceState
create_working s node_id action = elim s.env [
  | none ↦ s
  | some run ↦ with_env s (mark_working run node_id action (get node_id run.containers))
]

unfoldable pub create_progress :
    WorkspaceState → String → String → Option String → ContainerInfo → WorkspaceState
create_progress s network sidecar_container_name sidecar_ip info = elim s.env [
  | none ↦ s
  | some run ↦ with_env s (record run {
    network = network;
    sidecar_container_name = sidecar_container_name;
    sidecar_ip = sidecar_ip;
    containers = insert info.node_id (clear_pending info) run.containers;
  })
]

unfoldable pub restore_sidecar : WorkspaceState → String → WorkspaceState
restore_sidecar s sidecar_ip = elim s.env [
  | none ↦ s
  | some run ↦ with_env s (record run { sidecar_ip = some sidecar_ip })
]

-- `entry(volume_name).or_insert_with(..).observed.exists = exists`.
abbrev pub seen_volume : String → Bool → Option VolumeInfo → VolumeInfo
seen_volume name exists none = record {
  desired = record { name = name };
  observed = record { exists = exists };
}
seen_volume name exists (some v) = record v { observed = record { exists = exists } }

unfoldable pub observe_volume : WorkspaceState → String → Bool → WorkspaceState
observe_volume s name exists = elim s.env [
  | none ↦ s
  | some run ↦ with_env s (record run {
    volumes = insert name (seen_volume name exists (get name run.volumes)) run.volumes;
  })
]

unfoldable pub observe_drift : WorkspaceState → String → SyncStatus → Option Bool → WorkspaceState
observe_drift s node_id drift seeded = elim s.env [
  | none ↦ s
  | some run ↦ elim (get node_id run.containers) [
    | none ↦ s
    | some c ↦ with_env s (
        with_container run node_id
          (record c { observed = record c.observed { sync = drift; seeded = seeded } }))
  ]
]

unfoldable pub reduce : WorkspaceState → Action → Outcome
reduce s (container_observed n status port ports exit unseen based_on) =
    accepted (observe s n status port ports exit unseen based_on)
reduce s (container_action_settled n of result) = accepted (settle_action s n of result)
reduce s (env_create_settled result) = accepted (settle_create s result)
reduce s (env_create_working n action) = accepted (create_working s n action)
reduce s (env_create_progress network name ip info) =
    accepted (create_progress s network name ip info)
reduce s (sidecar_restored ip) = accepted (restore_sidecar s ip)
reduce s (volume_observed name exists) = accepted (observe_volume s name exists)
reduce s (config_drift_observed n drift seeded) = accepted (observe_drift s n drift seeded)
reduce s _ = panicked
