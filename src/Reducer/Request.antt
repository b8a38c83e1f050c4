-- ===== src/Reducer/Request.antt =====
-- src/reducer/env.rs: requests, which the state can refuse.
use fghj.Prelude.{
  String, Bool, true, false, Option, none, some, Result, ok, err, ◌>>=◌, is_some, if◌then◌else◌,
}
use fghj.Prelude.BTreeMap.{get, remove}
use fghj.State.Container.{
  ContainerInfo, PendingAction, starting, stopping, removing, is_placeholder,
}
use fghj.State.Workspace.{EnvSpec, EnvState, WorkspaceState, empty_env}
use fghj.Action.{
  Action, env_planned, node_start_requested, node_stop_requested, node_debug_wait_requested,
  node_delete_requested, ActionRejected, already_in_flight, no_environment, node_not_found,
}
use fghj.Reducer.Base.{Outcome, panicked, outcome, with_env, with_container, starting_placeholder}

-- `Option::ok_or`.
abbrev pub ok_or : {A : Type 0} → Option A → ActionRejected → Result A ActionRejected
ok_or none e = err e
ok_or (some a) e = ok a

abbrev pub plan_on : WorkspaceState → EnvState → EnvSpec → Result WorkspaceState ActionRejected
plan_on s run plan =
    if is_some run.pending_create
    then err already_in_flight
    else ok (with_env s (record run { pending_create = some plan }))

-- The cases of `next.env.get_or_insert_with(EnvState::default)`.
unfoldable pub plan_env : WorkspaceState → EnvSpec → Result WorkspaceState ActionRejected
plan_env s plan = elim s.env [ none ↦ plan_on s empty_env plan | some run ↦ plan_on s run plan ]

unfoldable pub lookup_mut :
    WorkspaceState → String → Result (EnvState × ContainerInfo) ActionRejected
lookup_mut s node_id = elim s.env [
  | none ↦ err no_environment
  | some run ↦
      if is_some run.pending_create
      then err already_in_flight
      else elim (get node_id run.containers) [ none ↦ err node_not_found | some c ↦ ok (run, c) ]
]

unfoldable pub set_debug_wait :
    WorkspaceState → String → Bool → Result WorkspaceState ActionRejected
set_debug_wait s node_id wait = do
  run ← ok_or s.env no_environment
  c ← ok_or (get node_id run.containers) node_not_found
  if is_some c.pending_action
      then err already_in_flight
      else ok (
          with_env s (
            with_container run node_id (record c {
              desired = record c.desired { debug_wait = wait; running = true };
              pending_action = some starting;
            })))

abbrev pub begin_start :
    WorkspaceState → EnvState → String → Option ContainerInfo → Result WorkspaceState ActionRejected
begin_start s run node_id none =
    ok (with_env s (with_container run node_id (starting_placeholder node_id)))
begin_start s run node_id (some c) =
    if is_some c.pending_action
    then err already_in_flight
    else ok (
        with_env s (
          with_container run node_id (record c {
            desired = record c.desired { running = true };
            pending_action = some starting;
          })))

unfoldable pub start_node : WorkspaceState → String → Result WorkspaceState ActionRejected
start_node s node_id = elim s.env [
  | none ↦ ok (with_env s (record empty_env { pending_create = some (EnvSpec.node node_id) }))
  | some run ↦
      if is_some run.pending_create
      then err already_in_flight
      else begin_start s run node_id (get node_id run.containers)
]

-- The end of `set_pending`, after its `match`.
abbrev pub mark_pending :
    WorkspaceState → EnvState → String → ContainerInfo → PendingAction → Bool → WorkspaceState
mark_pending s run node_id c pending desired_running = with_env s (
    with_container run node_id (record c {
      desired = record c.desired { running = desired_running };
      pending_action = some pending;
    }))

-- Its `match` on the container's pending action.
abbrev pub take_over :
    WorkspaceState
    → EnvState
    → String
    → ContainerInfo
    → PendingAction
    → Bool
    → Option PendingAction
    → Result WorkspaceState ActionRejected
take_over s run node_id c pending desired_running none =
    ok (mark_pending s run node_id c pending desired_running)
take_over s run node_id c pending desired_running (some starting) =
    if is_placeholder c
    then ok (with_env s (record run { containers = remove node_id run.containers }))
    else ok (mark_pending s run node_id c pending desired_running)
take_over s run node_id c pending desired_running (some _) = err already_in_flight

unfoldable pub set_pending :
    WorkspaceState → String → PendingAction → Bool → Result WorkspaceState ActionRejected
unfolding lookup_mut
set_pending s node_id pending desired_running = do
  (run, c) ← lookup_mut s node_id
  take_over s run node_id c pending desired_running c.pending_action

-- What a delete keeps as `desired.running`.
unfoldable pub desired_running : WorkspaceState → String → Bool
desired_running s node_id = elim s.env [
  | none ↦ false
  | some run ↦ elim (get node_id run.containers) [ none ↦ false | some c ↦ c.desired.running ]
]

unfoldable pub reduce : WorkspaceState → Action → Outcome
reduce s (env_planned plan) = outcome (plan_env s plan)
reduce s (node_start_requested n) = outcome (start_node s n)
reduce s (node_debug_wait_requested n wait) = outcome (set_debug_wait s n wait)
reduce s (node_stop_requested n) = outcome (set_pending s n stopping false)
reduce s (node_delete_requested n) = outcome (set_pending s n removing (desired_running s n))
reduce s _ = panicked
