-- ===== src/Reducer/Gate.antt =====
-- When a request is refused, and what an accepted one leaves behind.
use fghj.Prelude.{
  String, Bool, true, false, none, some, ◌≡◌, refl, ◌↔◌, ◌⊎◌, inl, inr, arith, eq_refl, is_some,
  ◌||◌, Option-cases,
}
use fghj.Prelude.BTreeMap.{get-nil, get-insert, get-remove}
use fghj.State.Container.{ContainerInfo, stopping}
use fghj.State.Workspace.{empty_env, WorkspaceState, EnvSpec}
use fghj.Action.{
  env_planned, node_start_requested, node_stop_requested, node_debug_wait_requested,
  node_delete_requested, already_in_flight, node_not_found,
}
use fghj.Reducer.{reduce}
use fghj.Reducer.Base.{with_env, accepted, rejected, is_accepted}
use fghj.Reducer.Request
use fghj.Reducer.Request.{plan_env, set_debug_wait, start_node, set_pending, desired_running}
use fghj.Reducer.Views.{container_of, pending_at, pending_create_of}

-- A start is refused only for what is in flight: a missing node or environment is no reason.
abbrev pub start_refused : WorkspaceState → String → Bool
start_refused s n = is_some (pending_create_of s) || is_some (pending_at s n)

-- A start is refused exactly if a create, or an action on the node, is in flight.
pub start-refused :
    (s : WorkspaceState) (n : String)
    → (reduce s (node_start_requested n) ≡ rejected already_in_flight) ↔ (start_refused s n ≡ true)
unfolding reduce Request.reduce start_node
start-refused s n = ground (arith, get-nil {V = ContainerInfo} n)

-- Once accepted, a stop has marked the node as stopping and as not wanted up, or has dropped the
-- entry of a start that had no container yet. A stop sent again is then refused.
pub stop_once :
    (s t : WorkspaceState) (n : String)
    → reduce s (node_stop_requested n) ≡ accepted t
    → ((pending_at t n ≡ some stopping)
        × (desired_running t n ≡ false)
        × (reduce t (node_stop_requested n) ≡ rejected already_in_flight))
      ⊎ ((container_of t n ≡ none) × (reduce t (node_stop_requested n) ≡ rejected node_not_found))
unfolding reduce Request.reduce set_pending desired_running
stop_once s t n e = grind (arith, get-insert, get-remove, eq_refl)

-- Once a start is accepted, a second one is refused until the first is settled, whether the
-- first found a container, made a placeholder, or began an environment.
pub start_once :
    (s t : WorkspaceState) (n : String)
    → reduce s (node_start_requested n) ≡ accepted t
    → reduce t (node_start_requested n) ≡ rejected already_in_flight
unfolding reduce Request.reduce start_node
start_once s t n e = grind (arith, get-nil, get-insert, eq_refl)

-- One create at a time: either one is in flight and a plan is refused, or none is and the plan is
-- accepted and puts one in flight.
pub plan_once :
    (s : WorkspaceState) (plan : EnvSpec)
    → ((is_some (pending_create_of s) ≡ true)
        × (reduce s (env_planned plan) ≡ rejected already_in_flight))
      ⊎ ((t : WorkspaceState) × (pending_create_of s ≡ none)
          × (reduce s (env_planned plan) ≡ accepted t)
          × (pending_create_of t ≡ some plan))
unfolding reduce Request.reduce plan_env
plan_once s plan = elim (Option-cases s.env) [
  | inl e ↦ inr (
    with_env s (record empty_env { pending_create = some plan }),
    ground arith,
    ground arith,
    refl,
  )
  | inr (run, e) ↦ elim (Option-cases run.pending_create) [
    | inl f ↦
        inr
          (with_env s (record run { pending_create = some plan }), ground arith, ground arith, refl)
    | inr (p, f) ↦ inl (ground arith, ground arith)
  ]
]

-- A debug switch does not look at the create: with a container that is idle it is accepted while a
-- create is in flight, when a start, a stop and a delete of the same node are refused.
pub debug_wait_during_create :
    (s : WorkspaceState) (n : String) (wait : Bool) (c : ContainerInfo)
    → is_some (pending_create_of s) ≡ true
    → container_of s n ≡ some c
    → c.pending_action ≡ none
    → (is_accepted (reduce s (node_debug_wait_requested n wait)) ≡ true)
      × (reduce s (node_start_requested n) ≡ rejected already_in_flight)
      × (reduce s (node_stop_requested n) ≡ rejected already_in_flight)
      × (reduce s (node_delete_requested n) ≡ rejected already_in_flight)
unfolding reduce Request.reduce start_node set_pending set_debug_wait
debug_wait_during_create s n wait c h p q = ground arith
