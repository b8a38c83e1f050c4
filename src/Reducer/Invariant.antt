-- ===== src/Reducer/Invariant.antt =====
-- The invariant of the reducer: every accepted action keeps it.
pub mod Good
pub mod Effects
pub use Good.{IsGood, IsGoodMap, IsConsistent, IsHonest}
use mathlib.Core.Path.{subst}
use fghj.Reducer.Views.{container_of, containers_of}
use fghj.Prelude.{
  ℕ, ℤ, String, Bool, true, false, Option, none, some, Result, ok, err, ◌≡◌, refl, arith, eq_iff,
  not, ◌&&◌, [], Bool-cases, ◌==◌, eq_Option, is_some, Option-cases, inl, inr, sym,
}
use fghj.Prelude.BTreeMap.{
  BTreeMap, IsSorted, get, insert, remove, retain, get-insert, get-remove, get-map_values,
  get-retain_of, insert-IsSorted, remove-IsSorted, retain-IsSorted, map_values-IsSorted,
}
use fghj.State.Container.{
  ContainerInfo, ContainerObserved, PendingAction, starting, stopping, removing, SyncStatus, is_up,
  is_placeholder, eq_PendingAction,
}
use fghj.State.Workspace.{WorkspaceState, EnvState, EnvCreateError}
use fghj.Action.{
  Action, env_planned, node_start_requested, node_stop_requested, node_debug_wait_requested,
  node_delete_requested, container_observed, container_action_settled, env_create_settled,
  env_create_progress, sidecar_restored, env_create_working, volume_observed, config_drift_observed,
  owner_set,
}
use fghj.Reducer.{reduce}
use fghj.Reducer.Base.{accepted, outcome, with_env, starting_placeholder}
use fghj.Reducer.Request
use fghj.Reducer.Request.{plan_env, set_debug_wait, start_node, set_pending, desired_running}
use fghj.Reducer.Report
use fghj.Reducer.Report.{
  observe, settle_action, settle_create, create_working, create_progress, restore_sidecar,
  observe_volume, observe_drift, clear_create_marks, clear_pending, created, take_reading, is_stale,
  pending_of, apply_settled,
}
use Good.{
  clear_create_marks-IsGoodMap, Effect-IsConsistent, Effect, same, put, drop, containers_or_empty,
}
use Effects.{
  start-Effect, debug-Effect, drift-Effect, working-Effect, settle-Effect, observe-Effect,
  stop-Effect, progress-Effect,
}

created-IsGoodMap :
    (run : EnvState) (r : Result EnvState EnvCreateError)
    → IsGoodMap run.containers
    → IsHonest (env_create_settled r)
    → IsGoodMap (created run r).containers
created-IsGoodMap run (ok u) h k = clear_create_marks-IsGoodMap u k
created-IsGoodMap run (err e) h k = elim (Option-cases e.partial) [
  | inl p ↦ rw p (clear_create_marks-IsGoodMap run h)
  | inr (u, p) ↦
      rw p (clear_create_marks-IsGoodMap u (subst (λ o. IsGoodMap (containers_or_empty o)) p k))
]

create-IsConsistent :
    (s t : WorkspaceState) (r : Result EnvState EnvCreateError)
    → IsConsistent s
    → IsHonest (env_create_settled r)
    → reduce s (env_create_settled r) ≡ accepted t
    → IsConsistent t
unfolding reduce Report.reduce settle_create
create-IsConsistent s t r h k e = elim (Option-cases s.env) [
  | inl none_yet ↦
      let q : containers_of t ≡ containers_of s = ground arith in subst IsGoodMap (sym q) h
  | inr (run, env) ↦
      let q : containers_of t ≡ (created run r).containers = ground arith in
      let p : containers_of s ≡ run.containers = ground arith in
      subst IsGoodMap (sym q) (created-IsGoodMap run r (subst IsGoodMap p h) k)
]

abbrev spares_containers : Action → Bool
spares_containers (env_planned _) = true
spares_containers (sidecar_restored _) = true
spares_containers (volume_observed _ _) = true
spares_containers (owner_set _) = true
spares_containers _ = false

unchanged :
    (s t : WorkspaceState) (a : Action)
    → spares_containers a ≡ true
    → reduce s a ≡ accepted t
    → containers_of t ≡ containers_of s
unfolding reduce Request.reduce Report.reduce plan_env restore_sidecar observe_volume
unchanged s t (env_planned _) h e = ground arith
unchanged s t (sidecar_restored _) h e = ground arith
unchanged s t (volume_observed _ _) h e = ground arith
unchanged s t (owner_set _) h e = ground arith
unchanged s t _ h e = cc

-- Every accepted action keeps the state consistent, if what it reports is.
pub reduce-IsConsistent :
    (s t : WorkspaceState) (a : Action)
    → IsConsistent s
    → IsHonest a
    → reduce s a ≡ accepted t
    → IsConsistent t
unfolding set_pending reduce Request.reduce
reduce-IsConsistent s t (node_start_requested n) h k e =
    Effect-IsConsistent (start-Effect s h n t e) h
reduce-IsConsistent s t (node_stop_requested n) h k e =
    Effect-IsConsistent (stop-Effect s h n t stopping false e) h
reduce-IsConsistent s t (node_delete_requested n) h k e =
    Effect-IsConsistent (stop-Effect s h n t removing (desired_running s n) e) h
reduce-IsConsistent s t (node_debug_wait_requested n w) h k e =
    Effect-IsConsistent (debug-Effect s h n t w e) h
reduce-IsConsistent s t (container_observed n a b c d f g) h k e =
    Effect-IsConsistent (observe-Effect s h n t a b c d f g e) h
reduce-IsConsistent s t (container_action_settled n of (ok none)) h k e =
    Effect-IsConsistent (settle-Effect s h n t of (ok none) tt e) h
reduce-IsConsistent s t (container_action_settled n of (ok (some info))) h k e =
    Effect-IsConsistent (settle-Effect s h n t of (ok (some info)) k e) h
reduce-IsConsistent s t (container_action_settled n of (err why)) h k e =
    Effect-IsConsistent (settle-Effect s h n t of (err why) tt e) h
reduce-IsConsistent s t (env_create_working n p) h k e =
    Effect-IsConsistent (working-Effect s h n t p e) h
reduce-IsConsistent s t (config_drift_observed n d x) h k e =
    Effect-IsConsistent (drift-Effect s h n t d x e) h
reduce-IsConsistent s t (env_create_settled r) h k e = create-IsConsistent s t r h k e
reduce-IsConsistent s t (env_create_progress a b c info) h k e =
    Effect-IsConsistent (progress-Effect s h info.node_id t a b c info k refl e) h
reduce-IsConsistent s t (env_planned plan) h k e =
    subst IsGoodMap (sym (unchanged s t (env_planned plan) refl e)) h
reduce-IsConsistent s t (sidecar_restored ip) h k e =
    subst IsGoodMap (sym (unchanged s t (sidecar_restored ip) refl e)) h
reduce-IsConsistent s t (volume_observed v x) h k e =
    subst IsGoodMap (sym (unchanged s t (volume_observed v x) refl e)) h
reduce-IsConsistent s t (owner_set o) h k e =
    subst IsGoodMap (sym (unchanged s t (owner_set o) refl e)) h
