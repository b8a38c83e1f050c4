-- ===== src/Reducer/Invariant/Effects.antt =====
-- What each action about one node does to the containers: one is put, one is dropped, or none
-- changes.
use fghj.Reducer.Views.{container_of, containers_of}
use fghj.Prelude.{
  ℕ, ℤ, String, Bool, true, false, Option, none, some, Result, ok, err, ◌≡◌, arith, not, ◌&&◌,
  Bool-cases, ◌==◌, eq_Option, is_some, Option-cases, inl, inr,
}
use fghj.Prelude.BTreeMap.{BTreeMap, get, insert}
use fghj.State.Container.{
  ContainerInfo, ContainerObserved, PendingAction, starting, SyncStatus, is_up, is_placeholder,
  eq_PendingAction,
}
use fghj.State.Workspace.{WorkspaceState, EnvState}
use fghj.Action.{
  node_start_requested, node_debug_wait_requested, container_observed, container_action_settled,
  env_create_progress, env_create_working, config_drift_observed,
}
use fghj.Reducer.{reduce}
use fghj.Reducer.Base.{accepted, outcome, with_env, starting_placeholder}
use fghj.Reducer.Request
use fghj.Reducer.Request.{plan_env, set_debug_wait, start_node, set_pending, desired_running}
use fghj.Reducer.Report
use fghj.Reducer.Report.{
  observe, settle_action, settle_create, create_working, create_progress, restore_sidecar,
  observe_volume, observe_drift, clear_create_marks, clear_pending, created, take_reading, is_stale,
  pending_of, apply_settled,
}
use fghj.Reducer.Invariant.Good.{IsGood, IsConsistent, IsHonest, Effect, same, put, drop}

module _ (s : WorkspaceState) (h : IsConsistent s) (n : String) where
  -- An entry with what is wanted or in flight changed is as good as it was.
  good : (c : ContainerInfo) → container_of s n ≡ some c → IsGood n c
  good c there = h.entries n c (elim (Option-cases s.env) [
    | inl absent ↦ absurd (ground arith)
    | inr (run, e) ↦ ground arith
  ])

  pub start-Effect :
      (t : WorkspaceState) → reduce s (node_start_requested n) ≡ accepted t → Effect s t n
  unfolding reduce Request.reduce start_node
  start-Effect t e = elim (Option-cases s.env) [
    | inl none_yet ↦ same (ground arith)
    | inr (run, env) ↦ elim (Option-cases (get n run.containers)) [
      | inl absent ↦ put (starting_placeholder n) (unfold is_up in ground arith) (ground arith)
      | inr (c, there) ↦
          let g = h.entries n c (ground arith) in
          put
            (record c {
              desired = record c.desired { running = true };
              pending_action = some starting;
            })
            (ground arith) (ground arith)
    ]
  ]

  pub debug-Effect :
      (t : WorkspaceState) (wait : Bool)
      → reduce s (node_debug_wait_requested n wait) ≡ accepted t
      → Effect s t n
  unfolding reduce Request.reduce set_debug_wait
  debug-Effect t wait e = elim (Option-cases (container_of s n)) [
    | inl absent ↦ absurd (ground arith)
    | inr (c, there) ↦
        let g = good c there in
        put
          (record c {
            desired = record c.desired { debug_wait = wait; running = true };
            pending_action = some starting;
          })
          (ground arith) (ground arith)
  ]

  pub drift-Effect :
      (t : WorkspaceState) (drift : SyncStatus) (seeded : Option Bool)
      → reduce s (config_drift_observed n drift seeded) ≡ accepted t
      → Effect s t n
  unfolding reduce Report.reduce observe_drift is_up
  drift-Effect t drift seeded e = elim (Option-cases (container_of s n)) [
    | inl absent ↦ same (ground arith)
    | inr (c, there) ↦
        let g = good c there in
        put (record c { observed = record c.observed { sync = drift; seeded = seeded } })
          (ground arith) (ground arith)
  ]

  pub working-Effect :
      (t : WorkspaceState) (action : Option PendingAction)
      → reduce s (env_create_working n action) ≡ accepted t
      → Effect s t n
  unfolding reduce Report.reduce create_working
  working-Effect t action e = elim (Option-cases s.env) [
    | inl none_yet ↦ same (ground arith)
    | inr (run, env) ↦ elim (Option-cases action) [
      | inl idle ↦ elim (Option-cases (get n run.containers)) [
        | inl absent ↦ same (ground arith)
        | inr (c, there) ↦ elim (Bool-cases (is_placeholder c)) [
          | inl placeholder ↦ drop (ground arith)
          | inr real ↦
              let g = h.entries n c (ground arith) in
              put (clear_pending c) (ground arith) (ground arith)
        ]
      ]
      | inr (p, busy) ↦ elim (Option-cases (get n run.containers)) [
        | inl absent ↦ put (starting_placeholder n) (unfold is_up in ground arith) (ground arith)
        | inr (c, there) ↦
            let g = h.entries n c (ground arith) in
            put (record c { pending_action = some p }) (ground arith) (ground arith)
      ]
    ]
  ]

  settled-Effect :
      (t : WorkspaceState) (run : EnvState) (r : Result (Option ContainerInfo) String)
      → IsHonest (container_action_settled n none r)
      → s.env ≡ some run
      → t ≡ with_env s (apply_settled run n r)
      → Effect s t n
  settled-Effect t run (ok none) g env e = drop (ground arith)
  settled-Effect t run (ok (some info)) g env e =
      put (clear_pending info) (ground arith) (ground arith)
  settled-Effect t run (err why) g env e = elim (Option-cases (get n run.containers)) [
    | inl absent ↦ same (ground arith)
    | inr (c, there) ↦
        let g' = h.entries n c (ground arith) in put (clear_pending c) (ground arith) (ground arith)
  ]

  pub settle-Effect :
      (t : WorkspaceState) (of : Option PendingAction) (r : Result (Option ContainerInfo) String)
      → IsHonest (container_action_settled n none r)
      → reduce s (container_action_settled n of r) ≡ accepted t
      → Effect s t n
  unfolding reduce Report.reduce settle_action
  settle-Effect t of r g e = elim (Option-cases s.env) [
    | inl none_yet ↦ same (ground arith)
    | inr (run, env) ↦ elim (Bool-cases (is_some of && not (of == pending_of run n))) [
      | inl late ↦ same (ground arith)
      | inr current ↦ settled-Effect t run r g env (ground arith)
    ]
  ]

  take_reading-down :
      (o : ContainerObserved) (status : String) (port : Option ℕ) (ports : BTreeMap (Option ℕ))
      (exit : Option ℤ) (unseen : Bool)
      → (o.interrupted && is_up o) ≡ false
      → let o' = take_reading o status port ports exit unseen in
        (o'.interrupted && is_up o') ≡ false
  unfolding take_reading is_up
  take_reading-down o status port ports exit unseen d = ground arith

  pub observe-Effect :
      (t : WorkspaceState) (status : String) (port : Option ℕ) (ports : BTreeMap (Option ℕ))
      (exit : Option ℤ) (unseen : Bool) (based_on : ContainerObserved)
      → reduce s (container_observed n status port ports exit unseen based_on) ≡ accepted t
      → Effect s t n
  unfolding reduce Report.reduce observe
  observe-Effect t status port ports exit unseen based_on e =
      elim (Option-cases (container_of s n)) [
        | inl absent ↦ same (ground arith)
        | inr (c, there) ↦ elim (Bool-cases (is_stale c based_on)) [
          | inl stale ↦ same (ground arith)
          | inr fresh ↦
              let g = good c there in
              let o = take_reading c.observed status port ports exit unseen in
              let d = take_reading-down c.observed status port ports exit unseen g.down in
              put (record c { observed = o }) (record { keyed = g.keyed; down = d }) (ground arith)
        ]
      ]

  pub stop-Effect :
      (t : WorkspaceState) (p : PendingAction) (wanted : Bool)
      → outcome (set_pending s n p wanted) ≡ accepted t
      → Effect s t n
  unfolding set_pending
  stop-Effect t p wanted e = elim (Option-cases (container_of s n)) [
    | inl absent ↦ absurd (ground arith)
    | inr (c, there) ↦
        let d : ContainerInfo = record c {
          desired = record c.desired { running = wanted };
          pending_action = some p;
        } in
        let g = good c there in
        let changed : containers_of t ≡ insert n d (containers_of s) → Effect s t n =
          λ q. put d (ground arith) q in
        elim (Option-cases c.pending_action) [
          | inl idle ↦ changed (ground arith)
          | inr (q, busy) ↦ elim (Bool-cases (is_placeholder c)) [
            | inl placeholder ↦ drop (ground arith)
            | inr real ↦ changed (ground arith)
          ]
        ]
  ]

  pub progress-Effect :
      (t : WorkspaceState) (network name : String) (ip : Option String) (info : ContainerInfo)
      → IsGood info.node_id info
      → n ≡ info.node_id
      → reduce s (env_create_progress network name ip info) ≡ accepted t
      → Effect s t n
  unfolding reduce Report.reduce create_progress
  progress-Effect t network name ip info g q e = elim (Option-cases s.env) [
    | inl none_yet ↦ same (ground arith)
    | inr (run, env) ↦ put (clear_pending info) (ground arith) (ground arith)
  ]
