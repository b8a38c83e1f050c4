-- ===== src/Reducer/Examples.antt =====
-- The reducer on concrete states: tests, and the statements about it at a concrete input.
use mathlib.Core.Path.{subst}
use mathlib.Core.Option.{some-injective}
use mathlib.Core.Logic.{inl, inr}
use fghj.Prelude.{
  String, true, false, Option, none, some, [], ◌∷◌, err, ◌≡◌, refl, arith, pos, not, ◌&&◌,
  Bool-cases, str_eq, eq_iff,
}
use fghj.Prelude.BTreeMap.{get, insert}
use fghj.State.Container.{
  ContainerInfo, PendingAction, starting, stopping, never_observed, same_reading, is_up,
  is_placeholder,
}
use fghj.State.Workspace.{WorkspaceState, EnvState, EnvSpec, empty_env}
use fghj.Action.{
  node_start_requested, node_stop_requested, node_debug_wait_requested, container_observed,
  node_delete_requested, container_action_settled, already_in_flight, node_not_found,
}
use fghj.Reducer.{reduce}
use fghj.Reducer.Base.{accepted, rejected, is_accepted, placeholder_desired}
use fghj.Reducer.Request
use fghj.Reducer.Request.{set_pending, plan_env, set_debug_wait}
use fghj.Reducer.Report
use fghj.Reducer.Report.{settle_action, observe}
use fghj.Reducer.Views.{container_of}
use fghj.Reducer.Frame.{reduce-frame}
use fghj.Reducer.Gate.{debug_wait_during_create}
use fghj.Reducer.Settle.{observe_fresh}
use fghj.Reducer.Invariant.{IsConsistent, IsGood, reduce-IsConsistent}

abbrev pub node : String → String → Option PendingAction → ContainerInfo
node id status pending = record {
  node_id = id;
  desired = record placeholder_desired { container_name = id };
  observed = record never_observed { status = status };
  pending_action = pending;
}

abbrev pub workspace : EnvState → WorkspaceState
workspace run = record { path = "/shop"; owner = none; env = some run }

-- A database that runs and a web server that is down.
abbrev pub shop : EnvState
shop = record empty_env {
  network = "shop";
  containers = ("db", node "db" "running" none) ∷ ("web", node "web" "exited" none) ∷ [];
}

abbrev pub idle : WorkspaceState
idle = workspace shop

abbrev starting_web : WorkspaceState
starting_web = workspace (record shop {
  containers = ("db", node "db" "running" none) ∷ ("web", node "web" "exited" (some starting)) ∷ [];
})

abbrev creating : WorkspaceState
creating = workspace (record shop { pending_create = some (EnvSpec.flow "shop/all") })

abbrev pub stopping_db : WorkspaceState
stopping_db = workspace (record shop {
  containers =
      (
        "db",
        record (node "db" "running" (some stopping)) {
          desired = record placeholder_desired { container_name = "db"; running = false };
        },
      )
      ∷ ("web", node "web" "exited" none)
      ∷ [];
})

pub stop_of_db : reduce idle (node_stop_requested "db") ≡ accepted stopping_db
unfolding reduce Request.reduce set_pending get insert is_placeholder
stop_of_db = refl

pub stop_of_unknown : reduce idle (node_stop_requested "cache") ≡ rejected node_not_found
unfolding reduce Request.reduce set_pending get
stop_of_unknown = refl

settled_web :
    reduce starting_web (container_action_settled "web" (some starting) (err "no image"))
    ≡ accepted idle
unfolding reduce Report.reduce settle_action get insert
settled_web = refl

reduce-frame_example : container_of stopping_db "web" ≡ container_of idle "web"
reduce-frame_example =
    reduce-frame idle stopping_db (node_stop_requested "db") "web" refl stop_of_db

debug_wait_during_create_example :
    (is_accepted (reduce creating (node_debug_wait_requested "web" true)) ≡ true)
    × (reduce creating (node_start_requested "web") ≡ rejected already_in_flight)
    × (reduce creating (node_stop_requested "web") ≡ rejected already_in_flight)
    × (reduce creating (node_delete_requested "web") ≡ rejected already_in_flight)
unfolding get
debug_wait_during_create_example =
    debug_wait_during_create creating "web" true (node "web" "exited" none) refl refl refl

observe_fresh_example :
    (t : WorkspaceState) × (d : ContainerInfo) × (reduce idle (
        container_observed "db" "exited" none []
          (some (pos 1))
          false
          (record never_observed { status = "running" }))
      ≡ accepted t)
    × (container_of t "db" ≡ some d)
    × (d.desired ≡ (node "db" "running" none).desired)
    × (d.pending_action ≡ none)
    × (d.observed.sync ≡ (node "db" "running" none).observed.sync)
    × (d.observed.seeded ≡ none)
    × (d.observed.unseen ≡ false)
    × (d.observed.status ≡ "exited")
    × (d.observed.published_port ≡ none)
    × (d.observed.ports ≡ [])
    × (d.observed.exit_code ≡ some (pos 1))
    × (d.observed.interrupted ≡ (not (is_up d.observed) && false))
unfolding get same_reading
observe_fresh_example =
    observe_fresh idle "db" "exited" none [] (some (pos 1)) false
      (record never_observed { status = "running" }) (node "db" "running" none) refl refl refl

shop_IsGood : (j : String) (c : ContainerInfo) → get j shop.containers ≡ some c → IsGood j c
unfolding get is_up
shop_IsGood j c h = elim (Bool-cases (str_eq "db" j)) [
  | inl e ↦
      good "db" "running" refl e (some-injective (node "db" "running" none) c (rw (e, get) at h))
  | inr e ↦ elim (Bool-cases (str_eq "web" j)) [
    | inl f ↦
        good "web" "exited" refl f
          (some-injective (node "web" "exited" none) c (rw (e, f, get) at h))
    | inr f ↦ absurd (ground (arith, rw (e, f, get) at h))
  ]
]
  where
    good :
        (id status : String)
        → ((node id status none).observed.interrupted && is_up (node id status none).observed)
          ≡ false
        → str_eq id j ≡ true
        → node id status none ≡ c
        → IsGood j c
    good id status down e q = subst (IsGood j) q (
        subst (λ k. IsGood k (node id status none)) ((eq_iff id j).0 e)
          (record { keyed = refl; down = down }))

pub idle-IsConsistent : IsConsistent idle
idle-IsConsistent = record { sorted = (refl, (tt, tt)); entries = shop_IsGood }

reduce-IsConsistent_example : IsConsistent stopping_db
reduce-IsConsistent_example =
    reduce-IsConsistent idle stopping_db (node_stop_requested "db") idle-IsConsistent tt stop_of_db
