-- ===== src/Reducer/Settle.antt =====
-- How an action in flight ends, and what a report does to the reading of a container.
use fghj.Prelude.{
  ℕ, String, Bool, true, false, Option, none, some, Result, ℤ, ◌≡◌, ◌≢◌, ◌↔◌, ◌⊎◌, inl, inr, arith,
  eq_refl, is_some, ◌&&◌, ◌||◌, not, refl, Option-cases, if◌then◌else◌, ◌==◌, eq_Option,
}
use fghj.Prelude.BTreeMap.{BTreeMap, get-insert, get-remove}
use fghj.State.Container.{
  ContainerInfo, ContainerObserved, PendingAction, same_reading, eq_PendingAction, is_up,
}
use fghj.State.Workspace.{WorkspaceState}
use fghj.Action.{node_start_requested, container_observed, container_action_settled}
use fghj.Reducer.{reduce}
use fghj.Reducer.Base.{accepted, is_accepted}
use fghj.Reducer.Request
use fghj.Reducer.Request.{start_node}
use fghj.Reducer.Report
use fghj.Reducer.Report.{observe, observe_drift, settle_action, take_reading}
use fghj.Reducer.Views.{container_of, pending_at, pending_create_of}

eq_iff_pending : (a b : Option PendingAction) → ((a == b) ≡ true) ↔ (a ≡ b)
eq_iff_pending = (eq_Option {A = PendingAction}).agrees_iff

-- A late report: it settles an action that the node has left for another, and changes nothing.
pub settle_late :
    (s : WorkspaceState) (n : String) (p : PendingAction) (r : Result (Option ContainerInfo) String)
    → pending_at s n ≢ some p
    → reduce s (container_action_settled n (some p) r) ≡ accepted s
unfolding reduce Report.reduce settle_action
settle_late s n p r h = ground (arith, h, eq_iff_pending (some p) (pending_at s n))

-- A report that settles the action in flight, or names none, frees the node: whether the action
-- worked or failed, nothing is pending there, the create in flight stays as it was, and a start is
-- accepted again just outside a create.
pub settle_frees :
    (s t : WorkspaceState) (n : String) (of : Option PendingAction)
    (r : Result (Option ContainerInfo) String)
    → (of ≡ none) ⊎ (of ≡ pending_at s n)
    → reduce s (container_action_settled n of r) ≡ accepted t
    → (pending_at t n ≡ none)
      × (pending_create_of t ≡ pending_create_of s)
      × (is_accepted (reduce t (node_start_requested n)) ≡ not (is_some (pending_create_of s)))
unfolding reduce Report.reduce settle_action Request.reduce start_node
settle_frees s t n of r h e = grind (arith, get-insert, get-remove, eq_refl, eq_iff_pending)

-- A reading taken before the container's own, or while an action is in flight, is dropped.
pub observe_stale :
    (s : WorkspaceState) (n status : String) (port : Option ℕ) (ports : BTreeMap (Option ℕ))
    (exit : Option ℤ) (unseen : Bool) (based_on : ContainerObserved) (c : ContainerInfo)
    → container_of s n ≡ some c
    → (is_some c.pending_action ≡ true) ⊎ (same_reading c.observed based_on ≡ false)
    → reduce s (container_observed n status port ports exit unseen based_on) ≡ accepted s
unfolding reduce Report.reduce observe
observe_stale s n status port ports exit unseen based_on c p h = ground arith

observe_applies :
    (s : WorkspaceState) (n status : String) (port : Option ℕ) (ports : BTreeMap (Option ℕ))
    (exit : Option ℤ) (unseen : Bool) (based_on : ContainerObserved) (c : ContainerInfo)
    → container_of s n ≡ some c
    → c.pending_action ≡ none
    → same_reading c.observed based_on ≡ true
    → container_of (observe s n status port ports exit unseen based_on) n
      ≡ some (record c { observed = take_reading c.observed status port ports exit unseen })
unfolding observe
observe_applies s n status port ports exit unseen based_on c p q h = elim (Option-cases s.env) [
  | inl absent ↦ ground arith
  | inr (run, there) ↦
      let d : ContainerInfo = record c {
        observed = take_reading c.observed status port ports exit unseen;
      } in
      ground (arith, get-insert n n d run.containers, eq_refl n)
]

-- A reading of an idle container that is as recent as the one held is accepted. An unseen one only
-- marks the container as unseen; any other replaces the status, the ports, the published port and the
-- exit code. What is wanted and what the drift check wrote stay, and nothing gets in flight. It counts
-- as interrupted if it is down and either was so or was not seen before.
pub observe_fresh :
    (s : WorkspaceState) (n status : String) (port : Option ℕ) (ports : BTreeMap (Option ℕ))
    (exit : Option ℤ) (unseen : Bool) (based_on : ContainerObserved) (c : ContainerInfo)
    → container_of s n ≡ some c
    → c.pending_action ≡ none
    → same_reading c.observed based_on ≡ true
    → (t : WorkspaceState) × (d : ContainerInfo) × (reduce s
          (container_observed n status port ports exit unseen based_on)
        ≡ accepted t)
      × (container_of t n ≡ some d)
      × (d.desired ≡ c.desired)
      × (d.pending_action ≡ none)
      × (d.observed.sync ≡ c.observed.sync)
      × (d.observed.seeded ≡ c.observed.seeded)
      × (d.observed.unseen ≡ unseen)
      × (d.observed.status ≡ (if unseen then c.observed.status else status))
      × (d.observed.published_port ≡ (if unseen then c.observed.published_port else port))
      × (d.observed.ports ≡ (if unseen then c.observed.ports else ports))
      × (d.observed.exit_code ≡ (if unseen then c.observed.exit_code else exit))
      × (d.observed.interrupted ≡ (
          if unseen
          then c.observed.interrupted
          else not (is_up d.observed) && (c.observed.interrupted || c.observed.unseen)))
unfolding reduce Report.reduce take_reading is_up
observe_fresh s n status port ports exit unseen based_on c p q h = (
  observe s n status port ports exit unseen based_on,
  record c { observed = take_reading c.observed status port ports exit unseen },
  refl,
  observe_applies s n status port ports exit unseen based_on c p q h,
  refl,
  q,
  ground arith,
  ground arith,
  ground arith,
  ground arith,
  ground arith,
  ground arith,
  ground arith,
  ground arith,
)
