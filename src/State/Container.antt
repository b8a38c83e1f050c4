-- ===== src/State/Container.antt =====
-- src/state/container.rs and src/state/sync_status.rs: what is wanted of a container, what Docker
-- last reported, and what the pair means.
use fghj.Prelude.{
  ℕ, String, Bool, true, false, ◌&&◌, Option, none, some, List, [], ℤ, ◌≡◌, ◌↔◌, arith, str_eq,
  ◌==◌, PartialEq, eq_ℕ, eq_String, eq_ℤ, eq_Bool, eq_Option, eq_List, eq_pair, if◌then◌else◌, ◌||◌,
  pos,
}
use fghj.Prelude.BTreeMap.{BTreeMap}

pub data SyncStatus : Type 0 where
  unknown synced drifted orphaned : SyncStatus

pub record PortRoute : Type 0 where
  pub domain : String
  pub host_port : ℕ
  pub wildcard : Bool
  pub container_port : String
  pub https : Bool

pub data PendingAction : Type 0 where
  starting restarting stopping removing : PendingAction

pub record ContainerSource : Type 0 where
  pub branch : Option String
  pub head : Option String
  pub dirty : Bool

pub record ContainerDesired : Type 0 where
  pub running : Bool
  pub container_name : String
  pub domain : String
  pub raw_domain : String
  pub routes : List PortRoute
  pub additional_hosts : List String
  pub status_port : Option String
  pub config_hash : String
  pub source : Option ContainerSource
  pub terminating : Bool
  pub debug_wait : Bool

pub record ContainerObserved : Type 0 where
  pub status : String
  pub published_port : Option ℕ
  pub ports : BTreeMap (Option ℕ)
  pub sync : SyncStatus
  pub exit_code : Option ℤ
  pub interrupted : Bool
  pub unseen : Bool
  pub seeded : Option Bool

-- `ContainerObserved::default()`.
abbrev pub never_observed : ContainerObserved
never_observed = record {
  status = "";
  published_port = none;
  ports = [];
  sync = unknown;
  exit_code = none;
  interrupted = false;
  unseen = false;
  seeded = none;
}

unfoldable pub is_up : ContainerObserved → Bool
is_up o = str_eq o.status "running" || (str_eq o.status "restarting" || str_eq o.status "paused")

unfoldable pub same_reading : ContainerObserved → ContainerObserved → Bool
same_reading a b =
    a.status == b.status
    && (a.published_port == b.published_port
        && (a.ports == b.ports
            && (a.exit_code == b.exit_code
                && (a.interrupted == b.interrupted && a.unseen == b.unseen))))

unfoldable pub settle_interruption : Bool → ContainerObserved → ContainerObserved
settle_interruption went_unwatched o =
    if is_up o
    then record o { interrupted = false }
    else if went_unwatched
    then record o { interrupted = true }
    else o

pub record ContainerInfo : Type 0 where
  pub node_id : String
  pub desired : ContainerDesired
  pub observed : ContainerObserved
  pub pending_action : Option PendingAction

pub data NodeCondition : Type 0 where
  running stopped crashed interrupted unknown restarting paused completed failed finishing missing :
      NodeCondition

-- The verdict on a task.
task_condition : String → Option ℤ → NodeCondition
task_condition status exit_code =
    if str_eq status "running" then NodeCondition.running else elim exit_code [
      | none ↦ finishing
      | some code ↦ if code == pos 0 then completed else failed
    ]

service_condition : ContainerInfo → NodeCondition
service_condition c =
    if str_eq c.observed.status "running"
    then NodeCondition.running
    else if str_eq c.observed.status "restarting"
    then NodeCondition.restarting
    else if str_eq c.observed.status "paused"
    then paused
    else if c.desired.running && c.observed.interrupted
    then NodeCondition.interrupted
    else if c.desired.running
    then crashed
    else stopped

unfoldable pub condition : ContainerInfo → NodeCondition
unfolding task_condition service_condition
condition c =
    if c.observed.unseen
    then NodeCondition.unknown
    else if str_eq c.observed.status "removed"
    then missing
    else if c.desired.terminating
    then task_condition c.observed.status c.observed.exit_code
    else service_condition c

abbrev pub pending_eq : PendingAction → PendingAction → Bool
pending_eq starting starting = true
pending_eq PendingAction.restarting PendingAction.restarting = true
pending_eq stopping stopping = true
pending_eq removing removing = true
pending_eq _ _ = false

pub pending_eq_iff : (a b : PendingAction) → (pending_eq a b ≡ true) ↔ (a ≡ b)
pending_eq_iff a b = ground arith

instance abbrev pub eq_PendingAction : PartialEq PendingAction
eq_PendingAction = record { agrees = pending_eq; agrees_iff = pending_eq_iff }

unfoldable pub is_placeholder : ContainerInfo → Bool
is_placeholder c = str_eq c.desired.container_name ""

-- The `Display` of a pending action.
unfoldable pub pending_text : PendingAction → String
pending_text starting = "starting"
pending_text restarting = "restarting"
pending_text stopping = "stopping"
pending_text removing = "removing"
