-- ===== src/Reducer/Base.antt =====
-- What both reducers share: the outcome of a reduction, and writes into a state.
use fghj.Prelude.{String, some, none, Result, ok, err}
use fghj.Prelude.BTreeMap.{insert}
use fghj.State.Container.{ContainerInfo, ContainerDesired, starting, never_observed}
use fghj.State.Workspace.{EnvState, WorkspaceState}
use fghj.Action.{ActionRejected}
use fghj.Prelude.{Bool, false, true, []}

-- `Result<WorkspaceState, ActionRejected>`, and the panic of `unreachable!`.
pub data Outcome : Type 0 where
  accepted : WorkspaceState → Outcome
  rejected : ActionRejected → Outcome
  panicked : Outcome

abbrev pub is_accepted : Outcome → Bool
is_accepted (accepted s) = true
is_accepted _ = false

abbrev pub outcome : Result WorkspaceState ActionRejected → Outcome
outcome (ok s) = accepted s
outcome (err e) = rejected e

abbrev pub with_env : WorkspaceState → EnvState → WorkspaceState
with_env s run = record s { env = some run }

-- A write through `containers.get_mut(node_id)`, or `containers.insert`.
abbrev pub with_container : EnvState → String → ContainerInfo → EnvState
with_container run node_id c = record run { containers = insert node_id c run.containers }

abbrev pub placeholder_desired : ContainerDesired
placeholder_desired = record {
  running = true;
  container_name = "";
  domain = "";
  raw_domain = "";
  routes = [];
  additional_hosts = [];
  status_port = none;
  config_hash = "";
  source = none;
  terminating = false;
  debug_wait = false;
}

abbrev pub starting_placeholder : String → ContainerInfo
starting_placeholder node_id = record {
  node_id = node_id;
  desired = placeholder_desired;
  observed = never_observed;
  pending_action = some starting;
}
