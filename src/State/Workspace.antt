-- ===== src/State/Workspace.antt =====
-- src/state/env.rs, volume.rs and workspace.rs, and the owner of src/persistence/workspace_owner.rs.
use fghj.Prelude.{ℕ, String, Bool, Option, none, []}
use fghj.Prelude.BTreeMap.{BTreeMap}
use fghj.State.Container.{ContainerInfo}

pub record VolumeDesired : Type 0 where
  pub name : String

pub record VolumeObserved : Type 0 where
  pub exists : Bool

pub record VolumeInfo : Type 0 where
  pub desired : VolumeDesired
  pub observed : VolumeObserved

pub data EnvSpec : Type 0 where
  flow node : String → EnvSpec

pub record EnvState : Type 0 where
  pub network : String
  pub containers : BTreeMap ContainerInfo
  pub volumes : BTreeMap VolumeInfo
  pub sidecar_container_name : String
  pub sidecar_ip : Option String
  pub pending_create : Option EnvSpec

-- `EnvState::default()`.
abbrev pub empty_env : EnvState
empty_env = record {
  network = "";
  containers = [];
  volumes = [];
  sidecar_container_name = "";
  sidecar_ip = none;
  pending_create = none;
}

pub record EnvCreateError : Type 0 where
  pub message : String
  pub partial : Option EnvState

-- `EnvCreateError::bare`.
pub bare : String → EnvCreateError
bare message = record { message = message; partial = none }

-- `u32` ids as numbers.
pub record WorkspaceOwner : Type 0 where
  pub uid : ℕ
  pub gid : ℕ
  pub home : String
  pub ssh_auth_sock : Option String

pub record WorkspaceState : Type 0 where
  pub path : String
  pub owner : Option WorkspaceOwner
  pub env : Option EnvState
