-- ===== src/State/Query.antt =====
-- src/state/query.rs: read-only projections over every registered workspace's state.
pub mod Routes
pub mod Zones
use Prim.Native.String.{◌++◌ as str_append}
use mathlib.Core.List.{filter_map}
use mathlib.Core.Option
use fghj.Prelude.{
  ℕ, String, Bool, true, false, not, ◌&&◌, ◌||◌, Option, none, some, List, [], ◌∷◌, map, str_eq,
  filter, find, find_map, flat_map,
}
use fghj.Prelude.BTreeMap.{BTreeMap, get, values}
use fghj.Prelude.Sorting.{sort, dedup}
use fghj.Prelude.Text.{ends_with}
use fghj.State.Container.{ContainerInfo, PortRoute}
use fghj.State.Workspace.{WorkspaceState}

abbrev pub is_running : ContainerInfo → Bool
is_running c = str_eq c.observed.status "running"

-- The containers of one workspace, in the order of their ids.
unfoldable pub containers : WorkspaceState → List ContainerInfo
containers s = elim s.env [ none ↦ [] | some run ↦ values run.containers ]

unfoldable pub running_containers : BTreeMap WorkspaceState → List ContainerInfo
running_containers states = filter is_running (flat_map containers (values states))

unfoldable pub live_host_port : ContainerInfo → PortRoute → ℕ
live_host_port c r = elim (get r.container_port c.observed.ports) [
  | none ↦ r.host_port
  | some published ↦ Option.get_or published r.host_port
]

pub record RouteTarget : Type 0 where
  pub workspace : String
  pub node_id : String
  pub port : ℕ

-- Not a substring test: the suffix begins at the text's start or after a dot.
unfoldable pub matches_suffix : String → String → Bool
matches_suffix host suffix = str_eq host suffix || ends_with host (str_append "." suffix)

abbrev pub target : String → ContainerInfo → PortRoute → RouteTarget
target w c r = record { workspace = w; node_id = c.node_id; port = live_host_port c r }

unfoldable pub route_in : (PortRoute → Bool) → String → ContainerInfo → Option RouteTarget
route_in p w c = elim (find p c.desired.routes) [ none ↦ none | some r ↦ some (target w c r) ]

unfoldable pub route_in_workspace :
    (PortRoute → Bool) → String × WorkspaceState → Option RouteTarget
route_in_workspace p e = find_map (route_in p e.0) (filter is_running (containers e.1))

unfoldable pub find_route : (PortRoute → Bool) → BTreeMap WorkspaceState → Option RouteTarget
unfolding route_in route_in_workspace
find_route p states = find_map (route_in_workspace p) states

abbrev pub exact : String → PortRoute → Bool
exact host r = not r.wildcard && str_eq r.domain host

abbrev pub covers : String → PortRoute → Bool
covers host r = r.wildcard && matches_suffix host r.domain

unfoldable pub resolve_route : BTreeMap WorkspaceState → String → Option RouteTarget
resolve_route states host = elim (find_route (exact host) states) [
  | none ↦ find_route (covers host) states
  | some t ↦ some t
]

unfoldable pub wildcard_zones : List ContainerInfo → List String
wildcard_zones cs =
    flat_map (λ c. map (λ r. r.domain) (filter (λ r. r.wildcard) c.desired.routes)) cs

unfoldable pub wildcard_suffixes : BTreeMap WorkspaceState → List String
wildcard_suffixes states = dedup (sort (wildcard_zones (running_containers states)))

-- `raw_net::RawEndpoint`.
pub record RawEndpoint : Type 0 where
  pub raw_domain : String
  pub ports : BTreeMap ℕ

abbrev pub published : String × Option ℕ → Option (String × ℕ)
published (port, none) = none
published (port, some p) = some (port, p)

unfoldable pub raw_endpoints : BTreeMap WorkspaceState → List RawEndpoint
raw_endpoints states =
    map
      (λ c. record {
        raw_domain = c.desired.raw_domain;
        ports = filter_map published c.observed.ports;
      })
      (running_containers states)
