-- ===== src/Resolver/Config.antt =====
-- src/resolver/{config,port,volume,dependency}.rs: what a node is configured with.
use fghj.Prelude.{ℕ, String, Bool, true, false, Option, none, some, List, [], ◌∷◌, map as map_list}
use fghj.Prelude.BTreeMap.{BTreeMap, insert}
use fghj.Resolver.Name.{Name}

pub record Healthcheck : Type 0 where
  pub test : List String
  pub interval : Option ℕ
  pub timeout : Option ℕ
  pub start_period : Option ℕ
  pub retries : Option ℕ

pub record PortConfig : Type 0 where
  pub primary : Bool
  pub name : Option Name
  pub host_port : Option ℕ
  pub wildcard : Bool

abbrev pub default_port : PortConfig
default_port = record { primary = false; name = none; host_port = none; wildcard = false }

pub data BackingPorts : Type 0 where
  list : List String → BackingPorts
  map : BTreeMap PortConfig → BackingPorts

-- `collect` into a map inserts in turn.
abbrev collect : List String → BTreeMap PortConfig → BTreeMap PortConfig
collect [] m = m
collect (p ∷ l) m = collect l (insert p default_port m)

unfoldable pub into_map : BackingPorts → BTreeMap PortConfig
into_map (BackingPorts.list l) = collect l []
into_map (BackingPorts.map m) = m

pub data VolumeMount : Type 0 where
  bind : (host container : String) (read_only : Bool) → VolumeMount
  named : (name : Name) (container : String) (read_only shared : Bool) → VolumeMount

pub data HostAliasConfig : Type 0 where
  bare : String → HostAliasConfig
  detailed : String → Bool → HostAliasConfig

unfoldable pub host : HostAliasConfig → String
host (HostAliasConfig.bare h) = h
host (HostAliasConfig.detailed h wildcard) = h

unfoldable pub is_wildcard : HostAliasConfig → Bool
is_wildcard (HostAliasConfig.bare h) = false
is_wildcard (HostAliasConfig.detailed h wildcard) = wildcard

pub data Condition : Type 0 where
  service_started service_healthy service_completed_successfully : Condition

pub record DependsOnEntry : Type 0 where
  pub condition : Condition
  pub required : Bool

abbrev pub default_entry : DependsOnEntry
default_entry = record { condition = Condition.service_started; required = true }

pub data DependsOn : Type 0 where
  list : List String → DependsOn
  map : BTreeMap (Option DependsOnEntry) → DependsOn

abbrev entry_of : Option DependsOnEntry → DependsOnEntry
entry_of none = default_entry
entry_of (some e) = e

unfoldable pub entries : DependsOn → List (String × DependsOnEntry)
entries (DependsOn.list names) = map_list (λ n. (n, default_entry)) names
entries (DependsOn.map m) = map_list (λ e. (e.0, entry_of e.1)) m

unfoldable pub as_str : Condition → String
as_str Condition.service_started = "service_started"
as_str Condition.service_healthy = "service_healthy"
as_str Condition.service_completed_successfully = "service_completed_successfully"
