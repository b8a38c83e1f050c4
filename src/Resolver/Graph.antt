-- ===== src/Resolver/Graph.antt =====
-- src/resolver/graph.rs: the graph of a workspace, what a run starts, and when it is refused.
pub mod Starts
use fghj.Prelude.{
  ℕ, String, Bool, ◌&&◌, not, Option, none, some, List, [], ◌∷◌, map, str_eq, filter, any, length,
  if◌then◌else◌, nat_eq, Result, ok, err,
}
use fghj.Prelude.Text.{join, ◌+ₛ◌}
use fghj.Prelude.Numbers.{show}
use fghj.Prelude.BTreeMap.{BTreeMap}
use fghj.Resolver.Warning.{Warning, is_blocking}
use fghj.Resolver.Config.{Healthcheck, PortConfig, VolumeMount}

pub record BuildSource : Type 0 where
  pub url : String
  pub reference : Option String
  pub path : String
  pub downloaded : Bool
  pub head : Option String
  pub dirty : Bool

pub record NodeBuildSecret : Type 0 where
  pub id : String
  pub file : String

pub record NodeBuild : Type 0 where
  pub context : String
  pub dockerfile : String
  pub dockerfile_inline : Option String
  pub source : Option BuildSource
  pub args : BTreeMap String
  pub target : Option String
  pub ssh : Bool
  pub secrets : List NodeBuildSecret

pub record Node : Type 0 where
  pub id : String
  pub label : String
  pub kind : String
  pub image : Option String
  pub branch : Option String
  pub repo : Option String
  pub local_path : Option String
  pub domain : String
  pub downloaded : Bool
  pub dirty : Bool
  pub head : Option String
  pub flows : List String
  pub includes : BTreeMap String
  pub build : Option NodeBuild
  pub ports : BTreeMap PortConfig
  pub environment : List String
  pub command : List String
  pub volumes : List VolumeMount
  pub additional_hosts : List String
  pub wildcard_hosts : List String
  pub env_file : List String
  pub restart : String
  pub stop_signal : Option String
  pub stop_grace_period : ℕ
  pub user : Option String
  pub working_dir : Option String
  pub labels : BTreeMap String
  pub cap_add : List String
  pub cap_drop : List String
  pub privileged : Bool
  pub extra_hosts : List String
  pub healthcheck : Option Healthcheck
  pub platform : Option String
  pub run_policy : Option String
  pub migrates : Option String
  pub seeds : List String
  pub debug : Option ℕ

pub record Checkout : Type 0 where
  pub branch : Option String
  pub head : Option String
  pub dirty : Bool

module _ (n : Node) where
  abbrev checkout_of_source : Option BuildSource → Checkout
  checkout_of_source (some s) = record { branch = s.reference; head = s.head; dirty = s.dirty }
  checkout_of_source none = record { branch = n.branch; head = n.head; dirty = n.dirty }

  abbrev checkout_of : Option NodeBuild → Option Checkout
  checkout_of none = none
  checkout_of (some b) = some (checkout_of_source b.source)

  unfoldable pub build_checkout : Option Checkout
  build_checkout = checkout_of n.build

pub record Edge : Type 0 where
  pub from : String
  pub to : String
  pub kind : String
  pub required : Bool
  pub condition : Option String
  pub via_flow : Option String
  pub flows : List String
  pub implied : Bool

-- The one kind of edge that orders a start.
unfoldable pub needed_to_start : Edge → Bool
needed_to_start e = str_eq e.kind "depends-on" && e.required

pub record Graph : Type 0 where
  pub workspace_name : String
  pub nodes : List Node
  pub edges : List Edge
  pub flows : List String
  pub warnings : List Warning

abbrev pub has_flow : String → List String → Bool
has_flow flow flows = any (λ f. str_eq f flow) flows

abbrev known_flows : List String → String
known_flows [] = "none"
known_flows (f ∷ l) = join ", " (f ∷ l)

abbrev pub unknown_flow : String → List String → String
unknown_flow flow flows =
    "no flow named '"
    +ₛ (flow
        +ₛ ("' — flows are written `{repo}/{flow}`; this workspace has: " +ₛ known_flows flows))

abbrev pub refusal : List Warning → Result Unit String
refusal [] = Result.ok tt
refusal (w ∷ l) = Result.err (
    "refusing to start: the workspace has "
    +ₛ (show (length (w ∷ l))
        +ₛ (" unresolved configuration "
            +ₛ ((if nat_eq (length (w ∷ l)) 1 then "problem" else "problems")
                +ₛ (":\n" +ₛ join "\n" (map (λ x. "  - " +ₛ x.message) (w ∷ l)))))))

module _ (g : Graph) where
  unfoldable pub start_ids : Option String → Result (List String) String
  start_ids none = Result.ok (map (λ n. n.id) g.nodes)
  start_ids (some flow) =
      if not (has_flow flow g.flows)
      then Result.err (unknown_flow flow g.flows)
      else Result.ok (map (λ n. n.id) (filter (λ n. has_flow flow n.flows) g.nodes))

  unfoldable pub blocking_warnings : List Warning
  blocking_warnings = filter is_blocking g.warnings

  unfoldable pub refuse_if_blocked : Result Unit String
  refuse_if_blocked = refusal blocking_warnings
