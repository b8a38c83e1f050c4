-- ===== src/State/Examples.antt =====
-- The state's projections on a concrete workspace: tests, and the statements about them at a
-- concrete input.
use mathlib.Core.List.{Memᴰ}
use fghj.Prelude.{String, Bool, true, false, none, some, [], ◌∷◌, ◌≡◌, ◌≢◌, ◌⊎◌, inr, refl}
use fghj.Prelude.BTreeMap.{BTreeMap, get, values}
use fghj.Prelude.Sorting.{sort, dedup, insert_sorted}
use fghj.Prelude.Text.{ends_with}
use fghj.State.Container.{ContainerInfo, PortRoute, never_observed}
use fghj.State.Workspace.{WorkspaceState, empty_env}
use fghj.State.Query.{
  RouteTarget, resolve_route, find_route, exact, covers, matches_suffix, wildcard_suffixes,
  wildcard_zones, running_containers, containers, route_in, route_in_workspace, live_host_port,
}
use fghj.State.Query.Routes.{Claim, claimed, resolve_route_sound, resolve_route_complete}
use fghj.Reducer.Base.{placeholder_desired}

abbrev route : String → Bool → PortRoute
route domain wildcard = record {
  domain = domain;
  host_port = 4100;
  wildcard = wildcard;
  container_port = "80";
  https = true;
}

abbrev web : ContainerInfo
web = record {
  node_id = "web";
  desired = record placeholder_desired {
    container_name = "web";
    routes = route "web.shop.local" false ∷ route "shop.local" true ∷ [];
  };
  observed = record never_observed { status = "running"; ports = ("80", some 4200) ∷ [] };
  pending_action = none;
}

abbrev states : BTreeMap WorkspaceState
states =
    (
      "shop",
      record {
        path = "/shop";
        owner = none;
        env = some (record empty_env { containers = ("web", web) ∷ [] });
      },
    )
    ∷ []

abbrev to_web : RouteTarget
to_web = record { workspace = "shop"; node_id = "web"; port = 4200 }

routed : resolve_route states "cart.shop.local" ≡ some to_web
unfolding resolve_route find_route route_in route_in_workspace containers values live_host_port get
    matches_suffix ends_with
routed = refl

not_routed : resolve_route states "notshop.local" ≡ none
unfolding resolve_route find_route route_in route_in_workspace containers values live_host_port get
    matches_suffix ends_with
not_routed = refl

zones : wildcard_suffixes states ≡ "shop.local" ∷ []
unfolding wildcard_suffixes wildcard_zones running_containers containers values sort dedup
    insert_sorted
zones = refl

claim : Claim (covers "cart.shop.local") states
unfolding containers values matches_suffix ends_with
claim = record {
  workspace = "shop";
  state = record {
    path = "/shop";
    owner = none;
    env = some (record empty_env { containers = ("web", web) ∷ [] });
  };
  container = web;
  route = route "shop.local" true;
  registered = Memᴰ.head refl;
  held = Memᴰ.head refl;
  runs = refl;
  routed = Memᴰ.tail (Memᴰ.head refl);
  passes = refl;
}

resolve_route_sound_example :
    ((c : Claim (exact "cart.shop.local") states) × (to_web ≡ claimed c))
    ⊎ ((c : Claim (covers "cart.shop.local") states) × (to_web ≡ claimed c)
        × ¬ Claim (exact "cart.shop.local") states)
resolve_route_sound_example = resolve_route_sound states "cart.shop.local" to_web routed

resolve_route_complete_example : resolve_route states "cart.shop.local" ≢ none
resolve_route_complete_example = resolve_route_complete states "cart.shop.local" (inr claim)

abbrev other_host : String
other_host = "notshop.local"

abbrev suffix : String
suffix = "shop.local"
