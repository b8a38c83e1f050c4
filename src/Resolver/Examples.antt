-- ===== src/Resolver/Examples.antt =====
-- Names and the graph of a small workspace: tests, and the statements about them at a concrete input.
use fghj.Prelude.{String, true, false, none, some, [], ◌∷◌, List, ◌≡◌, ◌↔◌, refl, Result}
use fghj.Prelude.Numbers.{show}
use fghj.Resolver.Warning.{new_blocking, new_advisory, is_blocking}
use fghj.Resolver.Name.{Name, parse, why_invalid, find_char}
use fghj.Resolver.Name.Pattern.{matches, parse_iff}
use fghj.Resolver.Graph.{Node, Graph, start_ids, refuse_if_blocked, blocking_warnings}

abbrev cart : Name
cart = record { text = "cart-2" }

accepted_name : parse "cart-2" ≡ Result.ok cart
unfolding parse why_invalid find_char
accepted_name = refl

dashed : parse "-cart" ≡ Result.err "invalid name '-cart': a name cannot start with a dash"
unfolding parse why_invalid find_char
dashed = refl

parse_iff_example :
    (parse "cart-2" ≡ Result.ok cart) ↔ ((matches "cart-2" ≡ true) × (cart.text ≡ "cart-2"))
parse_iff_example = parse_iff "cart-2" cart

abbrev pub node : String → List String → Node
node id flows = record {
  id = id;
  label = id;
  kind = "service";
  image = some "nginx";
  branch = some "main";
  repo = none;
  local_path = none;
  domain = "";
  downloaded = true;
  dirty = false;
  head = none;
  flows = flows;
  includes = [];
  build = none;
  ports = [];
  environment = [];
  command = [];
  volumes = [];
  additional_hosts = [];
  wildcard_hosts = [];
  env_file = [];
  restart = "no";
  stop_signal = none;
  stop_grace_period = 10;
  user = none;
  working_dir = none;
  labels = [];
  cap_add = [];
  cap_drop = [];
  privileged = false;
  extra_hosts = [];
  healthcheck = none;
  platform = none;
  run_policy = none;
  migrates = none;
  seeds = [];
  debug = none;
}

abbrev shop : Graph
shop = record {
  workspace_name = "shop";
  nodes = node "web" ("shop/all" ∷ []) ∷ node "docs" [] ∷ [];
  edges = [];
  flows = "shop/all" ∷ [];
  warnings = new_advisory "a newer minor version" ∷ new_blocking "a cycle" ∷ [];
}

started : start_ids shop (some "shop/all") ≡ Result.ok ("web" ∷ [])
unfolding start_ids
started = refl

refused :
    refuse_if_blocked shop
    ≡ Result.err
        "refusing to start: the workspace has 1 unresolved configuration problem:\n  - a cycle"
unfolding refuse_if_blocked blocking_warnings is_blocking show
refused = refl
