-- ===== src/Resolver/Closure/Examples.antt =====
-- A store with a migration that needs a store of its own: tests, and the statements about the
-- closures at a concrete input.
use mathlib.Core.List.{Memᴰ}
use fghj.Prelude.{String, true, false, none, some, [], ◌∷◌, List, ◌≡◌, ◌↔◌, refl}
use fghj.Prelude.Sets.{contains}
use fghj.Prelude.Sorting.{insert_sorted}
use fghj.Resolver.Graph.{Edge, Node, needed_to_start}
use fghj.Resolver.Examples.{node}
use fghj.Resolver.Search.{arcs_of, forward, search, visit, is_new}
use fghj.Resolver.Search.Reach.{Reaches}
use fghj.Resolver.Closure.{required_closure, add_migrations, migrate, missing, extend}
use fghj.Resolver.Closure.Required.{required_closure_lem}
use fghj.Resolver.Closure.Migrated.{IsAdded, add_migrations_lem}

abbrev edge : String → String → Edge
edge from to = record {
  from = from;
  to = to;
  kind = "depends-on";
  required = true;
  condition = none;
  via_flow = none;
  flows = [];
  implied = false;
}

abbrev nodes : List Node
nodes =
    node "db" []
    ∷ record (node "db-migrate" []) { kind = "task"; migrates = some "db" }
    ∷ node "vault" []
    ∷ record (node "vault-migrate" []) { kind = "task"; migrates = some "vault" }
    ∷ []

-- The database's migration needs the vault.
abbrev edges : List Edge
edges = edge "db-migrate" "db" ∷ edge "db-migrate" "vault" ∷ edge "vault-migrate" "vault" ∷ []

required : required_closure edges ("db-migrate" ∷ []) ≡ some ("db" ∷ "db-migrate" ∷ "vault" ∷ [])
unfolding required_closure search visit is_new arcs_of contains insert_sorted needed_to_start
required = refl

migrated :
    add_migrations nodes edges ("db" ∷ [])
    ≡ some ("db" ∷ "db-migrate" ∷ "vault" ∷ "vault-migrate" ∷ [])
unfolding add_migrations migrate missing extend required_closure search visit is_new arcs_of
    contains insert_sorted needed_to_start
migrated = refl

required_closure_lem_example :
    (set : List String) × (required_closure edges ("db-migrate" ∷ []) ≡ some set)
    × ((x : String) → Memᴰ x set ↔ Reaches (arcs_of forward edges) (contains ("db-migrate" ∷ [])) x)
required_closure_lem_example = required_closure_lem edges ("db-migrate" ∷ [])

add_migrations_lem_example :
    (out : List String) × (add_migrations nodes edges ("db" ∷ []) ≡ some out)
    × IsAdded nodes edges ("db" ∷ []) out
add_migrations_lem_example = add_migrations_lem nodes edges ("db" ∷ [])
