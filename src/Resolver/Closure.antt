-- ===== src/Resolver/Closure.antt =====
-- src/resolver/graph.rs: what a set of nodes needs to start, and the migrations of its stores.
pub mod Required
pub mod Migrated
mod Examples
use fghj.Prelude.{
  ℕ, zero, suc, String, Bool, true, false, ◌&&◌, not, Option, none, some, List, [], ◌∷◌, ◌++◌, map,
  filter, length, ◌+◌, if◌then◌else◌,
}
use mathlib.Core.List.{reverse}
use fghj.Prelude.Sets.{contains, add}
use fghj.Resolver.Graph.{Edge, Node, Graph}
use fghj.Resolver.Search.{search, arcs_of, forward}

-- The stack begins with the seeds in their order, its top the last.
unfoldable pub required_closure : List Edge → List String → Option (List String)
required_closure edges seeds =
    search (λ x. false) (arcs_of forward edges) (suc (length seeds + length edges)) seeds
      (reverse seeds)

-- `BTreeSet::extend` and `collect`.
unfoldable pub extend : List String → List String → List String
extend set [] = set
extend set (x ∷ l) = let rest = extend set l in if contains rest x then rest else add x rest

abbrev pub is_migration_of : List String → Option String → Bool
is_migration_of set none = false
is_migration_of set (some store) = contains set store

abbrev pub is_missing : List String → Node → Bool
is_missing set n = is_migration_of set n.migrates && not (contains set n.id)

unfoldable pub missing : List Node → List String → List String
missing nodes set = extend [] (map (λ n. n.id) (filter (is_missing set) nodes))

abbrev pub extended : List String → Option (List String) → Option (List String)
extended set none = none
extended set (some l) = some (extend set l)

-- The loop; `none` means that the fuel ran out.
module _ (nodes : List Node) (edges : List Edge) where
  unfoldable pub migrate : ℕ → List String → Option (List String)
  migrate zero set = none
  migrate (suc fuel) set = elim (missing nodes set) [
    | [] ↦ some set
    | x ∷ l ↦ elim (extended set (required_closure edges (x ∷ l))) [
      | none ↦ none
      | some next ↦ migrate fuel next
    ]
  ]

unfoldable pub add_migrations : List Node → List Edge → List String → Option (List String)
add_migrations nodes edges set = migrate nodes edges (suc (length nodes)) set

-- The ids as they came, then the migrations that they lack.
unfoldable pub with_migrations : Graph → List String → Option (List String)
with_migrations g ids = elim (add_migrations g.nodes g.edges (extend [] ids)) [
  | none ↦ none
  | some set ↦ some (ids ++ filter (λ id. not (contains ids id)) set)
]
