-- ===== src/Orchestrator/Closure.antt =====
-- src/orchestrator/order.rs: the nodes that a node needs, or that need it, and the nodes that
-- something waits on.
pub mod Found
use fghj.Prelude.{suc, String, ◌&&◌, Option, none, List, [], ◌∷◌, some, map, str_eq, filter, length}
use fghj.Prelude.Sets.{contains}
use fghj.Resolver.Graph.{Edge, needed_to_start}
use fghj.Resolver.Search.{Arc, search, arcs_of, forward, backward}
use fghj.Orchestrator.Order.{topological_start_order}

abbrev pub in_order : List Edge → Option (List String) → Option (List String)
in_order edges none = none
in_order edges (some found) = topological_start_order found edges

unfoldable pub closure : String → List Edge → (Edge → Arc) → Option (List String)
closure id edges direction =
    let fuel = suc (suc (length edges)) in
    in_order edges (search (λ x. str_eq x id) (arcs_of direction edges) fuel [] (id ∷ []))

unfoldable pub requirements_of : String → List Edge → Option (List String)
requirements_of id edges = closure id edges forward

unfoldable pub dependents_of : String → List Edge → Option (List String)
dependents_of id edges = closure id edges backward

-- The source collects into a hash set.
unfoldable pub waited_on : List String → List Edge → List String
waited_on ids edges =
    map (λ e. e.to)
      (filter (λ e. contains ids e.from && contains ids e.to) (filter needed_to_start edges))
