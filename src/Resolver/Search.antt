-- ===== src/Resolver/Search.antt =====
-- The search that `closure` of src/orchestrator/order.rs and `required_closure` of
-- src/resolver/graph.rs share: a stack of nodes whose edges are still to be followed. They differ
-- in where it starts and in the nodes that it never finds.
pub mod Reach
pub mod Whole
use fghj.Prelude.{
  ℕ, zero, suc, String, Bool, ◌&&◌, not, Option, none, List, [], ◌∷◌, some, map, str_eq, filter,
  if◌then◌else◌,
}
use fghj.Prelude.Sets.{contains, add}
use fghj.Resolver.Graph.{Edge, needed_to_start}

-- An edge as the search follows it: the node it leaves and the node it finds.
abbrev pub Arc : Type 0
Arc = String × String

pub record Search : Type 0 where
  pub found : List String
  -- The stack, its top first.
  pub queue : List String

module _ (skip : String → Bool) (current : String) where
  -- What the `for` loop asks of an edge.
  unfoldable pub is_new : List String → Arc → Bool
  is_new found a = str_eq a.0 current && (not (skip a.1) && not (contains found a.1))

  abbrev pub push : Arc → Search → Search
  push a s = record { found = add a.1 s.found; queue = a.1 ∷ s.queue }

  unfoldable pub visit : List Arc → Search → Search
  visit [] s = s
  visit (a ∷ arcs) s =
      let pushed = visit arcs (push a s) in
      let kept = visit arcs s in if is_new s.found a then pushed else kept

-- The `while` loop; `none` means that the fuel ran out.
unfoldable pub search :
    (String → Bool) → List Arc → ℕ → List String → List String → Option (List String)
search skip arcs zero found queue = none
search skip arcs (suc fuel) found [] = some found
search skip arcs (suc fuel) found (current ∷ queue) =
    let s = visit skip current arcs (record { found = found; queue = queue }) in
    search skip arcs fuel s.found s.queue

unfoldable pub arcs_of : (Edge → Arc) → List Edge → List Arc
arcs_of direction edges = map direction (filter needed_to_start edges)

abbrev pub forward : Edge → Arc
forward e = (e.from, e.to)

abbrev pub backward : Edge → Arc
backward e = (e.to, e.from)
