-- ===== src/Resolver/Cycles.antt =====
-- src/resolver/cycles.rs: loops of edges that order a start. The set `on_stack` holds the nodes of the
-- stack, and is the stack here.
pub mod Loops
pub mod Walks
pub mod Acyclic
pub mod Distinct
pub mod Examples
use fghj.Prelude.{
  ℕ, zero, suc, String, Option, none, some, List, [], ◌∷◌, ◌++◌, map, filter, length, str_eq,
  if◌then◌else◌, ◌==◌, eq_List, eq_String, any,
}
use fghj.Prelude.BTreeMap.{BTreeMap, get, keys, map_values}
use fghj.Prelude.Sets.{contains}
use fghj.Prelude.Sorting.{dedup, sort}
use fghj.Prelude.Text.{join, ◌+ₛ◌}
use fghj.Resolver.Graph.{Edge, needed_to_start}
use fghj.Resolver.Warning.{Warning, new_blocking}
use fghj.Orchestrator.Outcomes.{or_default, push_all}

unfoldable pub adjacency : List Edge → BTreeMap (List String)
adjacency edges =
    map_values (λ targets. dedup (sort targets)) (push_all (filter needed_to_start edges) [])

-- The stack's bottom first.
pub record Walk : Type 0 where
  pub done : List String
  pub stack : List String
  pub cycles : List (List String)

-- From the first occurrence on: `stack[at..]`.
unfoldable pub from : String → List String → List String
from x [] = []
from x (y ∷ l) = if str_eq y x then y ∷ l else from x l

unfoldable pub pop : List String → List String
pop [] = []
pop (x ∷ []) = []
pop (x ∷ y ∷ l) = x ∷ pop (y ∷ l)

abbrev pub found : String → Walk → Walk
found next s = record s { cycles = s.cycles ++ from next s.stack ∷ [] }

-- The loop over a node's targets; `go` is the recursive call.
unfoldable pub follow : (String → Walk → Option Walk) → List String → Walk → Option Walk
follow go [] s = some s
follow go (next ∷ l) s =
    let looped = follow go l (found next s) in
    let kept = follow go l s in
    let walked : Option Walk = elim (go next s) [ none ↦ none | some t ↦ follow go l t ] in
    if contains s.stack next then looped else if contains s.done next then kept else walked

abbrev pub left : String → Option Walk → Option Walk
left id none = none
left id (some s) = some (record s { stack = pop s.stack; done = id ∷ s.done })

-- `none` means that the fuel ran out.
unfoldable pub walk : ℕ → BTreeMap (List String) → String → Walk → Option Walk
walk zero adj id s = none
walk (suc fuel) adj id s =
    left id
      (follow (walk fuel adj) (or_default (get id adj)) (record s { stack = s.stack ++ id ∷ [] }))

unfoldable pub walk_all : ℕ → BTreeMap (List String) → List String → Walk → Option Walk
walk_all fuel adj [] s = some s
walk_all fuel adj (root ∷ roots) s =
    let kept = walk_all fuel adj roots s in
    let walked : Option Walk = elim (walk fuel adj root s) [
      | none ↦ none
      | some t ↦ walk_all fuel adj roots t
    ] in
    if contains s.done root then kept else walked

-- Of the cycles with the same nodes the first is kept.
unfoldable pub distinct : List (List String) → List (List String) → List (List String)
distinct seen [] = []
distinct seen (c ∷ cycles) =
    let kept = distinct (sort c ∷ seen) cycles in
    let rest = distinct seen cycles in if any (λ k. k == sort c) seen then rest else c ∷ kept

abbrev pub first : List String → String
first [] = ""
first (x ∷ l) = x

unfoldable pub cycle_warning : List String → Warning
cycle_warning cycle = new_blocking (
    "dependency cycle: "
    +ₛ join " -> " cycle
    +ₛ " -> "
    +ₛ first cycle
    +ₛ ". Each waits for the next to start, so none of them can")

unfoldable pub find_cycles : List Edge → Option Walk
find_cycles edges =
    let adj = adjacency edges in
    walk_all (suc (length (keys adj))) adj (sort (keys adj))
      (record { done = []; stack = []; cycles = [] })

unfoldable pub check_cycles : List Edge → Option (List Warning)
check_cycles edges = elim (find_cycles edges) [
  | none ↦ none
  | some s ↦ some (map cycle_warning (distinct [] s.cycles))
]
