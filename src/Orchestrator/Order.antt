-- ===== src/Orchestrator/Order.antt =====
-- src/orchestrator/order.rs: the order in which nodes start.
pub mod Passes
pub mod Sorted
use fghj.Prelude.{
  ℕ, zero, suc, String, Bool, true, false, ◌&&◌, Option, none, some, List, [], ◌∷◌, ◌++◌, map,
  str_eq, filter, all, length, if◌then◌else◌,
}
use fghj.Prelude.Sets.{contains}
use fghj.Prelude.Sorting.{sort}
use fghj.Resolver.Graph.{Edge, needed_to_start}

-- `deps[id]`: the start requirements of a node inside the set. The source keeps them in a hash set;
-- it only asks whether all of them are placed.
abbrev inside : List String → String → Edge → Bool
inside ids id e =
    needed_to_start e && (contains ids e.from && (contains ids e.to && str_eq e.from id))

unfoldable pub deps : List String → List Edge → String → List String
deps ids edges id = map (λ e. e.to) (filter (inside ids id) edges)

-- The loop variables after one pass over what remains. `placed` holds the same ids as `ordered`.
pub record Pass : Type 0 where
  pub ordered : List String
  pub remaining : List String
  pub progressed : Bool

module _ (requires : String → List String) where
  abbrev pub ready : List String → String → Bool
  ready placed id = all (contains placed) (requires id)

  -- The `for` loop: an id placed in this pass counts for the ids after it.
  unfoldable pub pass : List String → List String → Pass
  pass ordered [] = record { ordered = ordered; remaining = []; progressed = false }
  pass ordered (id ∷ rest) =
      let placed = record (pass (ordered ++ id ∷ []) rest) { progressed = true } in
      let kept = pass ordered rest in
      if ready ordered id then placed else record kept { remaining = id ∷ kept.remaining }

  -- The `while` loop; `none` means that the fuel ran out.
  unfoldable pub passes : ℕ → List String → List String → Option (List String)
  passes zero ordered remaining = none
  passes (suc fuel) ordered [] = some ordered
  passes (suc fuel) ordered (id ∷ rest) =
      let p = pass ordered (id ∷ rest) in
      let next = passes fuel p.ordered p.remaining in
      if p.progressed then next else some (p.ordered ++ p.remaining)

unfoldable pub topological_start_order : List String → List Edge → Option (List String)
topological_start_order node_ids edges =
    passes (deps node_ids edges) (suc (length node_ids)) [] (sort node_ids)
