-- ===== src/Orchestrator/Closure/Found.antt =====
-- What a closure is: exactly the nodes that the edges reach, in the order in which they start.
use mathlib.Core.List.{Memᴰ}
use mathlib.Core.List.Permᴰ
use fghj.Prelude.{
  suc, String, Bool, some, List, [], ◌∷◌, ◌≡◌, ◌≢◌, ◌↔◌, refl, ap, arith, length, inl, inr, eq_iff,
  str_eq, ◌∙◌,
}
use fghj.Prelude.Sets.{contains}
use fghj.Prelude.Sorting.{mem_of_perm}
use fghj.Resolver.Graph.{Edge}
use fghj.Resolver.Search.{Arc, arcs_of, forward, backward}
use fghj.Resolver.Search.Reach.{Reaches, IsSearching}
use fghj.Resolver.Search.Whole.{IsClosure, Nothing, search_lem, potential_le, few_arcs}
use fghj.Orchestrator.Order.{deps}
use fghj.Orchestrator.Order.Sorted.{IsStartOrder, topological_start_order-IsStartOrder}
use fghj.Orchestrator.Closure.{closure, in_order, requirements_of, dependents_of}

module _ (id : String) (edges : List Edge) (direction : Edge → Arc) where
  -- Everything that the arcs reach from the node, but the node itself, in start order.
  pub record IsOrderedClosure (order : List String) : Type 0 where
    pub found : List String
    pub ordered : IsStartOrder (deps found edges) found order
    pub members :
        (x : String)
        → Memᴰ x order ↔ (Reaches (arcs_of direction edges) (λ y. str_eq y id) x × (x ≢ id))

  abbrev itself : String → Bool
  itself x = str_eq x id

  start-IsSearching :
      IsSearching itself itself
        (arcs_of direction edges)
        Nothing
        (record { found = []; queue = id ∷ [] })
  unfolding contains
  start-IsSearching = record {
    reached = λ x e. Reaches.start (ground arith);
    rooted = λ x e. ground arith;
    apart = λ x e. refl;
    queued =
        λ x m. elim m [ Memᴰ.head q ↦ ground (arith, eq_iff x id, q) | Memᴰ.tail k ↦ elim k [ ] ];
    closed = λ a m e. inr (inl (Memᴰ.head ((eq_iff a.0 id).0 (ground arith))));
  }

  pub closure_lem :
      (order : List String) × (closure id edges direction ≡ some order) × IsOrderedClosure order
  unfolding closure IsClosure
  closure_lem =
      let arcs = arcs_of direction edges in
      let few = potential_le itself itself arcs [] (id ∷ []) in
      let few_edges = few_arcs edges direction in
      let (found, e, all) =
        search_lem itself itself arcs (suc (suc (length edges))) [] (id ∷ []) (omega arith)
          start-IsSearching in
      let (order, q, o) = topological_start_order-IsStartOrder found edges in
      (
        order,
        ap (in_order edges) e ∙ q,
        record {
          found = found;
          ordered = o;
          members = λ x. (
            λ m.
                let (r, k) = (all x).0 (mem_of_perm x o.same m) in
                (r, λ w. ground (arith, eq_iff x id, w)),
            λ r.
                mem_of_perm x (Permᴰ.symm o.same)
                  ((all x).1 (r.0, ground (arith, eq_iff x id, r.1))),
          );
        },
      )

-- `requirements_of` always ends. It returns exactly the nodes that a chain of edges that order a
-- start leads to from `id`, but for `id` itself, and they stand in start order.
pub requirements_of_lem :
    (id : String) (edges : List Edge)
    → (order : List String) × (requirements_of id edges ≡ some order)
      × IsOrderedClosure id edges forward order
unfolding requirements_of
requirements_of_lem id edges = closure_lem id edges forward

-- `dependents_of` always ends. It returns exactly the nodes from which a chain of edges that order
-- a start leads to `id`, but for `id` itself, and they stand in start order.
pub dependents_of_lem :
    (id : String) (edges : List Edge)
    → (order : List String) × (dependents_of id edges ≡ some order)
      × IsOrderedClosure id edges backward order
unfolding dependents_of
dependents_of_lem id edges = closure_lem id edges backward
