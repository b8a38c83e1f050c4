-- ===== src/Orchestrator/Examples.antt =====
-- A start order, the nodes around a node and the outcomes of a run, on a concrete graph: tests, and
-- the statements about them at a concrete input.
use mathlib.Core.List.{Memᴰ}
use mathlib.Core.Path.{subst, sym}
use fghj.Prelude.{
  ℕ, ◌<◌, String, true, false, none, some, [], ◌∷◌, List, ◌≡◌, ◌↔◌, refl, is_some, arith, str_eq,
  if◌then◌else◌,
}
use fghj.Prelude.BTreeMap.{get, insert}
use fghj.Prelude.Sorting.{sort, insert_sorted}
use fghj.Prelude.Sets.{contains}
use fghj.Resolver.Graph.{Edge, needed_to_start}
use fghj.Orchestrator.Order.{topological_start_order, deps, pass, passes}
use fghj.Orchestrator.Order.Sorted.{
  IsStartOrder, IsRanked, topological_start_order-IsStartOrder, topological_start_order_sorted,
}
use fghj.Resolver.Search.{search, visit, is_new, arcs_of, forward, backward}
use fghj.Orchestrator.Closure.{requirements_of, dependents_of, closure, waited_on}
use fghj.Orchestrator.Closure.Found.{IsOrderedClosure, requirements_of_lem, dependents_of_lem}
use fghj.Orchestrator.Outcomes.{
  StartOutcomes, new, fail, block, blocked_by, cause, push_all, push_at, error, line, victims,
  within,
}
use fghj.Orchestrator.Outcomes.Roots.{Records, Needs, blocked_for_root, blocked_by-eq-none_iff}

abbrev edge : String → String → Edge
edge from to = record {
  from = from;
  to = to;
  kind = "depends-on";
  required = true;
  condition = none;
  via_flow = none;
  flows = [];
  implied = false;
}

-- The application needs the cache and the database, the cache needs the database.
abbrev edges : List Edge
edges = edge "app" "cache" ∷ edge "cache" "db" ∷ edge "app" "db" ∷ []

abbrev ids : List String
ids = "app" ∷ "cache" ∷ "db" ∷ []

ordered : topological_start_order ids edges ≡ some ("db" ∷ "cache" ∷ "app" ∷ [])
unfolding topological_start_order passes pass deps contains sort insert_sorted needed_to_start
ordered = refl

cyclic :
    topological_start_order ("a" ∷ "b" ∷ "c" ∷ []) (edge "a" "b" ∷ edge "b" "a" ∷ [])
    ≡ some ("c" ∷ "a" ∷ "b" ∷ [])
unfolding topological_start_order passes pass deps contains sort insert_sorted needed_to_start
cyclic = refl

required : requirements_of "app" edges ≡ some ("db" ∷ "cache" ∷ [])
unfolding requirements_of closure search visit is_new arcs_of topological_start_order passes pass
    deps contains sort insert_sorted needed_to_start
required = refl

waited : waited_on ids edges ≡ "cache" ∷ "db" ∷ "db" ∷ []
unfolding waited_on contains needed_to_start
waited = refl

abbrev rank : String → ℕ
rank id = if str_eq id "app" then 2 else if str_eq id "cache" then 1 else 0

ranked : IsRanked rank edges
ranked e (Memᴰ.head q) n = subst (λ (x : Edge). rank x.to < rank x.from) (sym q) (omega arith)
ranked e (Memᴰ.tail (Memᴰ.head q)) n =
    subst (λ (x : Edge). rank x.to < rank x.from) (sym q) (omega arith)
ranked e (Memᴰ.tail (Memᴰ.tail (Memᴰ.head q))) n =
    subst (λ (x : Edge). rank x.to < rank x.from) (sym q) (omega arith)
ranked e (Memᴰ.tail (Memᴰ.tail (Memᴰ.tail m))) n = elim m [ ]

abbrev before_cache : List String
before_cache = "db" ∷ []

topological_start_order_sorted_example : Memᴰ (edge "cache" "db").to before_cache
unfolding needed_to_start
topological_start_order_sorted_example =
    topological_start_order_sorted rank ids ("db" ∷ "cache" ∷ "app" ∷ []) before_cache ("app" ∷ [])
      edges (edge "cache" "db") ranked ordered (Memᴰ.tail (Memᴰ.head refl)) refl
      (Memᴰ.tail (Memᴰ.head refl)) (Memᴰ.tail (Memᴰ.tail (Memᴰ.head refl))) refl

topological_start_order-IsStartOrder_example :
    (order : List String) × (topological_start_order ids edges ≡ some order)
    × IsStartOrder (deps ids edges) ids order
topological_start_order-IsStartOrder_example = topological_start_order-IsStartOrder ids edges

requirements_of_lem_example :
    (order : List String) × (requirements_of "app" edges ≡ some order)
    × IsOrderedClosure "app" edges forward order
requirements_of_lem_example = requirements_of_lem "app" edges

dependents_of_lem_example :
    (order : List String) × (dependents_of "db" edges ≡ some order)
    × IsOrderedClosure "db" edges backward order
dependents_of_lem_example = dependents_of_lem "db" edges

-- The database fails, and blocks the cache.
abbrev failed_db : StartOutcomes
failed_db = fail (new ids edges) "db" "no disk"

abbrev blocked_cache : StartOutcomes
blocked_cache = block failed_db "cache" "db"

cache_blocked : blocked_by failed_db "cache" ≡ some "db"
unfolding blocked_by cause new push_all push_at get insert sort insert_sorted contains
    needed_to_start
cache_blocked = refl

reported : error blocked_cache ≡ some "db: no disk (blocked: cache)"
unfolding error line victims insert new
reported = refl

records : Records ids edges blocked_cache
records = Records.blocked "cache" "db" cache_blocked (Records.failed "db" "no disk" Records.start)

blocked_for_root_example :
    (is_some (get "db" blocked_cache.failed) ≡ true) × Needs ids edges "cache" "db"
unfolding get insert new
blocked_for_root_example = blocked_for_root ids edges blocked_cache "cache" "db" records refl

blocked_by-eq-none_iff_example : (blocked_by blocked_cache "app" ≡ none) ↔ (
    (e : Edge)
    → Memᴰ e edges
    → within ids e ≡ true
    → e.from ≡ "app"
    → (get e.to blocked_cache.failed ≡ none) × (get e.to blocked_cache.blocked ≡ none))
blocked_by-eq-none_iff_example = blocked_by-eq-none_iff ids edges blocked_cache "app" records
