-- ===== src/Resolver/Closure/Required.antt =====
-- What `required_closure` returns.
use mathlib.Core.List.{Memᴰ, reverse}
use mathlib.Core.List.Permᴰ
use fghj.Prelude.{
  suc, ◌+◌, String, Bool, false, some, List, ◌≡◌, ◌↔◌, refl, arith, length, inl, inr,
}
use fghj.Prelude.Sets.{contains, contains_iff}
use fghj.Prelude.Sorting.{mem_of_perm, length_of_perm}
use fghj.Resolver.Graph.{Edge}
use fghj.Resolver.Search.{arcs_of, forward}
use fghj.Resolver.Search.Reach.{Reaches, IsSearching}
use fghj.Resolver.Search.Whole.{IsClosure, Nothing, search_lem, potential_le, few_arcs}
use fghj.Resolver.Closure.{required_closure}

module _ (edges : List Edge) (seeds : List String) where
  abbrev nowhere : String → Bool
  nowhere x = false

  start-IsSearching :
      IsSearching nowhere
        (contains seeds)
        (arcs_of forward edges)
        Nothing
        (record { found = seeds; queue = reverse seeds })
  start-IsSearching = record {
    reached = λ x e. Reaches.start (ground arith);
    rooted = λ x e. ground arith;
    apart = λ x e. absurd (ground arith);
    queued = λ x m.
        let e = (contains_iff seeds x).1 (mem_of_perm x (Permᴰ.reverse seeds) m) in ground arith;
    closed = λ a m e.
        let k = (contains_iff seeds a.0).0 (ground arith) in
        inr (inl (mem_of_perm a.0 (Permᴰ.symm (Permᴰ.reverse seeds)) k));
  }

  -- `required_closure` always ends. It returns exactly the seeds and the nodes that a chain of
  -- edges that order a start leads to from one of them.
  pub required_closure_lem :
      (set : List String) × (required_closure edges seeds ≡ some set)
      × ((x : String) → Memᴰ x set ↔ Reaches (arcs_of forward edges) (contains seeds) x)
  unfolding required_closure IsClosure
  required_closure_lem =
      let arcs = arcs_of forward edges in
      let few = potential_le nowhere (contains seeds) arcs seeds (reverse seeds) in
      let few_edges = few_arcs edges forward in
      let same = length_of_perm (Permᴰ.reverse seeds) in
      let (set, e, all) =
        search_lem nowhere (contains seeds) arcs (suc (length seeds + length edges)) seeds
          (reverse seeds) (omega arith) start-IsSearching in
      (set, e, λ x. (λ m. ((all x).0 m).0, λ r. (all x).1 (r, refl)))
