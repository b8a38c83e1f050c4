-- ===== src/State/Query/Zones.antt =====
-- The wildcard zones that the resolver is told, and what a suffix matches.
use Prim.Native.String.{◌++◌ as str_append}
use mathlib.Core.List.{Memᴰ}
use mathlib.Core.Path.{subst}
use fghj.Prelude.{
  String, true, ◌≡◌, ◌↔◌, ◌⊎◌, inl, inr, arith, eq_iff, sym, Bool-cases, flat_map, filter, map,
  str_eq,
}
use fghj.Prelude.BTreeMap.{BTreeMap, values}
use fghj.Prelude.Sorting.{
  IsStrict, sort-IsAscending, dedup-IsStrict, mem-dedup, mem_of_mem-dedup, mem-sort,
  mem_of_mem-sort,
}
use fghj.Prelude.Search.{
  mem-filter, mem_of_mem-filter, mem-flat_map, mem_of_mem-flat_map, mem-map, mem_of_mem-map,
}
use fghj.Prelude.Text.{ends_with, ends_with-append, split-ends_with}
use fghj.State.Container.{ContainerInfo, PortRoute}
use fghj.State.Workspace.{WorkspaceState}
use fghj.State.Query.{
  is_running, containers, running_containers, matches_suffix, wildcard_zones, wildcard_suffixes,
}

-- A host matches a suffix if it is the suffix, or ends with a dot and the suffix: a longer label,
-- as in `notmyservice.local`, is no match.
matches_suffix_iff :
    (host suffix : String)
    → (matches_suffix host suffix ≡ true)
      ↔ ((host ≡ suffix) ⊎ ((front : String) × (host ≡ str_append front (str_append "." suffix))))
unfolding matches_suffix
matches_suffix_iff host suffix = (there, back)
  where
    there :
        matches_suffix host suffix ≡ true
        → (host ≡ suffix) ⊎ ((front : String) × (host ≡ str_append front (str_append "." suffix)))
    there h = elim (Bool-cases (str_eq host suffix)) [
      | inl e ↦ inl ((eq_iff host suffix).0 e)
      | inr e ↦ inr (split-ends_with host (str_append "." suffix) (ground arith))
    ]

    back :
        (host ≡ suffix) ⊎ ((front : String) × (host ≡ str_append front (str_append "." suffix)))
        → matches_suffix host suffix ≡ true
    back (inl e) = ground (arith, eq_iff host suffix)
    back (inr (front, e)) =
        let k : ends_with host (str_append "." suffix) ≡ true =
          rw e (ends_with-append front (str_append "." suffix)) in
        ground arith

-- A wildcard route of a running container, for the zone.
pub record Announces (states : BTreeMap WorkspaceState) (zone : String) : Type 0 where
  pub state : WorkspaceState
  pub container : ContainerInfo
  pub route : PortRoute
  pub registered : Memᴰ state (values states)
  pub held : Memᴰ container (containers state)
  pub runs : is_running container ≡ true
  pub routed : Memᴰ route container.desired.routes
  pub wild : route.wildcard ≡ true
  pub named : zone ≡ route.domain

module _ (states : BTreeMap WorkspaceState) (zone : String) where
  zones_in : Memᴰ zone (wildcard_zones (running_containers states)) → Announces states zone
  unfolding wildcard_zones running_containers
  zones_in m =
      let (c, mc, mz) =
        mem_of_mem-flat_map _ (filter is_running (flat_map containers (values states))) zone m in
      let (r, mr, named) = mem_of_mem-map _ (filter (λ r. r.wildcard) c.desired.routes) zone mz in
      let (routed, wild) = mem_of_mem-filter _ c.desired.routes r mr in
      let (there, runs) = mem_of_mem-filter is_running (flat_map containers (values states)) c mc in
      let (s, registered, held) = mem_of_mem-flat_map containers (values states) c there in
      record {
        state = s;
        container = c;
        route = r;
        registered = registered;
        held = held;
        runs = runs;
        routed = routed;
        wild = wild;
        named = named;
      }

  zones_out : Announces states zone → Memᴰ zone (wildcard_zones (running_containers states))
  unfolding wildcard_zones running_containers
  zones_out a =
      mem-flat_map _ (filter is_running (flat_map containers (values states))) a.container zone
        (mem-filter is_running _ a.container
          (mem-flat_map containers (values states) a.state a.container a.registered a.held) a.runs)
        (subst
          (λ z. Memᴰ z (
            map (λ (r : PortRoute). r.domain)
              (filter (λ r. r.wildcard) a.container.desired.routes)))
          (sym a.named)
          (mem-map (λ (r : PortRoute). r.domain) _ a.route
            (mem-filter (λ r. r.wildcard) a.container.desired.routes a.route a.routed a.wild)))

-- The wildcard zones are in strictly ascending order, so none is there twice, and they are exactly
-- the domains of the wildcard routes of running containers.
pub wildcard_suffixes_lem :
    (states : BTreeMap WorkspaceState)
    → IsStrict (wildcard_suffixes states)
      × ((zone : String) → Memᴰ zone (wildcard_suffixes states) ↔ Announces states zone)
unfolding wildcard_suffixes
wildcard_suffixes_lem states = (
  dedup-IsStrict _ (sort-IsAscending _),
  λ zone. (
    λ m. zones_in states zone (mem_of_mem-sort zone _ (mem_of_mem-dedup zone _ m)),
    λ a. mem-dedup zone _ (mem-sort zone _ (zones_out states zone a)),
  ),
)
