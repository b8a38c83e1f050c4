-- ===== src/Resolver/Cycles/Acyclic.antt =====
-- src/resolver/cycles.rs: what the check reports, and that it reports a loop wherever there is one.
use mathlib.Core.List.{Memᴰ}
use mathlib.Core.Option
use mathlib.Core.Path.{subst}
use fghj.Prelude.{
  suc, not, String, true, Option, none, some, List, [], ◌∷◌, map, ◌≡◌, ◌≢◌, ◌↔◌, refl, sym, ap, inl,
  inr, arith, length, filter,
}
use fghj.Prelude.BTreeMap.{BTreeMap, get, keys, get-map_values}
use fghj.Prelude.Sets.{contains}
use fghj.Prelude.Pairwise.{Pairwise}
use fghj.Prelude.Search.{mem_of_mem-filter, mem-filter, mem_of_mem-map}
use fghj.Prelude.Sorting.{sort, dedup, mem-sort, mem_of_mem-sort, mem-dedup, mem_of_mem-dedup}
use fghj.Resolver.Graph.{Edge, needed_to_start}
use fghj.Resolver.Warning.{Warning}
use fghj.Resolver.Search.Whole.{length-filter_le}
use fghj.Orchestrator.Outcomes.{or_default, push_all}
use fghj.Orchestrator.Outcomes.Pushed.{mem-push_all, mem-push_all_new}
use fghj.Resolver.Cycles.{
  Walk, adjacency, distinct, first, cycle_warning, find_cycles, check_cycles,
}
use fghj.Resolver.Cycles.Loops.{Leads, IsLoop, leads_of_loop, map-Leads, map-IsLoop}
use fghj.Resolver.Cycles.Distinct.{distinct_lem}
use fghj.Resolver.Cycles.Walks.{Targets, IsClosed, HasLoops, walk_all_lem, key_or_none}

-- The start of `x` waits for that of `y`.
abbrev pub Needs : List Edge → String → String → Type 0
Needs edges x y = (e : Edge) × Memᴰ e edges × (needed_to_start e ≡ true) × (e.from ≡ x) × (e.to ≡ y)

tidy_mem :
    (y : String) (o : Option (List String))
    → Memᴰ y (or_default (Option.map (λ l. dedup (sort l)) o)) ↔ Memᴰ y (or_default o)
unfolding dedup sort
tidy_mem y none = (λ m. m, λ m. m)
tidy_mem y (some l) = (
  λ m. mem_of_mem-sort y l (mem_of_mem-dedup y (sort l) m),
  λ m. mem-dedup y (sort l) (mem-sort y l m),
)

module _ (edges : List Edge) where
  abbrev pushed : BTreeMap (List String)
  pushed = push_all (filter needed_to_start edges) []

  needs_of_target : (x y : String) → Targets (adjacency edges) x y → Needs edges x y
  unfolding adjacency get
  needs_of_target x y m =
      let k = (tidy_mem y (get x pushed)).0 (
        subst (λ (o : Option (List String)). Memᴰ y (or_default o))
          (get-map_values (λ l. dedup (sort l)) x pushed) m) in
      elim (mem-push_all (filter needed_to_start edges) [] x y k) [
        | inl j ↦ elim j [ ]
        | inr (e, j, p, q) ↦
            let (i, h) = mem_of_mem-filter needed_to_start edges e j in (e, i, h, p, q)
      ]

  target_of_needs : (x y : String) → Needs edges x y → Targets (adjacency edges) x y
  unfolding adjacency
  target_of_needs x y (e, i, h, p, q) =
      let k =
        mem-push_all_new (filter needed_to_start edges) [] e
          (mem-filter needed_to_start edges e i h) in
      let k' : Memᴰ y (or_default (get x pushed)) =
        subst (λ z. Memᴰ y (or_default (get z pushed))) p
          (subst (λ z. Memᴰ z (or_default (get e.from pushed))) q k) in
      subst (λ (o : Option (List String)). Memᴰ y (or_default o))
        (sym (get-map_values (λ l. dedup (sort l)) x pushed)) ((tidy_mem y (get x pushed)).1 k')

module _ (adj : BTreeMap (List String)) where
  reached_is_later :
      (x y d : String) (done : List String)
      → IsClosed adj (d ∷ done)
      → Memᴰ x (d ∷ done)
      → Targets adj x y
      → Memᴰ y done
  reached_is_later x y d done c (Memᴰ.head q) t = c.0 y (subst (λ z. Targets adj z y) q t)
  reached_is_later x y d [] c (Memᴰ.tail m) t = elim m [ ]
  reached_is_later x y d (e ∷ done) c (Memᴰ.tail m) t =
      Memᴰ.tail (reached_is_later x y e done c.1 m t)

  leads_is_later :
      (d : String) (done : List String)
      → IsClosed adj (d ∷ done)
      → (x y : String) → Leads (Targets adj) x y
      → Memᴰ x (d ∷ done)
      → Memᴰ y done
  leads_is_later d done c x y (Leads.one t) m = reached_is_later x y d done c m t
  leads_is_later d done c x z (Leads.more {y} t l) m =
      leads_is_later d done c y z l (Memᴰ.tail (reached_is_later x y d done c m t))

  -- A node of a list that is closed does not lead back to itself.
  no_loop :
      (done : List String)
      → IsClosed adj done
      → (x : String) → Memᴰ x done
      → Leads (Targets adj) x x
      → ⊥
  no_loop [] c x m l = elim m [ ]
  no_loop (d ∷ done) c x m l = no_loop done c.1 x (leads_is_later d done c x x l m) l

  -- Only a key leads anywhere.
  key_of_target : (x y : String) → Targets adj x y → Memᴰ x (keys adj)
  key_of_target x y t = elim (key_or_none adj x) [
    | inl k ↦ k
    | inr n ↦ elim (subst (λ (o : Option (List String)). Memᴰ y (or_default o)) n t) [ ]
  ]

  leads_from_key : (x y : String) → Leads (Targets adj) x y → Memᴰ x (keys adj)
  leads_from_key x y (Leads.one t) = key_of_target x y t
  leads_from_key x z (Leads.more {y} t l) = key_of_target x y t

find_cycles_lem :
    (edges : List Edge)
    → (s : Walk) × (find_cycles edges ≡ some s)
      × HasLoops (adjacency edges) s.cycles
      × (s.cycles ≡ [] → (x : String) → Leads (Needs edges) x x → ⊥)
unfolding find_cycles
find_cycles_lem edges =
    let adj = adjacency edges in
    let few = length-filter_le (λ k. not (contains [] k)) (keys adj) in
    let (s, q, later, all) =
      walk_all_lem adj (suc (length (keys adj))) (sort (keys adj))
        (record { done = []; stack = []; cycles = [] }) refl (omega arith) in
    (
      s,
      q,
      later.loops (λ c m. elim m [ ]),
      λ e x l.
          let l' = map-Leads (Needs edges) (Targets adj) (target_of_needs edges) x x l in
          no_loop adj s.done ((later.closed e).1 tt) x
            (all x (mem-sort x (keys adj) (leads_from_key adj x x l'))) l',
    )

distinct-eq-nil : (cycles : List (List String)) → distinct [] cycles ≡ [] → cycles ≡ []
unfolding distinct
distinct-eq-nil [] e = refl
distinct-eq-nil (c ∷ cycles) e = absurd (ground arith)

-- `check_cycles` ends, and it reports nothing exactly when no node leads back to itself along the
-- edges that order a start.
pub check_cycles_complete :
    (edges : List Edge)
    → (warnings : List Warning) × (check_cycles edges ≡ some warnings)
      × ((warnings ≡ []) ↔ ((x : String) → Leads (Needs edges) x x → ⊥))
unfolding check_cycles distinct
check_cycles_complete edges =
    let (s, q, loops, free) = find_cycles_lem edges in
    (
      map cycle_warning (distinct [] s.cycles),
      ap
          (λ (o : Option Walk). elim o [
            | none ↦ none
            | some t ↦ some (map cycle_warning (distinct [] t.cycles))
          ])
          q,
      (
        λ e. free (distinct-eq-nil s.cycles (map-eq-nil (distinct [] s.cycles) e)),
        λ h. none_found s.cycles loops h,
      ),
    )
  where
    map-eq-nil : (l : List (List String)) → map cycle_warning l ≡ [] → l ≡ []
    map-eq-nil [] e = refl
    map-eq-nil (c ∷ l) e = absurd (ground arith)

    none_found :
        (cycles : List (List String))
        → HasLoops (adjacency edges) cycles
        → ((x : String) → Leads (Needs edges) x x → ⊥)
        → map cycle_warning (distinct [] cycles) ≡ []
    none_found [] loops h = refl
    none_found (c ∷ cycles) loops h = absurd (
        h (first c) (
          map-Leads (Targets (adjacency edges)) (Needs edges) (needs_of_target edges) (first c)
            (first c) (leads_of_loop (Targets (adjacency edges)) c (loops c (Memᴰ.head refl)))))

-- Each warning of `check_cycles` names, in the order of the walk, a list of nodes in which each needs
-- the next to start, and the last needs the first.
pub check_cycles_sound :
    (edges : List Edge) (warnings : List Warning) (w : Warning)
    → check_cycles edges ≡ some warnings
    → Memᴰ w warnings
    → (c : List String) × IsLoop (Needs edges) c × (w ≡ cycle_warning c)
unfolding check_cycles
check_cycles_sound edges warnings w e m =
    let (s, q, loops, free) = find_cycles_lem edges in
    let same : warnings ≡ map cycle_warning (distinct [] s.cycles) = ground arith in
    let (c, k, p) = mem_of_mem-map cycle_warning (distinct [] s.cycles) w (subst (Memᴰ w) same m) in
    (
      c,
      map-IsLoop (Targets (adjacency edges)) (Needs edges) (needs_of_target edges) c
          (loops c ((distinct_lem s.cycles).0 c k)),
      p,
    )

-- What `check_cycles` reports of the cycles that the search found: one warning for each of a list of
-- them, all loops, of which no two have the same nodes, and which has one with the nodes of any cycle
-- that the search found.
pub check_cycles_once :
    (edges : List Edge)
    → (s : Walk) × (kept : List (List String)) × (find_cycles edges ≡ some s)
      × (check_cycles edges ≡ some (map cycle_warning kept))
      × ((c : List String) → Memᴰ c kept → Memᴰ c s.cycles × IsLoop (Needs edges) c)
      × Pairwise (λ c d. sort c ≢ sort d) kept
      × ((c : List String) → Memᴰ c s.cycles → (d : List String) × Memᴰ d kept × (sort d ≡ sort c))
unfolding check_cycles
check_cycles_once edges =
    let (s, q, loops, free) = find_cycles_lem edges in
    let (found, apart, covered) = distinct_lem s.cycles in
    (
      s,
      distinct [] s.cycles,
      q,
      ap
          (λ (o : Option Walk). elim o [
            | none ↦ none
            | some t ↦ some (map cycle_warning (distinct [] t.cycles))
          ])
          q,
      λ c k. (
        found c k,
        map-IsLoop (Targets (adjacency edges)) (Needs edges) (needs_of_target edges) c
            (loops c (found c k)),
      ),
      apart,
      covered,
    )
