-- ===== src/Resolver/Cycles/Examples.antt =====
-- Dependencies in a loop: tests, and the statements about them at a concrete input.
use mathlib.Core.List.{Memᴰ}
use fghj.Prelude.{true, false, some, none, [], ◌∷◌, List, String, map, ◌≡◌, ◌≢◌, ◌↔◌, refl}
use fghj.Prelude.Pairwise.{Pairwise}
use fghj.Prelude.BTreeMap.{get, insert, map_values, keys}
use fghj.Prelude.Sets.{contains}
use fghj.Prelude.Sorting.{sort, insert_sorted, dedup}
use fghj.Resolver.Graph.{Edge, needed_to_start}
use fghj.Resolver.Warning.{Warning, new_blocking}
use fghj.Orchestrator.Outcomes.{push_all, push_at}
use fghj.Resolver.Cycles.{
  Walk, adjacency, from, pop, follow, walk, walk_all, distinct, cycle_warning, find_cycles,
  check_cycles,
}
use fghj.Resolver.Cycles.Loops.{Leads, IsLoop}
use fghj.Resolver.Cycles.Acyclic.{
  Needs, check_cycles_complete, check_cycles_sound, check_cycles_once,
}

abbrev depends : String → String → Edge
depends x y = record {
  from = x;
  to = y;
  kind = "depends-on";
  required = true;
  condition = none;
  via_flow = none;
  flows = [];
  implied = false;
}

abbrev looping : List Edge
looping = depends "a" "b" ∷ depends "b" "c" ∷ depends "c" "a" ∷ depends "c" "d" ∷ []

abbrev reported : Warning
reported =
    new_blocking
      "dependency cycle: a -> b -> c -> a. Each waits for the next to start, so none of them can"

a_longer_cycle : check_cycles looping ≡ some (reported ∷ [])
unfolding check_cycles find_cycles adjacency push_all push_at walk walk_all follow from pop distinct
    cycle_warning needed_to_start get insert map_values keys contains sort insert_sorted dedup
a_longer_cycle = refl

no_cycle : check_cycles (depends "app" "db" ∷ depends "app" "cache" ∷ []) ≡ some []
unfolding check_cycles find_cycles adjacency push_all push_at walk walk_all follow from pop distinct
    needed_to_start get insert map_values keys contains sort insert_sorted dedup
no_cycle = refl

check_cycles_complete_example :
    (warnings : List Warning) × (check_cycles looping ≡ some warnings)
    × ((warnings ≡ []) ↔ ((x : String) → Leads (Needs looping) x x → ⊥))
check_cycles_complete_example = check_cycles_complete looping

check_cycles_sound_example :
    (c : List String) × IsLoop (Needs looping) c × (reported ≡ cycle_warning c)
check_cycles_sound_example =
    check_cycles_sound looping (reported ∷ []) reported a_longer_cycle (Memᴰ.head refl)

check_cycles_once_example :
    (s : Walk) × (kept : List (List String)) × (find_cycles looping ≡ some s)
    × (check_cycles looping ≡ some (map cycle_warning kept))
    × ((c : List String) → Memᴰ c kept → Memᴰ c s.cycles × IsLoop (Needs looping) c)
    × Pairwise (λ c d. sort c ≢ sort d) kept
    × ((c : List String) → Memᴰ c s.cycles → (d : List String) × Memᴰ d kept × (sort d ≡ sort c))
check_cycles_once_example = check_cycles_once looping
