-- ===== src/Daemon/Heal/Examples.antt =====
-- A database that crashes: tests, and the statements about them at a concrete input.
use mathlib.Core.List.{Memᴰ}
use fghj.Prelude.{ℕ, ◌≤◌, String, true, none, some, List, [], ◌∷◌, ◌≡◌, ◌⊎◌, refl}
use fghj.Prelude.BTreeMap.{get, values}
use fghj.Prelude.Search.{All-mem}
use fghj.State.Container.{ContainerInfo, NodeCondition, condition, never_observed}
use fghj.State.Workspace.{EnvState, empty_env}
use fghj.Reducer.Base.{placeholder_desired}
use fghj.Daemon.Heal.{
  Heal, restart, seconds, max_attempts, is_up_now, delay, due, fresh, put, busy, keeps,
  retain_tries, eligible, last_tried, least_by, min_by_key, candidates, or_insert, attempt, choose,
  pick,
}
use fghj.Daemon.Heal.Picked.{Idles, Acts, pick_cases}
use fghj.Daemon.Heal.Bounded.{Check, StaysDown, run, restarts, give_ups, run-bounded}

abbrev exited : String → ContainerInfo
exited node = record {
  node_id = node;
  desired = record placeholder_desired { running = true };
  observed = record never_observed { status = "exited" };
  pending_action = none;
}

abbrev crashed_env : EnvState
crashed_env = record empty_env { containers = ("db", exited "db") ∷ ("web", exited "web") ∷ [] }

abbrev at : ℕ → Check
at t = record { workspace = "ws"; env = crashed_env; now = seconds t }

abbrev checks : List Check
checks = at 100 ∷ at 101 ∷ at 104 ∷ at 105 ∷ at 110 ∷ at 115 ∷ []

abbrev down_again : String → ℕ → String × Heal
down_again node number = ("ws", restart node NodeCondition.crashed number)

in_turn :
    run checks fresh
    ≡ down_again "db" 1
      ∷ down_again "web" 1
      ∷ down_again "db" 2
      ∷ down_again "web" 2
      ∷ down_again "db" 3
      ∷ []
unfolding run pick choose candidates attempt or_insert eligible due delay retain_tries keeps busy
    put fresh least_by min_by_key last_tried is_up_now condition get values
in_turn = refl

db_down : StaysDown "db" crashed_env
unfolding get is_up_now condition
db_down = (exited "db", refl, refl, refl)

stays_down : (c : Check) → Memᴰ c checks → c.workspace ≡ "ws" → StaysDown "db" c.env
stays_down c m =
    let p : "ws" ≡ "ws" → StaysDown "db" crashed_env = λ e. db_down in
    All-mem (λ (d : Check). d.workspace ≡ "ws" → StaysDown "db" d.env) checks c
      (p, (p, (p, (p, (p, (p, tt)))))) m

run-bounded_example :
    (restarts "ws" "db" (run checks fresh) ≤ max_attempts)
    × (give_ups "ws" "db" (run checks fresh) ≤ 1)
run-bounded_example = run-bounded "ws" "db" checks stays_down

pick_cases_example :
    (((pick "ws" crashed_env (seconds 5) fresh).0 ≡ none)
      × Idles crashed_env (λ node.
        eligible (seconds 5) (retain_tries "ws" crashed_env (seconds 5) fresh "ws" node)))
    ⊎ ((heal : Heal) × ((pick "ws" crashed_env (seconds 5) fresh).0 ≡ some heal)
        × Acts crashed_env
            (λ node.
              eligible (seconds 5) (retain_tries "ws" crashed_env (seconds 5) fresh "ws" node))
            (λ node. retain_tries "ws" crashed_env (seconds 5) fresh "ws" node)
            heal)
pick_cases_example = pick_cases "ws" crashed_env (seconds 5) fresh
