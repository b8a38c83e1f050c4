-- ===== src/Activity/Examples.antt =====
-- A log with a pull, a clone that it will get to, and a switch that is over: the statements about
-- src/activity.rs at a concrete input.
use mathlib.Core.List.{Memᴰ}
use fghj.Prelude.{ℕ, ◌<◌, ◌≤◌, false, none, some, [], ◌∷◌, ◌≡◌, Result, err, refl, arith}
use fghj.Prelude.Search.{All-mem}
use fghj.Activity.Job.{Activity, ActivityKind, ActivityStatus, Inner}
use fghj.Activity.Tree.{Under}
use fghj.Activity.Valid.{IsValid}
use fghj.Activity.Finish.{Ends, finish_lem}
use fghj.Activity.Start.{Starts, start_lem}
use fghj.Activity.Append.{Appends, append_lem}
use fghj.Activity.Supersede.{start_superseding_lem}
use fghj.Activity.Call.{Call}
use fghj.Activity.Traces.{calls, calls-IsValid}
use fghj.Activity.{
  children, grow, push, remove_tree, tree, update, update_all, append, cancel, finish, find_top,
  job, pushed, start, start_superseding, is_top,
}

abbrev all_repos : Activity
all_repos = pushed 5 1 (some "shop") none ActivityKind.pull "pull-all"

abbrev api_clone : Activity
api_clone = record (pushed 6 2 (some "shop") (some 1) ActivityKind.pull "api") {
  status = ActivityStatus.queued;
}

abbrev to_dev : Activity
to_dev = record (pushed 7 3 (some "shop") none ActivityKind.switch "dev") {
  status = ActivityStatus.done;
  finished_ms = some 9;
}

abbrev morning : Inner
morning = record { next_id = 3; items = all_repos ∷ api_clone ∷ to_dev ∷ [] }

morning-IsValid : IsValid morning
morning-IsValid = record {
  ascending = (
    λ b m. All-mem (λ (z : Activity). 1 < z.id) (api_clone ∷ to_dev ∷ []) b (omega arith) m,
    (
      λ b m. All-mem (λ (z : Activity). 2 < z.id) (to_dev ∷ []) b (omega arith) m,
      (λ b m. elim m [ ], tt),
    ),
  );
  given =
      λ a m. All-mem (λ (z : Activity). (0 < z.id) × (z.id ≤ 3)) morning.items a (omega arith) m;
  older = λ a p m.
      All-mem (λ (z : Activity). z.parent ≡ some p → p < z.id) morning.items a
        (λ e. absurd (ground arith), (λ e. ground arith, (λ e. absurd (ground arith), tt))) m;
  rooted = λ a p m.
      All-mem
        (λ (z : Activity). z.parent ≡ some p → (b : Activity) × Memᴰ b morning.items × (b.id ≡ p))
        morning.items a
        (
          λ e. absurd (ground arith),
          (λ e. (all_repos, Memᴰ.head refl, ground arith), (λ e. absurd (ground arith), tt)),
        )
        m;
  named = (
    λ b m _.
        All-mem (λ (z : Activity). is_top (some "shop") ActivityKind.pull "pull-all" z ≡ false)
          (api_clone ∷ to_dev ∷ []) b (refl, (refl, tt)) m,
    (λ b m e. absurd (ground arith), (λ b m. elim m [ ], tt)),
  );
}

calls-IsValid_example :
    (next : Inner) × (calls
        ((10, Call.start_superseding (some "shop") ActivityKind.pull "pull-all")
          ∷ (11, Call.child 4 none "web")
          ∷ (12, Call.append 5 "cloning")
          ∷ (13, Call.settle 4 (err "no network"))
          ∷ [])
        morning
      ≡ some next)
    × IsValid next
calls-IsValid_example =
    calls-IsValid
      ((10, Call.start_superseding (some "shop") ActivityKind.pull "pull-all")
        ∷ (11, Call.child 4 none "web")
        ∷ (12, Call.append 5 "cloning")
        ∷ (13, Call.settle 4 (err "no network"))
        ∷ [])
      morning morning-IsValid

finish_lem_example :
    (next : Inner) × (finish 10 1 ActivityStatus.done none morning ≡ some next)
    × IsValid next
    × (next.next_id ≡ 3)
    × ((x : ℕ)
        → Ends 10 1 ActivityStatus.done none
            (Under morning.items 1 x)
            (job x morning.items)
            (job x next.items))
finish_lem_example = finish_lem 10 1 ActivityStatus.done none morning morning-IsValid refl

start_lem_example :
    (next : Inner) × (r : Result ℕ Activity) × (start 10
        (some "shop")
        ActivityKind.switch
        "dev"
        morning
      ≡ some (next, r))
    × IsValid next
    × Starts 10 (some "shop") ActivityKind.switch "dev" morning next r
start_lem_example = start_lem 10 (some "shop") ActivityKind.switch "dev" morning morning-IsValid

start_superseding_lem_example :
    (next : Inner) × (id : ℕ) × (start_superseding 10
        (some "shop")
        ActivityKind.pull
        "pull-all"
        morning
      ≡ some (next, id))
    × IsValid next
    × (find_top next (some "shop") ActivityKind.pull "pull-all"
        ≡ some (pushed 10 id (some "shop") none ActivityKind.pull "pull-all"))
start_superseding_lem_example =
    start_superseding_lem 10 (some "shop") ActivityKind.pull "pull-all" morning morning-IsValid

append_lem_example :
    (next : Inner) × (append 2 "cloning" morning ≡ some next)
    × IsValid next
    × (next.next_id ≡ 3)
    × ((x : ℕ)
        → Appends "cloning" (Under morning.items x 2) (job x morning.items) (job x next.items))
append_lem_example = append_lem "cloning" morning morning-IsValid 2

-- The pull is called off with its clone, and a new one starts under the next id.
superseded :
    start_superseding 10 (some "shop") ActivityKind.pull "pull-all" morning
    ≡ some (
      record {
        next_id = 4;
        items = to_dev ∷ pushed 10 4 (some "shop") none ActivityKind.pull "pull-all" ∷ [];
      },
      4,
    )
unfolding start_superseding start cancel finish find_top tree grow children update_all update
    remove_tree push
superseded = refl
