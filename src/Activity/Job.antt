-- ===== src/Activity/Job.antt =====
-- src/activity.rs: one job of the log, and the log's state.
use fghj.Prelude.{ℕ, String, Bool, true, false, Option, List, PartialEq}
use mathlib.Core.Path.{◌≡◌}
use mathlib.Core.Logic.{◌↔◌}
use native.Mathlib.Omega.{arith}

pub data ActivityKind : Type 0 where
  pull : ActivityKind
  remove : ActivityKind
  switch : ActivityKind
  start : ActivityKind
  stop : ActivityKind
  delete : ActivityKind

pub data ActivityStatus : Type 0 where
  queued : ActivityStatus
  running : ActivityStatus
  done : ActivityStatus
  error : ActivityStatus
  cancelled : ActivityStatus

abbrev pub is_open : ActivityStatus → Bool
is_open ActivityStatus.queued = true
is_open ActivityStatus.running = true
is_open ActivityStatus.done = false
is_open ActivityStatus.error = false
is_open ActivityStatus.cancelled = false

abbrev pub is_running : ActivityStatus → Bool
is_running ActivityStatus.running = true
is_running _ = false

abbrev pub is_queued : ActivityStatus → Bool
is_queued ActivityStatus.queued = true
is_queued _ = false

abbrev pub same_kind : ActivityKind → ActivityKind → Bool
same_kind ActivityKind.pull ActivityKind.pull = true
same_kind ActivityKind.remove ActivityKind.remove = true
same_kind ActivityKind.switch ActivityKind.switch = true
same_kind ActivityKind.start ActivityKind.start = true
same_kind ActivityKind.stop ActivityKind.stop = true
same_kind ActivityKind.delete ActivityKind.delete = true
same_kind _ _ = false

pub same_kind_iff : (a b : ActivityKind) → (same_kind a b ≡ true) ↔ (a ≡ b)
same_kind_iff a b = ground arith

instance abbrev pub eq_ActivityKind : PartialEq ActivityKind
eq_ActivityKind = record { agrees = same_kind; agrees_iff = same_kind_iff }

-- Times are milliseconds.
pub record Activity : Type 0 where
  pub id : ℕ
  pub workspace_id : Option String
  pub parent : Option ℕ
  pub kind : ActivityKind
  pub key : String
  pub status : ActivityStatus
  pub log : String
  pub started_ms : ℕ
  pub finished_ms : Option ℕ

-- The jobs are in start order.
pub record Inner : Type 0 where
  pub next_id : ℕ
  pub items : List Activity

abbrev pub empty : Inner
empty = record { next_id = 0; items = List.[] }
