-- ===== src/Activity/Call.antt =====
-- src/activity.rs: the calls that change the log.
use fghj.Prelude.{ℕ, String, Option, Result}
use fghj.Activity.Job.{ActivityKind}

-- A call of one of the log's methods, or of a handle's on the job of that id.
pub data Call : Type 0 where
  start : Option String → ActivityKind → String → Call
  start_superseding : Option String → ActivityKind → String → Call
  child : ℕ → Option ActivityKind → String → Call
  queued_child : ℕ → Option ActivityKind → String → Call
  begin : ℕ → Call
  append : ℕ → String → Call
  settle : ℕ → Result (Unit {0}) String → Call
  cancel : ℕ → String → Call
