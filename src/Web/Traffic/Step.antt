-- ===== src/Web/Traffic/Step.antt =====
-- src/web/traffic.rs: the operations that change a log.
use fghj.Prelude.{ℕ, String, Bool, Option, List}
use fghj.Web.Traffic.Body.{BodyMode, Captured, Side}
use fghj.Web.Traffic.{Request, Shipped}

-- An operation on a log, with what it reads of the outside.
pub data Step : Type 0 where
  set_mode : Option BodyMode → Step
  clear : ℕ → Step
  begin : ℕ → ℕ → Request → String → String → Step
  ingest : ℕ → Shipped → Step
  response : ℕ → ℕ → List (String × String) → Option String → Option String → Bool → ℕ → Step
  fail : ℕ → String → ℕ → Step
  closed : ℕ → ℕ → Step
  chunk : Side → List ℕ → ℕ → Step
  finish : ℕ → Side → (BodyMode → Captured → Captured) → ℕ → Step
