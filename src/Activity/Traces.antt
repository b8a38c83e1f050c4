-- ===== src/Activity/Traces.antt =====
-- src/activity.rs: any sequence of the log's operations.
use mathlib.Core.Option
use fghj.Prelude.{
  ℕ, String, Option, none, some, List, [], ◌∷◌, ◌≡◌, arith, refl, Option-cases, ok, err, inl, inr,
}
use fghj.Activity.Job.{ActivityKind, ActivityStatus, Inner, empty}
use fghj.Activity.Valid.{IsValid, mem_of_job, push-IsValid}
use fghj.Activity.Update.{Aligned-IsValid, update-Aligned}
use fghj.Activity.Finish.{finish_lem}
use fghj.Activity.Start.{start_lem}
use fghj.Activity.Append.{append_lem}
use fghj.Activity.Call.{Call}
use fghj.Activity.Supersede.{start_superseding_lem}
use fghj.Activity.{
  append, begin, begun, cancel, child_of_kind, job, or_kind, queued_child_of_kind, settle, start,
  start_superseding,
}

-- The log that a call leaves.
unfoldable pub call : ℕ → Call → Inner → Option Inner
call now (Call.start ws kind key) inner = Option.map (λ p. p.0) (start now ws kind key inner)
call now (Call.start_superseding ws kind key) inner =
    Option.map (λ p. p.0) (start_superseding now ws kind key inner)
call now (Call.child id kind key) inner = some (child_of_kind now id kind key inner).0
call now (Call.queued_child id kind key) inner = some (queued_child_of_kind now id kind key inner).0
call now (Call.begin id) inner = some (begin now id inner)
call now (Call.append id text) inner = append id text inner
call now (Call.settle id result) inner = settle now id result inner
call now (Call.cancel id why) inner = cancel now id why inner

unfoldable pub calls : List (ℕ × Call) → Inner → Option Inner
calls [] inner = some inner
calls ((now, c) ∷ l) inner = elim (call now c inner) [ none ↦ none | some next ↦ calls l next ]

pub empty-IsValid : IsValid empty
empty-IsValid = record {
  ascending = tt;
  given = λ a m. elim m [ ];
  older = λ a p m e. elim m [ ];
  rooted = λ a p m e. elim m [ ];
  named = tt;
}

module _ (inner : Inner) (valid : IsValid inner) where
  child-IsValid :
      (now id : ℕ) (kind : Option ActivityKind) (key : String)
      → IsValid (child_of_kind now id kind key inner).0
  unfolding child_of_kind
  child-IsValid now id kind key = elim (Option-cases (job id inner.items)) [
    | inl e ↦ rw (e, child_of_kind) valid
    | inr (a, e) ↦
        let (m, q) = mem_of_job id inner.items a e in
        rw (e, child_of_kind)
          (push-IsValid inner valid now a.workspace_id (some id) (or_kind kind a.kind) key
            (λ p h. (a, m, ground arith)) (λ h. absurd (ground arith)))
  ]

  queued_child-IsValid :
      (now id : ℕ) (kind : Option ActivityKind) (key : String)
      → IsValid (queued_child_of_kind now id kind key inner).0
  unfolding queued_child_of_kind
  queued_child-IsValid now id kind key =
      let next = (child_of_kind now id kind key inner).0 in
      Aligned-IsValid next _ (child-IsValid now id kind key) (
        update-Aligned (λ a. record a { status = ActivityStatus.queued })
          (λ a. (refl, refl, refl, refl, refl)) _ next.items)

  begin-IsValid : (now id : ℕ) → IsValid (begin now id inner)
  unfolding begin
  begin-IsValid now id =
      Aligned-IsValid inner _ valid (update-Aligned (begun now) (λ a. ground arith) id inner.items)

  call_lem : (now : ℕ) (c : Call) → (next : Inner) × (call now c inner ≡ some next) × IsValid next
  unfolding call settle cancel
  call_lem now (Call.start ws kind key) =
      let (next, r, e, v, _) = start_lem now ws kind key inner valid in (next, rw e, v)
  call_lem now (Call.start_superseding ws kind key) =
      let (next, id, e, v, _) = start_superseding_lem now ws kind key inner valid in (next, rw e, v)
  call_lem now (Call.child id kind key) = (_, refl, child-IsValid now id kind key)
  call_lem now (Call.queued_child id kind key) = (_, refl, queued_child-IsValid now id kind key)
  call_lem now (Call.begin id) = (_, refl, begin-IsValid now id)
  call_lem now (Call.append id text) =
      let (next, e, v, _, _) = append_lem text inner valid id in (next, e, v)
  call_lem now (Call.settle id (ok u)) =
      let (next, e, v, _, _) = finish_lem now id ActivityStatus.done none inner valid refl in
      (next, e, v)
  call_lem now (Call.settle id (err m)) =
      let (next, e, v, _, _) = finish_lem now id ActivityStatus.error _ inner valid refl in
      (next, e, v)
  call_lem now (Call.cancel id why) =
      let (next, e, v, _, _) = finish_lem now id ActivityStatus.cancelled _ inner valid refl in
      (next, e, v)

-- Whatever is called on a valid log, every call ends without a panic, and the log stays valid.
pub calls-IsValid :
    (l : List (ℕ × Call)) (inner : Inner)
    → IsValid inner
    → (next : Inner) × (calls l inner ≡ some next) × IsValid next
unfolding calls
calls-IsValid [] inner valid = (inner, refl, valid)
calls-IsValid ((now, c) ∷ l) inner valid =
    let (mid, e, v) = call_lem inner valid now c in
    let (next, f, w) = calls-IsValid l mid v in (next, rw (e, calls) f, w)
