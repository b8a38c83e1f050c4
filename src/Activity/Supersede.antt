-- ===== src/Activity/Supersede.antt =====
-- src/activity.rs (ActivityLog::start_superseding): a start that calls off the job it finds.
use mathlib.Core.List.{Memᴰ}
use mathlib.Core.Path.{subst}
use fghj.Prelude.{
  ℕ, String, true, false, Option, none, some, ◌≡◌, ◌⊎◌, inl, inr, arith, sym, refl, ap, ◌∙◌,
  Option-cases, Result, ok, err,
}
use fghj.Activity.Job.{Activity, ActivityKind, ActivityStatus, Inner, is_open, is_running}
use fghj.Activity.Tree.{Under}
use fghj.Activity.Valid.{
  IsValid, IsTop, find_top-absent, mem-find_top, job_of_mem, mem_of_job, same_top,
}
use fghj.Activity.Update.{SameJob}
use fghj.Activity.Finish.{Ends, finish_lem}
use fghj.Activity.Start.{Starts, start_lem}
use fghj.Prelude.Text.{◌+ₛ◌}
use fghj.Activity.{cancel, find_top, job, pushed, start, start_superseding}
use fghj.Activity.Valid.{is_top_iff}

module _ (now id : ℕ) (status : ActivityStatus) (note : Option String) (IsUnder : Type 0) where
  -- A job after its end has the name it had.
  Ends-SameJob :
      (o p : Option Activity)
      → Ends now id status note IsUnder o p
      → (b : Activity) → p ≡ some b
      → (a : Activity) × (o ≡ some a) × SameJob a b
  Ends-SameJob o p Ends.absent b e = absurd (ground arith)
  Ends-SameJob o p (Ends.kept a k) b e = (a, refl, ground arith)
  Ends-SameJob o p (Ends.settled a k q) b e = (a, refl, ground arith)
  Ends-SameJob o p (Ends.called_off a u k q) b e = (a, refl, ground arith)

  -- The job itself, where it was running, has the status that it ends with.
  Ends-running :
      (o p : Option Activity)
      → Ends now id status note IsUnder o p
      → (a b : Activity) → o ≡ some a
      → p ≡ some b
      → IsUnder
      → a.id ≡ id
      → is_running a.status ≡ true
      → b.status ≡ status
  Ends-running o p Ends.absent a b e f u q r = absurd (ground arith)
  Ends-running o p (Ends.kept c k) a b e f u q r = absurd (closed k)
    where
      closed : (¬ IsUnder) ⊎ (is_open c.status ≡ false) → ⊥
      closed (inl v) = v u
      closed (inr v) = ground arith
  Ends-running o p (Ends.settled c k h) a b e f u q r = ground arith
  Ends-running o p (Ends.called_off c v k h) a b e f u q r = absurd (h (ground arith))

module _ (now : ℕ) (workspace_id : Option String) (kind : ActivityKind) (key : String) where
  find_top-fresh :
      (next : Inner) (a : Activity)
      → IsValid next
      → Memᴰ a next.items
      → IsTop workspace_id kind key a
      → find_top next workspace_id kind key ≡ some a
  find_top-fresh next a valid m t = elim (Option-cases (find_top next workspace_id kind key)) [
    | inl e ↦ absurd (
        ground (
          arith,
          find_top-absent next workspace_id kind key e a m,
          is_top_iff workspace_id kind key a,
        ))
    | inr (b, e) ↦
        let (n, s) = mem-find_top next workspace_id kind key b e in
        e ∙ ap some (same_top next valid workspace_id kind key b a n m s t)
  ]

  abbrev IsSuperseded : Inner → Type 0
  IsSuperseded inner =
      (next : Inner) × (id : ℕ) × (start_superseding now workspace_id kind key inner
        ≡ some (next, id))
      × IsValid next
      × (find_top next workspace_id kind key ≡ some (pushed now id workspace_id none kind key))

  -- What a start that was not refused has put under the name.
  find_top-started :
      (inner next : Inner) (r : Result ℕ Activity)
      → Starts now workspace_id kind key inner next r
      → IsValid next
      → ((a : Activity) → r ≡ err a → ⊥)
      → (id : ℕ) × (r ≡ ok id)
        × (find_top next workspace_id kind key ≡ some (pushed now id workspace_id none kind key))
  find_top-started inner next r (Starts.joined a m t k) v h = absurd (h a refl)
  find_top-started inner next r (Starts.fresh n e k left) v h =
      let a = pushed now next.next_id workspace_id none kind key in
      (next.next_id, refl, find_top-fresh next a v ((left a).1 (inl refl)) (refl, refl, refl, refl))

  module _ (inner : Inner) (valid : IsValid inner) where
    -- No job of the name is running once the running one was cancelled.
    not_running :
        (a : Activity) (freed : Inner) (note : Option String)
        → Memᴰ a inner.items
        → IsTop workspace_id kind key a
        → is_running a.status ≡ true
        → ((x : ℕ)
            → Ends now a.id ActivityStatus.cancelled note
                (Under inner.items a.id x)
                (job x inner.items)
                (job x freed.items))
        → IsValid freed
        → (b : Activity) → Memᴰ b freed.items
        → IsTop workspace_id kind key b
        → is_running b.status ≡ false
    not_running a freed note m t r ends v b n s =
        let e = job_of_mem freed v b n in
        let (c, f, k) = Ends-SameJob now a.id _ note _ _ _ (ends b.id) b e in
        let (j, q) = mem_of_job b.id inner.items c f in
        let same : c ≡ a =
          same_top inner valid workspace_id kind key c a j m
            (k.2 ∙ s.0, k.1 ∙ s.1, k.3 ∙ s.2, k.4 ∙ s.3) t in
        let i : b.id ≡ a.id = sym q ∙ ap (λ (z : Activity). z.id) same in
        let shut : b.status ≡ ActivityStatus.cancelled =
          Ends-running now a.id _ note _ _ _ (ends b.id) c b f e
            (subst (Under inner.items a.id) (sym i) Under.here) (ap (λ (z : Activity). z.id) same)
            (subst (λ (z : Activity). is_running z.status ≡ true) (sym same) r) in
        ground arith

    after_cancel :
        (a : Activity)
        → start now workspace_id kind key inner ≡ some (inner, err a)
        → Memᴰ a inner.items
        → IsTop workspace_id kind key a
        → is_running a.status ≡ true
        → IsSuperseded inner
    unfolding cancel start_superseding
    after_cancel a e m t r =
        let note = some ("\n" +ₛ "superseded" +ₛ "\n") in
        let (freed, f, v, _, ends) =
          finish_lem now a.id ActivityStatus.cancelled note inner valid refl in
        let (last, o, g, w, s) = start_lem now workspace_id kind key freed v in
        let (id, q, h) =
          find_top-started freed last o s w
            (refused freed last o s (not_running a freed note m t r ends v)) in
        (last, id, rw (e, start_superseding, f, g, q), w, h)
      where
        refused :
            (freed last : Inner) (o : Result ℕ Activity)
            → Starts now workspace_id kind key freed last o
            → ((b : Activity)
                → Memᴰ b freed.items
                → IsTop workspace_id kind key b
                → is_running b.status ≡ false)
            → (b : Activity) → o ≡ err b
            → ⊥
        refused freed last o (Starts.joined c n u k) idle b q = ground (arith, idle c n u)
        refused freed last o (Starts.fresh n h k left) idle b q = ground arith

    after_start :
        (next : Inner) (r : Result ℕ Activity)
        → start now workspace_id kind key inner ≡ some (next, r)
        → IsValid next
        → Starts now workspace_id kind key inner next r
        → IsSuperseded inner
    unfolding start_superseding
    after_start next r e v (Starts.joined a m t k) = after_cancel a e m t k
    after_start next r e v (Starts.fresh n h k left) =
        let a = pushed now next.next_id workspace_id none kind key in
        (
          next,
          next.next_id,
          rw (e, start_superseding),
          v,
          find_top-fresh next a v ((left a).1 (inl refl)) (refl, refl, refl, refl),
        )

    -- With no other call between its steps, it never panics, and the job it starts is the one that the
    -- name stands for from then on.
    pub start_superseding_lem :
        (next : Inner) × (id : ℕ) × (start_superseding now workspace_id kind key inner
          ≡ some (next, id))
        × IsValid next
        × (find_top next workspace_id kind key ≡ some (pushed now id workspace_id none kind key))
    start_superseding_lem =
        let (next, r, e, v, s) = start_lem now workspace_id kind key inner valid in
        after_start next r e v s
