-- ===== src/Activity/Finish.antt =====
-- src/activity.rs (ActivityHandle::finish): a job settles with everything open under it.
use mathlib.Core.List.{Memᴰ}
use mathlib.Core.Path.{subst}
use mathlib.Core.Option
use fghj.Prelude.{
  ℕ, String, true, false, Option, none, some, List, ◌≡◌, ◌≢◌, ◌↔◌, ◌⊎◌, inl, inr, arith, refl,
  nat_eq, nat_eq_iff, if◌then◌else◌, Bool-cases,
}
use fghj.Activity.Job.{Activity, ActivityStatus, Inner, is_open}
use fghj.Activity.Tree.{Under, tree_lem}
use fghj.Activity.Valid.{IsValid, IsValid-IsOlder, has_iff}
use fghj.Activity.Update.{Aligned-IsValid, KeepsJob, job-update_all, update_all-Aligned}
use fghj.Activity.{closed, finish, has, job, update_all, with_note}

-- What the end of the job `id` makes of one job, which may be under it.
pub data Ends (now id : ℕ) (status : ActivityStatus) (note : Option String) (IsUnder : Type 0)
    : Option Activity → Option Activity → Type 0 where
  absent : Ends now id status note IsUnder none none
  kept :
      (a : Activity)
      → (¬ IsUnder) ⊎ (is_open a.status ≡ false)
      → Ends now id status note IsUnder (some a) (some a)
  settled :
      (a : Activity)
      → is_open a.status ≡ true
      → a.id ≡ id
      → Ends now id status note IsUnder
          (some a)
          (some record a { log = with_note note a.log; status = status; finished_ms = some now })
  called_off :
      (a : Activity)
      → IsUnder
      → is_open a.status ≡ true
      → a.id ≢ id
      → Ends now id status note IsUnder
          (some a)
          (some record a { status = ActivityStatus.cancelled; finished_ms = some now })

module _ (now id : ℕ) (status : ActivityStatus) (note : Option String) where
  pub closed-KeepsJob : KeepsJob (closed id status note now)
  closed-KeepsJob a = ground arith

  closed_twice :
      is_open status ≡ false
      → (a : Activity)
      → closed id status note now (closed id status note now a) ≡ closed id status note now a
  closed_twice shut a = ground arith

  Ends-closed :
      (IsUnder : Type 0) (a : Activity)
      → IsUnder
      → Ends now id status note IsUnder (some a) (some (closed id status note now a))
  Ends-closed IsUnder a u = elim (Bool-cases (is_open a.status)) [
    | inr e ↦ rw (e, if◌then◌else◌) (Ends.kept a (inr e))
    | inl e ↦ elim (Bool-cases (nat_eq a.id id)) [
      | inl f ↦ rw (e, if◌then◌else◌, f) (Ends.settled a e ((nat_eq_iff a.id id).0 f))
      | inr f ↦ rw (e, if◌then◌else◌, f) (Ends.called_off a u e (ground arith))
    ]
  ]

  Ends-option :
      (IsUnder : Type 0) (ids : List ℕ) (x : ℕ) (o : Option Activity)
      → Memᴰ x ids ↔ IsUnder
      → Ends now id status note IsUnder o
          (if has ids x then Option.map (closed id status note now) o else o)
  Ends-option IsUnder ids x none k =
      subst (Ends now id status note IsUnder none) (ground arith) Ends.absent
  Ends-option IsUnder ids x (some a) k = elim (Bool-cases (has ids x)) [
    | inl e ↦ rw (e, if◌then◌else◌) (Ends-closed IsUnder a (k.0 ((has_iff ids x).0 e)))
    | inr e ↦ rw (e, if◌then◌else◌) (Ends.kept a (inl (λ u. ground (arith, has_iff ids x, k.1 u))))
  ]

  -- Ending a job always comes to an end: the job, if still open, gets the status and the note, every
  -- open job under it is cancelled, and all other jobs stay as they are.
  pub finish_lem :
      (inner : Inner)
      → IsValid inner
      → is_open status ≡ false
      → (next : Inner) × (finish now id status note inner ≡ some next)
        × IsValid next
        × (next.next_id ≡ inner.next_id)
        × ((x : ℕ)
            → Ends now id status note
                (Under inner.items id x)
                (job x inner.items)
                (job x next.items))
  unfolding finish
  finish_lem inner valid shut =
      let (ids, e, k) = tree_lem inner (IsValid-IsOlder inner valid) id in
      let f = closed id status note now in
      (
        record inner { items = update_all f ids inner.items },
        rw (e, finish),
        Aligned-IsValid inner _ valid (update_all-Aligned f closed-KeepsJob ids inner.items),
        refl,
        λ x.
            rw (job-update_all f closed-KeepsJob (closed_twice shut) x ids inner.items)
              (Ends-option (Under inner.items id x) ids x (job x inner.items) (k x)),
      )
