-- ===== src/Activity/Append.antt =====
-- src/activity.rs (ActivityHandle::append): a text goes onto a job's log and its ancestors'.
use mathlib.Core.List.{Memᴰ}
use mathlib.Core.Path.{subst}
use mathlib.Core.Option
use fghj.Prelude.{
  ℕ, zero, suc, ◌<◌, ◌≤◌, String, Option, none, some, List, ◌≡◌, ◌↔◌, ◌⊎◌, inl, inr, arith, refl,
  ap, sym, ◌∙◌, nat_eq, nat_eq_iff, Bool-cases, Option-cases, if◌then◌else◌,
}
use fghj.Activity.Job.{Activity, Inner}
use fghj.Activity.Tree.{Under}
use fghj.Activity.Valid.{IsValid, job-eq-none, mem_of_job, same_of_id}
use fghj.Activity.Update.{
  Aligned, Aligned-refl, Aligned-trans, Aligned-IsValid, KeepsJob, job-update, mem-Aligned,
  mem_of_mem-Aligned, update-Aligned,
}
use fghj.Activity.{append, append_up, job, noted, update}

-- What an append makes of one job, which may be the one written to or above it.
pub data Appends (text : String) (IsAbove : Type 0)
    : Option Activity → Option Activity → Type 0 where
  absent : Appends text IsAbove none none
  kept : (a : Activity) → (¬ IsAbove) → Appends text IsAbove (some a) (some a)
  written : (a : Activity) → IsAbove → Appends text IsAbove (some a) (some (noted text a))

module _ (text : String) where
  noted-KeepsJob : KeepsJob (noted text)
  noted-KeepsJob a = (refl, refl, refl, refl, refl)

  Appends-kept :
      (IsAbove : Type 0) (o : Option Activity)
      → ((a : Activity) → o ≡ some a → ¬ IsAbove)
      → Appends text IsAbove o o
  Appends-kept IsAbove none h = Appends.absent
  Appends-kept IsAbove (some a) h = Appends.kept a (h a refl)

  Appends-written :
      (IsAbove : Type 0) (o : Option Activity)
      → IsAbove
      → Appends text IsAbove o (Option.map (noted text) o)
  Appends-written IsAbove none u = Appends.absent
  Appends-written IsAbove (some a) u = Appends.written a u

  Appends-iff :
      (P Q : Type 0) (o p : Option Activity) → P ↔ Q → Appends text P o p → Appends text Q o p
  Appends-iff P Q o p k Appends.absent = Appends.absent
  Appends-iff P Q o p k (Appends.kept a n) = Appends.kept a (λ q. n (k.1 q))
  Appends-iff P Q o p k (Appends.written a u) = Appends.written a (k.0 u)

  -- Where the writes further up do not reach, the first one stays.
  Appends-first :
      (P Q : Type 0) (o p : Option Activity)
      → (¬ P)
      → Q
      → Appends text P (Option.map (noted text) o) p
      → Appends text Q o p
  Appends-first P Q none p n q h = under none refl p h
    where
      under :
          (z : Option Activity)
          → z ≡ none
          → (y : Option Activity) → Appends text P z y
          → Appends text Q none y
      under z e y Appends.absent = Appends.absent
      under z e y (Appends.kept a m) = absurd (ground arith)
      under z e y (Appends.written a u) = absurd (n u)
  Appends-first P Q (some a) p n q h = under (some (noted text a)) refl p h
    where
      under :
          (z : Option Activity)
          → z ≡ some (noted text a)
          → (y : Option Activity) → Appends text P z y
          → Appends text Q (some a) y
      under z e y Appends.absent = absurd (ground arith)
      under z e y (Appends.kept b m) = subst (Appends text Q (some a)) (sym e) (Appends.written a q)
      under z e y (Appends.written b u) = absurd (n u)

module _ (text : String) (inner : Inner) (valid : IsValid inner) where
  le_of_Under : (root x : ℕ) → Under inner.items root x → root ≤ x
  le_of_Under root x Under.here = omega arith
  le_of_Under root x (Under.below {p} a m e q u) =
      omega (arith, valid.older a p m e, le_of_Under root p u)

  module _ (items : List Activity) (aligned : Aligned inner.items items) (id : ℕ) where
    -- The job of the id as it was, where it is one of the log's.
    origin :
        (a : Activity)
        → job id items ≡ some a
        → (c : Activity) × Memᴰ c inner.items × (c.id ≡ id) × (c.parent ≡ a.parent)
    origin a e =
        let (m, q) = mem_of_job id items a e in
        let (c, n, s) = mem_of_mem-Aligned inner.items items a aligned m in (c, n, s.0 ∙ q, s.2)

    -- A job above it is the job itself, or above its parent.
    Under-parent :
        (a : Activity) (p x : ℕ)
        → job id items ≡ some a
        → a.parent ≡ some p
        → (x ≡ id → ⊥)
        → Under inner.items x p ↔ Under inner.items x id
    Under-parent a p x e q ne =
        let (c, n, i, k) = origin a e in
        (λ u. Under.below c n (k ∙ q) i u, λ u. back c n i k id u refl)
      where
        back :
            (c : Activity)
            → Memᴰ c inner.items
            → c.id ≡ id
            → c.parent ≡ a.parent
            → (y : ℕ) → Under inner.items x y
            → y ≡ id
            → Under inner.items x p
        back c n i k y Under.here h = absurd (ne h)
        back c n i k y (Under.below {p = p'} b m f g u) h =
            let same : b ≡ c = same_of_id inner valid b c m n (g ∙ h ∙ sym i) in
            subst (Under inner.items x) (ground (arith, ap (λ (z : Activity). z.parent) same)) u

    -- Above a job that has no parent, or does not exist, is nothing but itself.
    Under-root :
        (x : ℕ)
        → ((a : Activity) → job id items ≡ some a → a.parent ≡ none)
        → (x ≡ id → ⊥)
        → ¬ Under inner.items x id
    Under-root x h ne u = none_above id u refl
      where
        none_above : (y : ℕ) → Under inner.items x y → y ≡ id → ⊥
        none_above y Under.here q = ne q
        none_above y (Under.below b m f g v) q = elim (Option-cases (job id items)) [
          | inl e ↦
              let (d, n, s) = mem-Aligned inner.items items b aligned m in
              job-eq-none id items d e n (sym s.0 ∙ g ∙ q)
          | inr (a, e) ↦
              let (c, n, i, k) = origin a e in
              let same : b ≡ c = same_of_id inner valid b c m n (g ∙ q ∙ sym i) in
              ground (arith, ap (λ (z : Activity). z.parent) same, h a e)
        ]

    job-noted :
        (x : ℕ)
        → job x (update id (noted text) items)
          ≡ (if nat_eq id x then Option.map (noted text) (job x items) else job x items)
    job-noted x = job-update (noted text) (noted-KeepsJob text) x id items

    -- The last write of the walk.
    Appends-top :
        ((a : Activity) → job id items ≡ some a → a.parent ≡ none)
        → (x : ℕ)
        → Appends text (Under inner.items x id) (job x items) (job x (update id (noted text) items))
    Appends-top h x = elim (Bool-cases (nat_eq id x)) [
      | inl e ↦
          rw (job-noted x, e, if◌then◌else◌)
            (Appends-written text _ (job x items)
              (subst (Under inner.items x) (sym ((nat_eq_iff id x).0 e)) Under.here))
      | inr e ↦
          rw (job-noted x, e, if◌then◌else◌)
            (Appends-kept text _ (job x items) (λ a _. Under-root x h (ground arith)))
    ]

    -- A write of the walk that goes on to the parent.
    Appends-step :
        (a : Activity) (p x : ℕ) (o : Option Activity)
        → job id items ≡ some a
        → a.parent ≡ some p
        → Appends text (Under inner.items x p) (job x (update id (noted text) items)) o
        → Appends text (Under inner.items x id) (job x items) o
    Appends-step a p x o e q k = elim (Bool-cases (nat_eq id x)) [
      | inl f ↦
          let i = (nat_eq_iff id x).0 f in
          let (c, n, g, s) = origin a e in
          Appends-first text (Under inner.items x p) _ (job x items) o
            (λ u. omega (arith, le_of_Under x p u, valid.older c p n (s ∙ q)))
            (subst (Under inner.items x) (sym i) Under.here)
            (rw (job-noted x, f, if◌then◌else◌) at k)
      | inr f ↦
          Appends-iff text _ _ (job x items) o (Under-parent a p x e q (ground arith))
            (rw (job-noted x, f, if◌then◌else◌) at k)
    ]

  append_up_lem :
      (fuel id : ℕ) (items : List Activity)
      → Aligned inner.items items
      → id < fuel
      → (next : List Activity) × (append_up fuel id text items ≡ some next)
        × Aligned inner.items next
        × ((x : ℕ) → Appends text (Under inner.items x id) (job x items) (job x next))
  unfolding append_up
  append_up_lem zero id items p lt = absurd (omega arith)
  append_up_lem (suc fuel) id items al lt =
      split (Option-cases (job id items)) (λ p l k. append_up_lem fuel p _ l k)
    where
      written : Aligned inner.items (update id (noted text) items)
      written =
          Aligned-trans inner.items items _ al
            (update-Aligned (noted text) (noted-KeepsJob text) id items)

      split :
          ◌⊎◌ (job id items ≡ none) ((a : Activity) × (job id items ≡ some a))
          → ((p : ℕ)
              → Aligned inner.items (update id (noted text) items)
              → p < fuel
              → (next : List Activity) × (append_up fuel p text (update id (noted text) items)
                  ≡ some next)
                × Aligned inner.items next
                × ((x : ℕ)
                    → Appends text
                        (Under inner.items x p)
                        (job x (update id (noted text) items))
                        (job x next)))
          → (next : List Activity) × (append_up (suc fuel) id text items ≡ some next)
            × Aligned inner.items next
            × ((x : ℕ) → Appends text (Under inner.items x id) (job x items) (job x next))
      split (inl e) ih = (
        items,
        rw (e, append_up),
        al,
        λ x. elim (Bool-cases (nat_eq id x)) [
          | inl f ↦
              Appends-kept text _ (job x items)
                (λ a q. absurd (ground (arith, (nat_eq_iff id x).0 f)))
          | inr f ↦
              Appends-kept text _ (job x items)
                (λ a _. Under-root items al id x (λ b q. absurd (ground arith)) (ground arith))
        ],
      )
      split (inr (a, e)) ih = elim (Option-cases a.parent) [
        | inl q ↦ (
          update id (noted text) items,
          rw (e, append_up, q),
          written,
          Appends-top items al id (λ b f. ground arith),
        )
        | inr (p, q) ↦
            let (c, n, i, s) = origin items al id a e in
            let (next, f, l, k) = ih p written (omega (arith, valid.older c p n (s ∙ q))) in
            (
              next,
              rw (e, append_up, q) f,
              l,
              λ x. Appends-step items al id a p x (job x next) e q (k x),
            )
      ]

  -- The walk up the parents ends; the text is added to the logs of the job and of the jobs above
  -- it, and nothing else changes.
  pub append_lem :
      (id : ℕ)
      → (next : Inner) × (append id text inner ≡ some next)
        × IsValid next
        × (next.next_id ≡ inner.next_id)
        × ((x : ℕ) → Appends text (Under inner.items x id) (job x inner.items) (job x next.items))
  unfolding append
  append_lem id =
      let (items, e, l, k) =
        append_up_lem (suc id) id inner.items (Aligned-refl inner.items) (omega arith) in
      (record inner { items = items }, rw (e, append), Aligned-IsValid inner items valid l, refl, k)
