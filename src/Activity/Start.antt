-- ===== src/Activity/Start.antt =====
-- src/activity.rs (ActivityLog::start, start_superseding): one record for each name.
use mathlib.Core.List.{Memᴰ}
use mathlib.Core.Path.{subst}
use fghj.Prelude.{
  ℕ, ◌+◌, String, true, false, Option, none, some, ◌≡◌, ◌↔◌, ◌⊎◌, inl, inr, arith, sym, refl, ap,
  ◌∙◌, Bool-cases, Option-cases, Result, ok, err, if◌then◌else◌,
}
use fghj.Prelude.Search.{mem_of_mem-append, mem-append_left, mem-append_right}
use fghj.Activity.Job.{Activity, ActivityKind, Inner, is_running}
use fghj.Activity.Tree.{Under}
use fghj.Activity.Valid.{
  IsValid, IsTop, find_top-absent, is_top_iff, mem-find_top, push-IsValid, same_top,
}
use fghj.Activity.Remove.{remove_tree_lem}
use fghj.Activity.{find_top, is_top, push, pushed, start}

module _ (now : ℕ) (workspace_id : Option String) (kind : ActivityKind) (key : String) where
  -- What a start answers, and what it leaves of the log.
  pub data Starts (inner : Inner) : Inner → Result ℕ Activity → Type 0 where
    joined :
        (a : Activity)
        → Memᴰ a inner.items
        → IsTop workspace_id kind key a
        → is_running a.status ≡ true
        → Starts inner inner (err a)
    fresh :
        (next : Inner)
        → next.next_id ≡ inner.next_id + 1
        → ((b : Activity)
            → Memᴰ b inner.items × IsTop workspace_id kind key b
            → is_running b.status ≡ false)
        → ((a : Activity)
            → Memᴰ a next.items ↔ (
                (a ≡ pushed now next.next_id workspace_id none kind key)
                ⊎ (Memᴰ a inner.items
                    × ((b : Activity)
                        → Memᴰ b inner.items × IsTop workspace_id kind key b
                        → ¬ Under inner.items b.id a.id))))
        → Starts inner next (ok next.next_id)

  mem-push :
      (inner : Inner) (a : Activity)
      → Memᴰ a (push now workspace_id none kind key inner).items
        ↔ ((a ≡ pushed now (inner.next_id + 1) workspace_id none kind key) ⊎ Memᴰ a inner.items)
  unfolding push
  mem-push inner a = (
    λ m. elim (mem_of_mem-append inner.items _ a m) [
      | inl n ↦ inr n
      | inr (Memᴰ.head q) ↦ inl q
      | inr (Memᴰ.tail n) ↦ elim n [ ]
    ],
    λ m. elim m [
      | inl q ↦ mem-append_right inner.items _ a (Memᴰ.head q)
      | inr n ↦ mem-append_left inner.items _ a n
    ],
  )

  module _ (inner : Inner) where
    IsGone : Activity → Type 0
    IsGone a =
        (b : Activity)
        → Memᴰ b inner.items × IsTop workspace_id kind key b
        → ¬ Under inner.items b.id a.id

    IsIdle : Type 0
    IsIdle =
        (b : Activity)
        → Memᴰ b inner.items × IsTop workspace_id kind key b
        → is_running b.status ≡ false

    Starts-push :
        (rest : Inner)
        → IsValid rest
        → rest.next_id ≡ inner.next_id
        → IsIdle
        → ((a : Activity) → Memᴰ a rest.items → is_top workspace_id kind key a ≡ false)
        → ((a : Activity) → Memᴰ a rest.items ↔ (Memᴰ a inner.items × IsGone a))
        → IsValid (push now workspace_id none kind key rest)
          × Starts inner
              (push now workspace_id none kind key rest)
              (ok (push now workspace_id none kind key rest).next_id)
    unfolding IsGone IsIdle
    Starts-push rest valid same idle no_top left = (
      push-IsValid rest valid now workspace_id none kind key (λ p q. absurd (ground arith))
          (λ _. no_top),
      Starts.fresh (push now workspace_id none kind key rest) (given-push same) idle (λ a. (
        λ m. elim ((mem-push rest a).0 m) [ inl q ↦ inl (q ∙ named) | inr n ↦ inr ((left a).0 n) ],
        λ m. elim m [
          | inl q ↦ (mem-push rest a).1 (inl (q ∙ sym named))
          | inr n ↦ (mem-push rest a).1 (inr ((left a).1 n))
        ],
      )),
    )
      where
        given-push :
            rest.next_id ≡ inner.next_id
            → (push now workspace_id none kind key rest).next_id ≡ inner.next_id + 1
        given-push e = unfold push in ap (λ (n : ℕ). n + 1) e

        named :
            pushed now (rest.next_id + 1) workspace_id none kind key
            ≡ pushed now
                (push now workspace_id none kind key rest).next_id
                workspace_id
                none
                kind
                key
        named = unfold push in refl

    module _ (valid : IsValid inner) where
      start-absent :
          find_top inner workspace_id kind key ≡ none
          → IsValid (push now workspace_id none kind key inner)
            × Starts inner
                (push now workspace_id none kind key inner)
                (ok (push now workspace_id none kind key inner).next_id)
      unfolding IsGone IsIdle
      start-absent e =
          Starts-push inner valid refl (λ b (m, t). absurd (none_top b m t))
            (find_top-absent inner workspace_id kind key e)
            (λ a. (λ m. (m, λ b (n, t). absurd (none_top b n t)), λ (m, _). m))
        where
          none_top : (b : Activity) → Memᴰ b inner.items → ¬ IsTop workspace_id kind key b
          none_top b m t = ground (
            arith,
            find_top-absent inner workspace_id kind key e b m,
            is_top_iff workspace_id kind key b,
          )

      start-previous :
          (a : Activity)
          → Memᴰ a inner.items
          → IsTop workspace_id kind key a
          → is_running a.status ≡ false
          → (rest : Inner) → IsValid rest
          → rest.next_id ≡ inner.next_id
          → ((x : Activity)
              → Memᴰ x rest.items ↔ (Memᴰ x inner.items × ¬ Under inner.items a.id x.id))
          → IsValid (push now workspace_id none kind key rest)
            × Starts inner
                (push now workspace_id none kind key rest)
                (ok (push now workspace_id none kind key rest).next_id)
      unfolding IsGone IsIdle
      start-previous a m t f rest v same left =
          Starts-push rest v same
            (λ b (n, s). subst (λ (z : Activity). is_running z.status ≡ false) (one b n s) f) no_top
            (λ x. (
              λ n.
                  let (j, u) = (left x).0 n in
                  (
                    j,
                    λ b (i, s).
                        subst (λ (z : Activity). ¬ Under inner.items z.id x.id) (one b i s) u,
                  ),
              λ (n, g). (left x).1 (n, g a (m, t)),
            ))
        where
          one : (b : Activity) → Memᴰ b inner.items → IsTop workspace_id kind key b → a ≡ b
          one b n s = same_top inner valid workspace_id kind key a b m n t s

          no_top : (b : Activity) → Memᴰ b rest.items → is_top workspace_id kind key b ≡ false
          no_top b n = elim (Bool-cases (is_top workspace_id kind key b)) [
            | inr e ↦ e
            | inl e ↦
                let (j, u) = (left b).0 n in
                let s = (is_top_iff workspace_id kind key b).0 e in
                absurd
                  (u (subst (λ (z : Activity). Under inner.items a.id z.id) (one b j s) Under.here))
          ]

      -- A start always answers: it joins the running job of the name, or else it replaces what the
      -- name last stood for, with everything under it, by a new job; no other job changes.
      pub start_lem :
          (next : Inner) × (r : Result ℕ Activity) × (start now workspace_id kind key inner
            ≡ some (next, r))
          × IsValid next
          × Starts inner next r
      unfolding start
      start_lem = elim (Option-cases (find_top inner workspace_id kind key)) [
        | inl e ↦
            let next = push now workspace_id none kind key inner in
            let (v, s) = start-absent e in (next, ok next.next_id, rw (e, start), v, s)
        | inr (a, e) ↦
            let (m, t) = mem-find_top inner workspace_id kind key a e in
            elim (Bool-cases (is_running a.status)) [
              | inl f ↦
                  (inner, err a, rw (e, start, f, if◌then◌else◌), valid, Starts.joined a m t f)
              | inr f ↦
                  let (rest, e', v', same, left) = remove_tree_lem inner valid a.id in
                  let next = push now workspace_id none kind key rest in
                  let (v, s) = start-previous a m t f rest v' same left in
                  (next, ok next.next_id, rw (e, start, f, if◌then◌else◌, e'), v, s)
            ]
      ]
