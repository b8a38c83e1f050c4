-- ===== src/Activity/Remove.antt =====
-- src/activity.rs (Inner::remove_tree): a job goes with everything under it, and nothing else.
use mathlib.Core.List.{Memᴰ}
use mathlib.Core.Path.{subst}
use fghj.Prelude.{ℕ, true, not, some, List, ◌≡◌, ◌↔◌, inl, inr, arith, refl, filter, Bool-cases}
use fghj.Prelude.Pairwise.{Pairwise-filter}
use fghj.Prelude.Search.{mem_of_mem-filter, mem-filter}
use fghj.Activity.Job.{Activity, Inner}
use fghj.Activity.Tree.{Under, tree_lem}
use fghj.Activity.Valid.{IsValid, IsValid-IsOlder, has_iff}
use fghj.Activity.{has, remove_tree}

module _ (inner : Inner) (valid : IsValid inner) (root : ℕ) where
  -- Always ends; what is left is the jobs that are not under the root.
  pub remove_tree_lem :
      (rest : Inner) × (remove_tree inner root ≡ some rest)
      × IsValid rest
      × (rest.next_id ≡ inner.next_id)
      × ((a : Activity) → Memᴰ a rest.items ↔ (Memᴰ a inner.items × ¬ Under inner.items root a.id))
  unfolding remove_tree
  remove_tree_lem =
      let (doomed, e, k) = tree_lem inner (IsValid-IsOlder inner valid) root in
      (
        record inner { items = filter (λ a. not (has doomed a.id)) inner.items },
        rw (e, remove_tree),
        record {
          ascending = Pairwise-filter _ _ inner.items valid.ascending;
          given = λ a m. valid.given a (mem_of_mem-filter _ inner.items a m).0;
          older = λ a p m. valid.older a p (mem_of_mem-filter _ inner.items a m).0;
          rooted = λ a p m q.
              let (n, h) = mem_of_mem-filter _ inner.items a m in
              let (b, j, i) = valid.rooted a p n q in
              (b, mem-filter _ inner.items b j (kept doomed k a b p n q i h), i);
          named = Pairwise-filter _ _ inner.items valid.named;
        },
        refl,
        λ a. (
          λ m.
              let (n, h) = mem_of_mem-filter _ inner.items a m in
              (n, λ u. ground (arith, has_iff doomed a.id, (k a.id).1 u)),
          λ (m, u). mem-filter _ inner.items a m (spared doomed k a u),
        ),
      )
    where
      spared :
          (doomed : List ℕ)
          → ((x : ℕ) → Memᴰ x doomed ↔ Under inner.items root x)
          → (a : Activity) → (¬ Under inner.items root a.id)
          → not (has doomed a.id) ≡ true
      spared doomed k a u = elim (Bool-cases (has doomed a.id)) [
        | inl e ↦ absurd (u ((k a.id).0 ((has_iff doomed a.id).0 e)))
        | inr e ↦ ground arith
      ]

      -- A job whose parent goes would go as well.
      kept :
          (doomed : List ℕ)
          → ((x : ℕ) → Memᴰ x doomed ↔ Under inner.items root x)
          → (a b : Activity) (p : ℕ) → Memᴰ a inner.items
          → a.parent ≡ some p
          → b.id ≡ p
          → not (has doomed a.id) ≡ true
          → not (has doomed b.id) ≡ true
      kept doomed k a b p n q i h = spared doomed k b λ u.
          let v = Under.below a n q refl (subst (Under inner.items root) i u) in
          ground (arith, has_iff doomed a.id, (k a.id).1 v)
