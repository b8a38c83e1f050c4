-- ===== src/Activity/Tree.antt =====
-- src/activity.rs (Inner::tree): the walk ends, with a job and everything under it.
use mathlib.Core.List.{Memᴰ}
use mathlib.Core.Path.{subst}
use mathlib.Core.Option.{some-injective}
use fghj.Prelude.{
  ℕ, zero, suc, ◌+◌, ◌≤◌, ◌<◌, true, some, List, [], ◌∷◌, ◌++◌, ◌≡◌, ◌↔◌, inl, inr, arith, refl,
  sym, ap, nat_eq_iff, Option-cases,
}
use fghj.Prelude.Search.{
  mem_of_mem-append, mem-append_left, mem-append_right, mem_of_mem-filter, mem-filter, mem-map,
  mem_of_mem-map,
}
use fghj.Activity.Job.{Activity, Inner}
use fghj.Activity.{children, grow, parent_is, total, tree, weight}

-- Reached from the root by steps from a job to one whose parent it is; the root included.
pub data Under (items : List Activity) (root : ℕ) : ℕ → Type 0 where
  here : Under items root root
  below :
      {p x : ℕ} (a : Activity)
      → Memᴰ a items
      → a.parent ≡ some p
      → a.id ≡ x
      → Under items root p
      → Under items root x

parent_is-true : (id : ℕ) (a : Activity) → (parent_is id a ≡ true) ↔ (a.parent ≡ some id)
parent_is-true id a = elim (Option-cases a.parent) [
  | inl e ↦ ground arith
  | inr (p, e) ↦ ground (arith, nat_eq_iff p id)
]

pub mem-children :
    (items : List Activity) (id : ℕ) (a : Activity)
    → Memᴰ a items
    → a.parent ≡ some id
    → Memᴰ a.id (children items id)
unfolding children
mem-children items id a m e =
    mem-map (λ (b : Activity). b.id) _ a
      (mem-filter (parent_is id) items a m ((parent_is-true id a).1 e))

pub mem_of_mem-children :
    (items : List Activity) (id x : ℕ)
    → Memᴰ x (children items id)
    → (a : Activity) × Memᴰ a items × (a.parent ≡ some id) × (a.id ≡ x)
unfolding children
mem_of_mem-children items id x m =
    let (a, k, e) = mem_of_mem-map (λ (b : Activity). b.id) _ x m in
    let (j, q) = mem_of_mem-filter (parent_is id) items a k in
    (a, j, (parent_is-true id a).0 q, sym e)

module _ (items : List Activity) where
  move :
      (seen queue more : List ℕ) (id x : ℕ)
      → Memᴰ x (seen ++ id ∷ queue)
      → Memᴰ x ((seen ++ id ∷ []) ++ (queue ++ more))
  move seen queue more id x m = elim (mem_of_mem-append seen (id ∷ queue) x m) [
    | inl k ↦ mem-append_left (seen ++ id ∷ []) _ x (mem-append_left seen _ x k)
    | inr (Memᴰ.head q) ↦
        mem-append_left (seen ++ id ∷ []) _ x (mem-append_right seen _ x (Memᴰ.head q))
    | inr (Memᴰ.tail k) ↦ mem-append_right (seen ++ id ∷ []) _ x (mem-append_left queue more x k)
  ]

  mem-grow :
      (fuel : ℕ) (seen queue t : List ℕ) (x : ℕ)
      → grow fuel items seen queue ≡ some t
      → Memᴰ x (seen ++ queue)
      → Memᴰ x t
  unfolding grow
  mem-grow zero seen queue t x h m = absurd (ground arith)
  mem-grow (suc fuel) seen [] t x h m = elim (mem_of_mem-append seen [] x m) [
    | inl k ↦ subst (Memᴰ x) (some-injective seen t h) k
    | inr k ↦ elim k [ ]
  ]
  mem-grow (suc fuel) seen (id ∷ queue) t x h m =
      mem-grow fuel (seen ++ id ∷ []) (queue ++ children items id) t x h
        (move seen queue (children items id) id x m)

  grow_closed :
      (fuel : ℕ) (seen queue t : List ℕ)
      → grow fuel items seen queue ≡ some t
      → ((p c : ℕ) → Memᴰ p seen → Memᴰ c (children items p) → Memᴰ c (seen ++ queue))
      → (p c : ℕ) → Memᴰ p t
      → Memᴰ c (children items p)
      → Memᴰ c t
  unfolding grow
  grow_closed zero seen queue t h k p c = λ m n. absurd (ground arith)
  grow_closed (suc fuel) seen [] t h k p c = λ m n.
      let e : seen ≡ t = some-injective seen t h in
      elim (mem_of_mem-append seen [] c (k p c (subst (Memᴰ p) (sym e) m) n)) [
        | inl j ↦ subst (Memᴰ c) e j
        | inr j ↦ elim j [ ]
      ]
  grow_closed (suc fuel) seen (id ∷ queue) t h k p' c' =
      grow_closed fuel (seen ++ id ∷ []) (queue ++ children items id) t h next p' c'
    where
      next :
          (p c : ℕ)
          → Memᴰ p (seen ++ id ∷ [])
          → Memᴰ c (children items p)
          → Memᴰ c ((seen ++ id ∷ []) ++ (queue ++ children items id))
      next p c m n = elim (mem_of_mem-append seen (id ∷ []) p m) [
        | inl j ↦ move seen queue (children items id) id c (k p c j n)
        | inr (Memᴰ.head q) ↦
            mem-append_right (seen ++ id ∷ []) _ c
              (mem-append_right queue _ c (subst (λ z. Memᴰ c (children items z)) q n))
        | inr (Memᴰ.tail j) ↦ elim j [ ]
      ]

  grow-Under :
      (root fuel : ℕ) (seen queue t : List ℕ)
      → grow fuel items seen queue ≡ some t
      → ((x : ℕ) → Memᴰ x (seen ++ queue) → Under items root x)
      → (x : ℕ) → Memᴰ x t
      → Under items root x
  unfolding grow
  grow-Under root zero seen queue t h k x m = absurd (ground arith)
  grow-Under root (suc fuel) seen [] t h k x m =
      k x (mem-append_left seen [] x (subst (Memᴰ x) (sym (some-injective seen t h)) m))
  grow-Under root (suc fuel) seen (id ∷ queue) t h k y n =
      grow-Under root fuel (seen ++ id ∷ []) (queue ++ children items id) t h next y n
    where
      next :
          (x : ℕ) → Memᴰ x ((seen ++ id ∷ []) ++ (queue ++ children items id)) → Under items root x
      next x m = elim (mem_of_mem-append (seen ++ id ∷ []) (queue ++ children items id) x m) [
        | inl j ↦ elim (mem_of_mem-append seen (id ∷ []) x j) [
          | inl i ↦ k x (mem-append_left seen _ x i)
          | inr (Memᴰ.head q) ↦ k x (mem-append_right seen _ x (Memᴰ.head q))
          | inr (Memᴰ.tail i) ↦ elim i [ ]
        ]
        | inr j ↦ elim (mem_of_mem-append queue (children items id) x j) [
          | inl i ↦ k x (mem-append_right seen _ x (Memᴰ.tail i))
          | inr i ↦
              let (a, m', e, q) = mem_of_mem-children items id x i in
              Under.below a m' e q (k id (mem-append_right seen _ id (Memᴰ.head refl)))
        ]
      ]

total-append : (f : ℕ → ℕ) (l k : List ℕ) → total f (l ++ k) ≡ total f l + total f k
total-append f [] k = omega arith
total-append f (x ∷ l) k = omega (arith, total-append f l k)

total_agrees : (f g : ℕ → ℕ) (l : List ℕ) → ((x : ℕ) → Memᴰ x l → f x ≡ g x) → total f l ≡ total g l
total_agrees f g [] h = refl
total_agrees f g (x ∷ l) h =
    omega (arith, h x (Memᴰ.head refl), total_agrees f g l (λ y m. h y (Memᴰ.tail m)))

-- Every child is younger than its parent, and no id is above the last one given out.
pub record IsOlder (inner : Inner) : Type 0 where
  pub older : (a : Activity) (p : ℕ) → Memᴰ a inner.items → a.parent ≡ some p → p < a.id
  pub given : (a : Activity) → Memᴰ a inner.items → a.id ≤ inner.next_id

module _ (inner : Inner) (older : IsOlder inner) where
  weight_stable :
      (h x : ℕ) → inner.next_id ≤ x + h → weight (suc h) inner.items x ≡ weight h inner.items x
  unfolding weight
  weight_stable zero x le = ap suc (childless (children inner.items x) (λ y m. m))
    where
      childless :
          (l : List ℕ)
          → ((y : ℕ) → Memᴰ y l → Memᴰ y (children inner.items x))
          → total (weight zero inner.items) l ≡ 0
      childless [] s = refl
      childless (y ∷ l) s =
          let (a, m, e, q) = mem_of_mem-children inner.items x y (s y (Memᴰ.head refl)) in
          absurd (omega (arith, older.older a x m e, older.given a m))
  weight_stable (suc h) x le = ap suc (
      total_agrees _ _ (children inner.items x) λ y m.
        let (a, k, e, q) = mem_of_mem-children inner.items x y m in
        weight_stable h y (omega (arith, older.older a x k e)))

  grow-total :
      (fuel : ℕ) (seen queue : List ℕ)
      → total (weight inner.next_id inner.items) queue < fuel
      → (t : List ℕ) × (grow fuel inner.items seen queue ≡ some t)
  unfolding grow weight
  grow-total zero seen queue lt = absurd (omega arith)
  grow-total (suc fuel) seen [] lt = (seen, refl)
  grow-total (suc fuel) seen (id ∷ queue) lt =
      let w = weight inner.next_id inner.items in
      grow-total fuel (seen ++ id ∷ []) (queue ++ children inner.items id)
        (omega (arith, total-append w queue (children inner.items id), popped))
    where
      popped :
          weight inner.next_id inner.items id
          ≡ suc (total (weight inner.next_id inner.items) (children inner.items id))
      popped = sym (weight_stable inner.next_id id (omega arith))

  mem_of_Under :
      (root x : ℕ) (t : List ℕ) → tree inner root ≡ some t → Under inner.items root x → Memᴰ x t
  unfolding tree
  mem_of_Under root x t h Under.here =
      mem-grow inner.items _ [] (root ∷ []) t root h (Memᴰ.head refl)
  mem_of_Under root x t h (Under.below {p} a m e q u) =
      grow_closed inner.items _ [] (root ∷ []) t h (λ p c m n. elim m [ ]) p x
        (mem_of_Under root p t h u)
        (subst (λ z. Memᴰ z (children inner.items p)) q (mem-children inner.items p a m e))

  -- The loop ends, with exactly the jobs under the root.
  pub tree_lem :
      (root : ℕ)
      → (t : List ℕ) × (tree inner root ≡ some t) × ((x : ℕ) → Memᴰ x t ↔ Under inner.items root x)
  unfolding tree
  tree_lem root =
      let (t, h) = grow-total _ [] (root ∷ []) (omega arith) in
      (
        t,
        h,
        λ x. (
          grow-Under inner.items root _ [] (root ∷ []) t h
              (λ y m. elim m [
                | Memᴰ.head q ↦ subst (Under inner.items root) (sym q) Under.here
                | Memᴰ.tail k ↦ elim k [ ]
              ])
              x,
          mem_of_Under root x t h,
        ),
      )
