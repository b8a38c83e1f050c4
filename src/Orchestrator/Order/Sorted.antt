-- ===== src/Orchestrator/Order/Sorted.antt =====
-- What the whole loop returns: a permutation of the ids in which every id stands behind its
-- requirements, but for a rest that waits on itself.
use mathlib.Core.List.{Memᴰ, Permᴰ, append-nil, append_assoc}
use mathlib.Core.List.Permᴰ
use mathlib.Core.Path.{subst}
use mathlib.Core.Option.{some-injective}
use fghj.Prelude.{
  ℕ, zero, suc, ◌<◌, String, true, false, some, List, [], ◌∷◌, ◌++◌, ◌≡◌, refl, sym, ap, arith,
  length, Bool-cases, inl, inr, All, ◌∙◌, filter, eq_refl, eq_iff,
}
use fghj.Prelude.Sets.{contains, contains_iff, all-false, all-at}
use fghj.Prelude.Search.{
  All-mem, mem-filter, mem-map, mem_of_mem-append, mem_of_mem-map, mem_of_mem-filter,
}
use fghj.Prelude.Sorting.{sort, sort-perm, mem_of_perm, length_of_perm}
use fghj.Resolver.Graph.{Edge, needed_to_start}
use fghj.Orchestrator.Order.{deps, inside, ready, pass, passes, topological_start_order}
use fghj.Orchestrator.Order.Passes.{IsOrdered, pass-perm, pass-IsOrdered, length-pass, pass_stuck}

-- `order` has all of `ids`, first a part in order, then a part in which no id has its requirements
-- in the first.
pub record IsStartOrder (requires : String → List String) (ids order : List String) : Type 0 where
  pub front : List String
  pub back : List String
  pub split : order ≡ front ++ back
  pub same : Permᴰ order ids
  pub sorted : IsOrdered requires [] front
  pub stuck : All (λ id. ready requires front id ≡ false) back

module _ (requires : String → List String) where
  passes-IsStartOrder :
      (fuel : ℕ) (ordered remaining : List String)
      → length remaining < fuel
      → IsOrdered requires [] ordered
      → (order : List String) × (passes requires fuel ordered remaining ≡ some order)
        × IsStartOrder requires (ordered ++ remaining) order
  unfolding passes
  passes-IsStartOrder zero ordered remaining h k = absurd (omega arith)
  passes-IsStartOrder (suc fuel) ordered [] h k = (
    ordered,
    refl,
    record {
      front = ordered;
      back = [];
      split = sym (append-nil ordered);
      same = subst (Permᴰ ordered) (sym (append-nil ordered)) (Permᴰ.refl ordered);
      sorted = k;
      stuck = tt;
    },
  )
  passes-IsStartOrder (suc fuel) ordered (id ∷ rest) h k =
      let remaining = id ∷ rest in
      let p = pass requires ordered remaining in
      elim (Bool-cases p.progressed) [
        | inl more ↦
            let shorter = (length-pass requires ordered remaining).1 more in
            let (order, e, o) =
              passes-IsStartOrder fuel p.ordered p.remaining (omega arith)
                (pass-IsOrdered requires ordered remaining k) in
            rw (more, passes)
              (
                order,
                e,
                record {
                  front = o.front;
                  back = o.back;
                  split = o.split;
                  same = Permᴰ.trans o.same (pass-perm requires ordered remaining);
                  sorted = o.sorted;
                  stuck = o.stuck;
                },
              )
        | inr done ↦
            let (o, r, stuck) = pass_stuck requires ordered remaining done in
            rw (done, passes)
              (
                p.ordered ++ p.remaining,
                refl,
                record {
                  front = ordered;
                  back = remaining;
                  split = ap (λ l. l ++ p.remaining) o ∙ ap (◌++◌ ordered) r;
                  same = pass-perm requires ordered remaining;
                  sorted = k;
                  stuck = stuck;
                },
              )
      ]

-- The loop ends in the fuel that it is given, on every graph, and what it returns is a start order
-- of the ids: all of them, those that do not wait on a cycle first and behind what they need.
pub topological_start_order-IsStartOrder :
    (ids : List String) (edges : List Edge)
    → (order : List String) × (topological_start_order ids edges ≡ some order)
      × IsStartOrder (deps ids edges) ids order
unfolding topological_start_order
topological_start_order-IsStartOrder ids edges =
    let (order, e, o) =
      passes-IsStartOrder (deps ids edges) (suc (length ids)) [] (sort ids)
        (omega (arith, length_of_perm (sort-perm ids))) tt in
    (
      order,
      e,
      record {
        front = o.front;
        back = o.back;
        split = o.split;
        same = Permᴰ.trans o.same (sort-perm ids);
        sorted = o.sorted;
        stuck = o.stuck;
      },
    )

module _ (requires : String → List String) where
  IsOrdered-split :
      (seen order before after : List String) (id d : String)
      → IsOrdered requires seen order
      → order ≡ before ++ id ∷ after
      → Memᴰ d (requires id)
      → Memᴰ d (seen ++ before)
  IsOrdered-split seen [] [] after id d h e m = absurd (ground arith)
  IsOrdered-split seen [] (b ∷ before) after id d h e m = absurd (ground arith)
  IsOrdered-split seen (x ∷ order) [] after id d h e m =
      let q : x ≡ id = ground arith in
      let r : ready requires seen id ≡ true = subst (λ z. ready requires seen z ≡ true) q h.0 in
      subst (Memᴰ d) (sym (append-nil seen))
        ((contains_iff seen d).0 (all-at (contains seen) (requires id) d r m))
  IsOrdered-split seen (x ∷ order) (b ∷ before) after id d h e m =
      let q : x ≡ b = ground arith in
      let k = IsOrdered-split (seen ++ x ∷ []) order before after id d h.1 (ground arith) m in
      subst (λ z. Memᴰ d (seen ++ z ∷ before)) q
        (subst (Memᴰ d) (append_assoc seen (x ∷ []) before) k)

-- `rank` falls along every edge that orders a start, so these edges form no cycle.
abbrev pub IsRanked : (String → ℕ) → List Edge → Type 0
IsRanked rank edges = (e : Edge) → Memᴰ e edges → needed_to_start e ≡ true → rank e.to < rank e.from

module _ (ids : List String) (edges : List Edge) where
  mem-deps :
      (e : Edge)
      → Memᴰ e edges
      → needed_to_start e ≡ true
      → Memᴰ e.from ids
      → Memᴰ e.to ids
      → Memᴰ e.to (deps ids edges e.from)
  unfolding deps
  mem-deps e m n f t =
      mem-map (λ (x : Edge). x.to) (filter (inside ids e.from) edges) e
        (mem-filter (inside ids e.from) edges e m (
          ground
            (arith, (contains_iff ids e.from).1 f, (contains_iff ids e.to).1 t, eq_refl e.from)))

  edge_of_dep :
      (id d : String)
      → Memᴰ d (deps ids edges id)
      → (e : Edge) × Memᴰ e edges
        × (needed_to_start e ≡ true)
        × (contains ids d ≡ true)
        × (e.from ≡ id)
        × (d ≡ e.to)
  unfolding deps
  edge_of_dep id d m =
      let (e, k, q) = mem_of_mem-map (λ (x : Edge). x.to) (filter (inside ids id) edges) d m in
      let (there, pass) = mem_of_mem-filter (inside ids id) edges e k in
      (e, there, ground arith, ground arith, (eq_iff e.from id).0 (ground arith), q)

  module _ (rank : String → ℕ) (ranked : IsRanked rank edges) (order : List String)
      (o : IsStartOrder (deps ids edges) ids order) where
    none_waits : (n : ℕ) (id : String) → Memᴰ id o.back → rank id < n → ⊥
    none_waits zero id m h = omega arith
    none_waits (suc n) id m h =
        let (d, dm, missing) =
          all-false (contains o.front) (deps ids edges id)
            (All-mem (λ z. ready (deps ids edges) o.front z ≡ false) o.back id o.stuck m) in
        let (e, there, needed, known, from, to) = edge_of_dep id d dm in
        let below : rank d < rank id =
          subst (λ z. rank z < rank id) (sym to)
            (subst (λ z. rank e.to < rank z) from (ranked e there needed)) in
        let placed : Memᴰ d (o.front ++ o.back) =
          subst (Memᴰ d) o.split
            (mem_of_perm d (Permᴰ.symm o.same) ((contains_iff ids d).0 known)) in
        elim (mem_of_mem-append o.front o.back d placed) [
          | inl before ↦ ground (arith, (contains_iff o.front d).1 before)
          | inr waits ↦ none_waits n d waits (omega arith)
        ]

    back_empty : (back : List String) → back ≡ o.back → order ≡ o.front
    back_empty [] e = o.split ∙ ap (◌++◌ o.front) (sym e) ∙ append-nil o.front
    back_empty (id ∷ back) e =
        absurd (none_waits (suc (rank id)) id (subst (Memᴰ id) e (Memᴰ.head refl)) (omega arith))

-- Without a cycle, every id stands behind all that it needs to start: wherever the source of an
-- edge that orders a start stands in the order, its target stands before it.
pub topological_start_order_sorted :
    (rank : String → ℕ) (ids order before after : List String) (edges : List Edge) (e : Edge)
    → IsRanked rank edges
    → topological_start_order ids edges ≡ some order
    → Memᴰ e edges
    → needed_to_start e ≡ true
    → Memᴰ e.from ids
    → Memᴰ e.to ids
    → order ≡ before ++ e.from ∷ after
    → Memᴰ e.to before
topological_start_order_sorted rank ids order before after edges e ranked h m needed from to at =
    let (order', h', o) = topological_start_order-IsStartOrder ids edges in
    let same : order' ≡ order = some-injective order' order (sym h' ∙ h) in
    let all_front = back_empty ids edges rank ranked order' o o.back refl in
    IsOrdered-split (deps ids edges) [] o.front before after e.from e.to o.sorted
      (sym all_front ∙ same ∙ at) (mem-deps ids edges e m needed from to)
