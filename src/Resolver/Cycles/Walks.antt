-- ===== src/Resolver/Cycles/Walks.antt =====
-- src/resolver/cycles.rs: what one walk leaves behind, and that its fuel is enough.
use mathlib.Core.List.{Memᴰ}
use mathlib.Core.Path.{subst}
use fghj.Prelude.{
  ℕ, zero, suc, ◌<◌, not, ◌||◌, String, true, false, Option, none, some, List, [], ◌∷◌, ◌++◌, ◌≡◌,
  refl, sym, ap, ◌∙◌, ◌⊎◌, inl, inr, arith, Bool-cases, length, filter, str_eq, eq_iff, eq_refl,
}
use fghj.Prelude.BTreeMap.{BTreeMap, get, keys}
use fghj.Prelude.Sets.{contains, contains_iff}
use fghj.Prelude.Search.{mem_of_mem-append}
use fghj.Resolver.Search.Reach.{length-filter_lt}
use fghj.Orchestrator.Outcomes.{or_default}
use fghj.Resolver.Cycles.{Walk, from, found, follow, left, walk, walk_all, pop}
use fghj.Resolver.Cycles.Loops.{IsChain, IsLoop, extend, from-IsLoop, pop-append}

append-ne-nil : {A : Type 0} → (l : List A) (x : A) → l ++ x ∷ [] ≡ [] → ⊥
append-ne-nil [] x h = absurd (cc)
append-ne-nil (y ∷ l) x h = absurd (cc)

contains-append :
    (l : List String) (x y : String) → contains (l ++ x ∷ []) y ≡ (contains l y || str_eq x y)
unfolding contains
contains-append [] x y = ground arith
contains-append (z ∷ l) x y = ground (arith, contains-append l x y)

pub key_or_none : (m : BTreeMap (List String)) (id : String) → Memᴰ id (keys m) ⊎ (get id m ≡ none)
unfolding get keys
key_or_none [] id = inr refl
key_or_none ((j, v) ∷ m) id = elim (Bool-cases (str_eq j id)) [
  | inl e ↦ inl (Memᴰ.head (sym ((eq_iff j id).0 e)))
  | inr e ↦ elim (key_or_none m id) [ inl k ↦ inl (Memᴰ.tail k) | inr n ↦ inr (rw (e, get) n) ]
]

with_head :
    (next : String) (l : List String) (t : Walk)
    → Memᴰ next t.done
    → ((x : String) → Memᴰ x l → Memᴰ x t.done)
    → (x : String) → Memᴰ x (next ∷ l)
    → Memᴰ x t.done
with_head next l t h k x (Memᴰ.head q) = subst (λ z. Memᴰ z t.done) (sym q) h
with_head next l t h k x (Memᴰ.tail m) = k x m

module _ (adj : BTreeMap (List String)) where
  abbrev pub Targets : String → String → Type 0
  Targets x y = Memᴰ y (or_default (get x adj))

  -- The nodes of the list are left in an order in which each comes after all its targets.
  abbrev pub IsClosed : List String → Type 0
  IsClosed [] = Unit
  IsClosed (d ∷ done) = ((x : String) → Targets d x → Memᴰ x done) × IsClosed done

  abbrev pub HasLoops : List (List String) → Type 0
  HasLoops cycles = (c : List String) → Memᴰ c cycles → IsLoop Targets c

  -- From a walk's state to a later one.
  pub record IsLater (s t : Walk) : Type 0 where
    pub same : t.stack ≡ s.stack
    pub grown : (x : String) → Memᴰ x s.done → Memᴰ x t.done
    pub loops : HasLoops s.cycles → HasLoops t.cycles
    pub closed : t.cycles ≡ [] → (s.cycles ≡ []) × (IsClosed s.done → IsClosed t.done)

  pub IsLater-refl : (s : Walk) → IsLater s s
  IsLater-refl s = record {
    same = refl;
    grown = λ x m. m;
    loops = λ h. h;
    closed = λ e. (e, λ h. h);
  }

  pub IsLater-trans : (s t u : Walk) → IsLater s t → IsLater t u → IsLater s u
  IsLater-trans s t u p q = record {
    same = q.same ∙ p.same;
    grown = λ x m. q.grown x (p.grown x m);
    loops = λ h. q.loops (p.loops h);
    closed =
        λ e. ((p.closed (q.closed e).0).0, λ h. (q.closed e).1 ((p.closed (q.closed e).0).1 h));
  }

  found-IsLater :
      (next : String) (s : Walk)
      → contains s.stack next ≡ true
      → IsChain Targets (s.stack ++ next ∷ [])
      → IsLater s (found next s)
  found-IsLater next s h c = record {
    same = refl;
    grown = λ x m. m;
    loops = λ old k m. elim (mem_of_mem-append s.cycles (from next s.stack ∷ []) k m) [
      | inl n ↦ old k n
      | inr (Memᴰ.head q) ↦ subst (IsLoop Targets) (sym q) (from-IsLoop Targets next s.stack h c)
      | inr (Memᴰ.tail n) ↦ elim n [ ]
    ];
    closed = λ e. absurd (append-ne-nil s.cycles (from next s.stack) e);
  }

  -- What is asked of the recursive call at a stack.
  abbrev Walks : (String → Walk → Option Walk) → List String → Type 0
  Walks go stack =
      (x : String) (s : Walk)
      → s.stack ≡ stack
      → contains stack x ≡ false
      → IsChain Targets (stack ++ x ∷ [])
      → (t : Walk) × (go x s ≡ some t) × IsLater s t × Memᴰ x t.done

  abbrev Follows : (String → Walk → Option Walk) → List String → Walk → Type 0
  Follows go l s =
      (t : Walk) × (follow go l s ≡ some t)
      × IsLater s t
      × (t.cycles ≡ [] → (x : String) → Memᴰ x l → Memᴰ x t.done)

  follow_lem :
      (go : String → Walk → Option Walk) (stack : List String)
      → Walks go stack
      → (l : List String) (s : Walk) → s.stack ≡ stack
      → ((x : String) → Memᴰ x l → IsChain Targets (stack ++ x ∷ []))
      → Follows go l s
  unfolding follow
  follow_lem go stack w [] s e c = (s, refl, IsLater-refl s, λ z x m. elim m [ ])
  follow_lem go stack w (next ∷ l) s e c = elim (Bool-cases (contains s.stack next)) [
    | inl on ↦
        let c' = subst (λ k. IsChain Targets (k ++ next ∷ [])) (sym e) (c next (Memᴰ.head refl)) in
        let p = found-IsLater next s on c' in
        let (t, q, later, all) =
          follow_lem go stack w l (found next s) e (λ x m. c x (Memᴰ.tail m)) in
        (
          t,
          rw (on, follow) q,
          IsLater-trans s (found next s) t p later,
          λ z. absurd (append-ne-nil s.cycles (from next s.stack) (later.closed z).0),
        )
    | inr off ↦ elim (Bool-cases (contains s.done next)) [
      | inl old ↦
          let (t, q, later, all) = follow_lem go stack w l s e (λ x m. c x (Memᴰ.tail m)) in
          let m0 = later.grown next ((contains_iff s.done next).0 old) in
          (t, rw (off, old, follow) q, later, λ z. with_head next l t m0 (all z))
      | inr new ↦
          let off' = subst (λ k. contains k next ≡ false) e off in
          let (u, p, first, there) = w next s e off' (c next (Memᴰ.head refl)) in
          let (t, q, later, all) =
            follow_lem go stack w l u (first.same ∙ e) (λ x m. c x (Memᴰ.tail m)) in
          (
            t,
            rw (off, new, p, follow) q,
            IsLater-trans s u t first later,
            λ z. with_head next l t (later.grown next there) (all z),
          )
    ]
  ]

  -- The nodes with targets that are not on the stack.
  abbrev pub apart : List String → ℕ
  apart stack = length (filter (λ k. not (contains stack k)) (keys adj))

  apart-push :
      (stack : List String) (id : String)
      → Memᴰ id (keys adj)
      → contains stack id ≡ false
      → apart (stack ++ id ∷ []) < apart stack
  apart-push stack id m h =
      length-filter_lt (λ k. not (contains stack k)) (λ k. not (contains (stack ++ id ∷ []) k))
        (keys adj) id (λ x e. ground (arith, contains-append stack id x)) m (ground arith)
        (ground (arith, contains-append stack id id, eq_refl id))

  leave :
      (id : String) (s t : Walk)
      → IsLater (record s { stack = s.stack ++ id ∷ [] }) t
      → (t.cycles ≡ [] → (x : String) → Targets id x → Memᴰ x t.done)
      → IsLater s (record t { stack = pop t.stack; done = id ∷ t.done })
  leave id s t later all = record {
    same = ap pop later.same ∙ pop-append s.stack id;
    grown = λ x m. Memᴰ.tail (later.grown x m);
    loops = later.loops;
    closed = λ e. ((later.closed e).0, λ h. (all e, (later.closed e).1 h));
  }

  -- The induction hypothesis of a walk, at a stack with enough fuel.
  at_stack :
      (fuel : ℕ) (stack : List String)
      → apart stack < fuel
      → ((x : String) (s : Walk)
          → apart s.stack < fuel
          → contains s.stack x ≡ false
          → IsChain Targets (s.stack ++ x ∷ [])
          → (t : Walk) × (walk fuel adj x s ≡ some t) × IsLater s t × Memᴰ x t.done)
      → Walks (walk fuel adj) stack
  at_stack fuel stack less ih x s e off c =
      ih x s (subst (λ k. apart k < fuel) (sym e) less)
        (subst (λ k. contains k x ≡ false) (sym e) off)
        (subst (λ k. IsChain Targets (k ++ x ∷ [])) (sym e) c)

  pub walk_lem :
      (fuel : ℕ) (id : String) (s : Walk)
      → apart s.stack < fuel
      → contains s.stack id ≡ false
      → IsChain Targets (s.stack ++ id ∷ [])
      → (t : Walk) × (walk fuel adj id s ≡ some t) × IsLater s t × Memᴰ id t.done
  unfolding walk follow
  walk_lem zero id s h off c = absurd (omega arith)
  walk_lem (suc fuel) id s h off c =
      let pushed : Walk = record s { stack = s.stack ++ id ∷ [] } in
      let follows : Follows (walk fuel adj) (or_default (get id adj)) pushed =
        elim (key_or_none adj id) [
          | inl k ↦
              let less = apart-push s.stack id k off in
              follow_lem (walk fuel adj) pushed.stack
                (at_stack fuel pushed.stack (omega arith) (walk_lem fuel)) (or_default (get id adj))
                pushed refl (λ x m. extend Targets s.stack id x c m)
          | inr n ↦ rw n (pushed, refl, IsLater-refl pushed, λ z x m. elim m [ ])
        ] in
      let (t, q, later, all) = follows in
      (
        record t { stack = pop t.stack; done = id ∷ t.done },
        ap (left id) q,
        leave id s t later all,
        Memᴰ.head refl,
      )

  -- All the roots of an empty stack.
  pub walk_all_lem :
      (fuel : ℕ) (roots : List String) (s : Walk)
      → s.stack ≡ []
      → apart [] < fuel
      → (t : Walk) × (walk_all fuel adj roots s ≡ some t)
        × IsLater s t
        × ((x : String) → Memᴰ x roots → Memᴰ x t.done)
  unfolding walk_all contains
  walk_all_lem fuel [] s e h = (s, refl, IsLater-refl s, λ x m. elim m [ ])
  walk_all_lem fuel (root ∷ roots) s e h = elim (Bool-cases (contains s.done root)) [
    | inl old ↦
        let (t, q, later, all) = walk_all_lem fuel roots s e h in
        (
          t,
          rw (old, walk_all) q,
          later,
          with_head root roots t (later.grown root ((contains_iff s.done root).0 old)) all,
        )
    | inr new ↦
        let (u, p, first, there) =
          walk_lem fuel root s (subst (λ k. apart k < fuel) (sym e) h)
            (subst (λ k. contains k root ≡ false) (sym e) refl)
            (subst (λ k. IsChain Targets (k ++ root ∷ [])) (sym e) tt) in
        let (t, q, later, all) = walk_all_lem fuel roots u (first.same ∙ e) h in
        (
          t,
          rw (new, p, walk_all) q,
          IsLater-trans s u t first later,
          with_head root roots t (later.grown root there) all,
        )
  ]
