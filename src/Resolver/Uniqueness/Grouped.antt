-- ===== src/Resolver/Uniqueness/Grouped.antt =====
-- src/resolver/uniqueness.rs: the values under a key of a map that is filled by pushing.
use mathlib.Core.List.{Memᴰ, append_assoc, append-nil}
use mathlib.Core.Path.{subst}
use fghj.Prelude.{
  Bool, String, true, Option, some, List, [], ◌∷◌, ◌++◌, ◌≡◌, ◌↔◌, refl, sym, ap, ◌∙◌, inl, inr,
  arith, Bool-cases, Option-cases, map, filter, length, ltb, str_eq, eq_iff,
}
use fghj.Prelude.BTreeMap.{
  BTreeMap, get, insert, IsSorted, get-insert, insert-IsSorted, get_of_IsAbove, get-nil, retain,
  retain-IsSorted,
}
use fghj.Prelude.Search.{mem_of_mem-filter, mem-filter, mem_of_mem-map, mem-map}
use fghj.Prelude.Sorting.{IsStrict}
use fghj.Resolver.Uniqueness.{or_empty, group, crowded}

module _ {V : Type 0} where
  mem_of_get : (k : String) (v : V) (m : BTreeMap V) → get k m ≡ some v → Memᴰ (k, v) m
  unfolding get
  mem_of_get k v [] h = absurd (ground arith)
  mem_of_get k v ((j, w) ∷ m) h = elim (Bool-cases (str_eq j k)) [
    | inl e ↦
        let q : w ≡ v = ground arith in
        let p = (eq_iff j k).0 e in Memᴰ.head (λ i. (sym p i, sym q i))
    | inr e ↦ Memᴰ.tail (mem_of_get k v m (ground arith))
  ]

  get_of_mem : (k : String) (v : V) (m : BTreeMap V) → IsSorted m → Memᴰ (k, v) m → get k m ≡ some v
  unfolding get
  get_of_mem k v [] s h = elim h [ ]
  get_of_mem k v ((j, w) ∷ m) s (Memᴰ.head q) =
      let p : k ≡ j = ap (λ (e : String × V). e.0) q in
      let r : v ≡ w = ap (λ (e : String × V). e.1) q in ground (arith, eq_iff j k)
  get_of_mem k v ((j, w) ∷ m) s (Memᴰ.tail h) =
      let ih = get_of_mem k v m s.1 h in ground (arith, eq_iff j k, get_of_IsAbove j m s.0 s.1)

module _ {A : Type 0} where
  -- The values that stand under a key, in their order.
  abbrev pub under : String → List (String × A) → List A
  under k l = map (λ e. e.1) (filter (λ e. str_eq e.0 k) l)

  group-IsSorted :
      (l : List (String × A)) (m : BTreeMap (List A)) → IsSorted m → IsSorted (group l m)
  unfolding group
  group-IsSorted [] m s = s
  group-IsSorted ((k, v) ∷ l) m s =
      group-IsSorted l (insert k (or_empty (get k m) ++ v ∷ []) m)
        (insert-IsSorted k (or_empty (get k m) ++ v ∷ []) m s)

  get-group :
      (k : String) (l : List (String × A)) (m : BTreeMap (List A))
      → or_empty (get k (group l m)) ≡ or_empty (get k m) ++ under k l
  unfolding group
  get-group k [] m = sym (append-nil (or_empty (get k m)))
  get-group k ((j, v) ∷ l) m =
      let m' = insert j (or_empty (get j m) ++ v ∷ []) m in
      get-group k l m' ∙ (elim (Bool-cases (str_eq j k)) [
        | inl e ↦
            let p = (eq_iff j k).0 e in
            rw (get-insert j k (or_empty (get j m) ++ v ∷ []) m, e)
              (append_assoc (or_empty (get j m)) (v ∷ []) (under k l)
                ∙ ap (λ x. or_empty (get x m) ++ v ∷ under k l) p)
        | inr e ↦ rw (get-insert j k (or_empty (get j m) ++ v ∷ []) m, e) refl
      ])

  -- The entries are the keys with more than one value, each with all its values.
  pub crowded_iff :
      (l : List (String × A)) (e : String × List A)
      → Memᴰ e (crowded l) ↔ ((ltb 1 (length (under e.0 l)) ≡ true) × (e.1 ≡ under e.0 l))
  unfolding crowded
  crowded_iff l (k, vs) = (there, back)
    where
      empty : ltb 1 (length {A = A} []) ≡ true → ⊥
      empty h = absurd (ground arith)

      sorted : IsSorted (group l [])
      sorted = group-IsSorted l [] tt

      values_of : or_empty (get k (group l [])) ≡ under k l
      values_of =
          get-group k l [] ∙ ap (λ (o : Option (List A)). or_empty o ++ under k l) (get-nil k)

      there :
          Memᴰ (k, vs) (filter (λ e. ltb 1 (length e.1)) (group l []))
          → (ltb 1 (length (under k l)) ≡ true) × (vs ≡ under k l)
      there m =
          let (i, h) =
            mem_of_mem-filter (λ (e : String × List A). ltb 1 (length e.1)) (group l []) (k, vs)
              m in
          let q : vs ≡ under k l =
            ap or_empty (sym (get_of_mem k vs (group l []) sorted i)) ∙ values_of in
          (subst (λ x. ltb 1 (length x) ≡ true) q h, q)

      back :
          (ltb 1 (length (under k l)) ≡ true) × (vs ≡ under k l)
          → Memᴰ (k, vs) (filter (λ e. ltb 1 (length e.1)) (group l []))
      back (h, q) = elim (Option-cases (get k (group l []))) [
        | inl n ↦
            let z : [] ≡ under k l = ap or_empty (sym n) ∙ values_of in
            absurd (empty (subst (λ x. ltb 1 (length x) ≡ true) (sym z) h))
        | inr (ws, s) ↦
            let r : ws ≡ vs = ap or_empty (sym s) ∙ values_of ∙ sym q in
            mem-filter (λ (e : String × List A). ltb 1 (length e.1)) (group l []) (k, vs)
              (subst (λ x. Memᴰ (k, x) (group l [])) r (mem_of_get k ws (group l []) s))
              (subst (λ x. ltb 1 (length x) ≡ true) (sym q) h)
      ]

  filter-retain : (p : List A → Bool) (m : BTreeMap (List A)) → filter (λ e. p e.1) m ≡ retain p m
  unfolding retain
  filter-retain p [] = refl
  filter-retain p ((k, v) ∷ m) = ground (arith, filter-retain p m)

  keys-IsStrict : (m : BTreeMap (List A)) → IsSorted m → IsStrict (map (λ e. e.0) m)
  keys-IsStrict [] s = tt
  keys-IsStrict ((k, v) ∷ []) s = (tt, tt)
  keys-IsStrict ((k, v) ∷ (j, w) ∷ m) s = (s.0, keys-IsStrict ((j, w) ∷ m) s.1)

  -- Each crowded key once, in their order.
  pub crowded-IsStrict : (l : List (String × A)) → IsStrict (map (λ e. e.0) (crowded l))
  unfolding crowded
  crowded-IsStrict l = keys-IsStrict (crowded l) (
      subst (λ (m : BTreeMap (List A)). IsSorted m)
        (sym (filter-retain (λ vs. ltb 1 (length vs)) (group l [])))
        (retain-IsSorted (λ vs. ltb 1 (length vs)) (group l []) (group-IsSorted l [] tt)))

  rebuilt :
      (f : String → List A) (k : List (String × List A))
      → ((e : String × List A) → Memᴰ e k → e.1 ≡ f e.0)
      → k ≡ map (λ n. (n, f n)) (map (λ e. e.0) k)
  rebuilt f [] h = refl
  rebuilt f ((n, vs) ∷ k) h =
      λ i. (n, h (n, vs) (Memᴰ.head refl) i) ∷ rebuilt f k (λ e m. h e (Memᴰ.tail m)) i

  -- The keys with more than one value, each once and with all its values.
  pub crowded_lem :
      (l : List (String × A))
      → (names : List String) × IsStrict names
        × ((name : String) → Memᴰ name names ↔ (ltb 1 (length (under name l)) ≡ true))
        × (crowded l ≡ map (λ name. (name, under name l)) names)
  crowded_lem l = (
    map (λ (e : String × List A). e.0) (crowded l),
    crowded-IsStrict l,
    λ name. (there name, back name),
    rebuilt (λ n. under n l) (crowded l) (λ e m. ((crowded_iff l e).0 m).1),
  )
    where
      there :
          (name : String)
          → Memᴰ name (map (λ (e : String × List A). e.0) (crowded l))
          → ltb 1 (length (under name l)) ≡ true
      there name m =
          let (e, k, q) = mem_of_mem-map (λ (e : String × List A). e.0) (crowded l) name m in
          subst (λ n. ltb 1 (length (under n l)) ≡ true) (sym q) ((crowded_iff l e).0 k).0

      back :
          (name : String)
          → ltb 1 (length (under name l)) ≡ true
          → Memᴰ name (map (λ (e : String × List A). e.0) (crowded l))
      back name h =
          mem-map (λ (e : String × List A). e.0) (crowded l) (name, under name l)
            ((crowded_iff l (name, under name l)).1 (h, refl))
