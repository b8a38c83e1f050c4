-- ===== src/Resolver/Uniqueness/Unique.antt =====
-- src/resolver/uniqueness.rs: when the two checks give no warning.
use mathlib.Core.List.{Memᴰ}
use mathlib.Core.Path.{subst}
use fghj.Prelude.{
  ◌≤◌, ◌+◌, String, false, List, [], ◌∷◌, ◌++◌, ◌≡◌, ◌≢◌, ◌↔◌, refl, sym, ap, ◌∙◌, inl, inr, arith,
  Bool-cases, map, flat_map, length, str_eq, eq_iff, eq_refl, ltb, ltb→lt,
}
use fghj.Prelude.Pairwise.{Pairwise}
use fghj.Resolver.Graph.{Node}
use fghj.Resolver.Uniqueness.{
  claims_of, crowded, domain_warning, container_warning, sanitize_label, check_domains,
  check_container_names, check_derived_name_collisions,
}
use fghj.Resolver.Uniqueness.Grouped.{under, crowded_iff}

-- The keys of the list are different.
abbrev pub IsUnique : {A : Type 0} → List (String × A) → Type 0
IsUnique {A} l = Pairwise (λ (a b : String × A). a.0 ≢ b.0) l

module _ {A : Type 0} where
  abbrev Lonely : List (String × A) → Type 0
  Lonely l = (name : String) → length (under name l) ≤ 1

  present :
      (name : String) (l : List (String × A)) (y : String × A)
      → Memᴰ y l
      → name ≡ y.0
      → 1 ≤ length (under name l)
  present name [] y m e = elim m [ ]
  present name (x ∷ l) y (Memᴰ.head q) e =
      rw ((eq_iff x.0 name).1 (ap (λ (z : String × A). z.0) (sym q) ∙ sym e)) (omega arith)
  present name (x ∷ l) y (Memᴰ.tail m) e = elim (Bool-cases (str_eq x.0 name)) [
    | inl f ↦ rw f (omega arith)
    | inr f ↦ rw f (present name l y m e)
  ]

  absent :
      (name : String) (l : List (String × A))
      → ((y : String × A) → Memᴰ y l → name ≢ y.0)
      → length (under name l) ≡ 0
  absent name [] h = refl
  absent name (x ∷ l) h = elim (Bool-cases (str_eq x.0 name)) [
    | inl f ↦ absurd (h x (Memᴰ.head refl) (sym ((eq_iff x.0 name).0 f)))
    | inr f ↦ rw f (absent name l (λ y m. h y (Memᴰ.tail m)))
  ]

  distinct_keys : (l : List (String × A)) → Lonely l → IsUnique l
  distinct_keys [] h = tt
  distinct_keys (x ∷ l) h = (
    λ y m e.
        let more = present x.0 l y m e in
        let two : length (under x.0 l) + 1 ≤ 1 = two_there (h x.0) in omega arith,
    distinct_keys l (λ name. fewer name (h name)),
  )
    where
      two_there : length (under x.0 (x ∷ l)) ≤ 1 → length (under x.0 l) + 1 ≤ 1
      two_there k = let k' = rw (eq_refl x.0) at k in omega arith

      fewer : (name : String) → length (under name (x ∷ l)) ≤ 1 → length (under name l) ≤ 1
      fewer name k = elim (Bool-cases (str_eq x.0 name)) [
        | inl f ↦ let k' = rw f at k in omega arith
        | inr f ↦ rw f at k
      ]

  few_under : (l : List (String × A)) → IsUnique l → Lonely l
  few_under [] h name = omega arith
  few_under (x ∷ l) h name = elim (Bool-cases (str_eq x.0 name)) [
    | inl f ↦
        let none_left = absent x.0 l h.0 in
        let p = (eq_iff x.0 name).0 f in
        let none_left' : length (under name l) ≡ 0 =
          subst (λ z. length (under z l) ≡ 0) p none_left in
        rw f (omega arith)
    | inr f ↦ rw f (few_under l h.1 name)
  ]

  no_entry : (k : List (String × List A)) → ((e : String × List A) → Memᴰ e k → ⊥) → k ≡ []
  no_entry [] h = refl
  no_entry (e ∷ k) h = absurd (h e (Memᴰ.head refl))

  crowded-eq-nil_iff : (l : List (String × A)) → (crowded l ≡ []) ↔ IsUnique l
  crowded-eq-nil_iff l = (there, back)
    where
      alone : crowded l ≡ [] → (name : String) → ltb 1 (length (under name l)) ≡ false
      alone e name = elim (Bool-cases (ltb 1 (length (under name l)))) [
        | inr f ↦ f
        | inl f ↦
            elim (subst (Memᴰ (name, under name l)) e
              ((crowded_iff l (name, under name l)).1 (f, refl))) [ ]
      ]

      there : crowded l ≡ [] → IsUnique l
      there e = distinct_keys l (λ name. few name (alone e name))
        where
          few : (name : String) → ltb 1 (length (under name l)) ≡ false → length (under name l) ≤ 1
          few name h = ground arith

      back : IsUnique l → crowded l ≡ []
      back u = no_entry (crowded l) (λ e m.
          let h = ltb→lt 1 (length (under e.0 l)) ((crowded_iff l e).0 m).0 in
          let k = few_under l u e.0 in omega arith)

append-eq-nil_iff : {A : Type 0} (l k : List A) → (l ++ k ≡ []) ↔ ((l ≡ []) × (k ≡ []))
append-eq-nil_iff [] k = (λ e. (refl, e), λ h. h.1)
append-eq-nil_iff (x ∷ l) k = (λ e. absurd (cc), λ h. absurd (cc))

map-eq-nil_iff : {A B : Type 0} (f : A → B) (l : List A) → (map f l ≡ []) ↔ (l ≡ [])
map-eq-nil_iff f [] = (λ e. refl, λ e. refl)
map-eq-nil_iff f (x ∷ l) = (λ e. absurd (cc), λ e. absurd (cc))

-- There is no warning just when all the names that the nodes claim are different, and all the labels
-- that their ids reduce to are.
pub check_derived_name_collisions_iff :
    (to_lowercase : String → String) (nodes : List Node)
    → (check_derived_name_collisions to_lowercase nodes ≡ []) ↔ (
        IsUnique (flat_map claims_of nodes)
        × IsUnique (map (λ (n : Node). (sanitize_label to_lowercase n.id, n.id)) nodes))
unfolding check_derived_name_collisions check_domains check_container_names
check_derived_name_collisions_iff to_lowercase nodes =
    let labels = map (λ (n : Node). (sanitize_label to_lowercase n.id, n.id)) nodes in
    let claims = flat_map claims_of nodes in
    let both =
      append-eq-nil_iff (map domain_warning (crowded claims))
        (map container_warning (crowded labels)) in
    let first = map-eq-nil_iff domain_warning (crowded claims) in
    let second = map-eq-nil_iff container_warning (crowded labels) in
    (
      λ e. (
        (crowded-eq-nil_iff claims).0 (first.0 (both.0 e).0),
        (crowded-eq-nil_iff labels).0 (second.0 (both.0 e).1),
      ),
      λ h. both.1 (
        first.1 ((crowded-eq-nil_iff claims).1 h.0),
        second.1 ((crowded-eq-nil_iff labels).1 h.1),
      ),
    )
