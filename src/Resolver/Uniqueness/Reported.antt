-- ===== src/Resolver/Uniqueness/Reported.antt =====
-- src/resolver/uniqueness.rs: which warnings the two checks give.
use mathlib.Core.List.{Memᴰ}
use fghj.Prelude.{
  ◌<◌, String, List, [], ◌∷◌, ◌++◌, ◌≡◌, ◌↔◌, refl, ap, ◌∙◌, arith, map, flat_map, length, ltb→lt,
}
use fghj.Prelude.Sorting.{IsStrict}
use fghj.Resolver.Graph.{Node}
use fghj.Resolver.Uniqueness.{
  Claim, claims_of, crowded, domain_warning, container_warning, sanitize_label, check_domains,
  check_container_names, check_derived_name_collisions,
}
use fghj.Resolver.Uniqueness.Grouped.{under, crowded_lem}

-- The nodes and the ways by which a name is claimed.
abbrev pub claimants : List Node → String → List (String × Claim)
claimants nodes name = under name (flat_map claims_of nodes)

-- The nodes whose id is reduced to a label.
abbrev pub owners : (String → String) → List Node → String → List String
owners to_lowercase nodes label =
    under label (map (λ (n : Node). (sanitize_label to_lowercase n.id, n.id)) nodes)

map-map :
    {A B C : Type 0} (g : B → C) (f : A → B) (l : List A) → map g (map f l) ≡ map (λ a. g (f a)) l
map-map g f [] = refl
map-map g f (x ∷ l) = ap (λ r. g (f x) ∷ r) (map-map g f l)

-- The texts that more than one wants: exactly these, each once and in order.
abbrev pub AreContested : {A : Type 0} → (String → List A) → List String → Type 0
AreContested wanted names =
    IsStrict names × ((name : String) → Memᴰ name names ↔ (1 < length (wanted name)))

contested :
    {A : Type 0} (l : List (String × A))
    → (names : List String) × AreContested (λ name. under name l) names
      × (crowded l ≡ map (λ name. (name, under name l)) names)
contested l =
    let (names, strict, members, q) = crowded_lem l in
    (
      names,
      (
        strict,
        λ name. (
          (λ m. ltb→lt 1 (length (under name l)) ((members name).0 m)),
          λ h. (members name).1 (ground arith),
        ),
      ),
      q,
    )

-- The warnings are exactly these, in this order: for each name that more than one claim is made to,
-- one, which lists the claims; then for each label that the ids of more than one node reduce to, one,
-- which lists the ids. Names and labels are strictly ascending, so that none comes twice.
pub check_derived_name_collisions_lem :
    (to_lowercase : String → String) (nodes : List Node)
    → (names : List String) × (labels : List String) × AreContested (claimants nodes) names
      × AreContested (owners to_lowercase nodes) labels
      × (check_derived_name_collisions to_lowercase nodes
          ≡ map (λ name. domain_warning (name, claimants nodes name)) names
            ++ map (λ label. container_warning (label, owners to_lowercase nodes label)) labels)
unfolding check_derived_name_collisions check_domains check_container_names
check_derived_name_collisions_lem to_lowercase nodes =
    let (names, a, p) = contested (flat_map claims_of nodes) in
    let (labels, b, q) =
      contested (map (λ (n : Node). (sanitize_label to_lowercase n.id, n.id)) nodes) in
    (
      names,
      labels,
      a,
      b,
      λ i.
          (ap (map domain_warning) p
              ∙ map-map domain_warning (λ name. (name, claimants nodes name)) names)
            i
          ++ (ap (map container_warning) q
                ∙ map-map container_warning (λ label. (label, owners to_lowercase nodes label))
                    labels)
              i,
    )
