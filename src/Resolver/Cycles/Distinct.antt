-- ===== src/Resolver/Cycles/Distinct.antt =====
-- src/resolver/cycles.rs: the cycles that are left when the rotations of a loop are reported once.
use mathlib.Core.List.{Memᴰ}
use mathlib.Core.Path.{subst}
use fghj.Prelude.{
  String, Bool, true, false, List, [], ◌∷◌, ◌≡◌, ◌≢◌, ◌⊎◌, refl, sym, ap, inl, inr, arith,
  Bool-cases, any, ◌==◌, eq_List, eq_String, equal_iff,
}
use fghj.Prelude.Pairwise.{Pairwise}
use fghj.Prelude.Sorting.{sort}
use fghj.Resolver.Cycles.{distinct}

abbrev known : List String → List (List String) → Bool
known key seen = any (λ k. k == key) seen

pub mem_of_mem-distinct :
    (seen cycles : List (List String)) (c : List String)
    → Memᴰ c (distinct seen cycles)
    → Memᴰ c cycles × (known (sort c) seen ≡ false)
unfolding distinct
mem_of_mem-distinct seen [] c m = elim m [ ]
mem_of_mem-distinct seen (d ∷ cycles) c m = elim (Bool-cases (known (sort d) seen)) [
  | inl e ↦
      let (k, q) = mem_of_mem-distinct seen cycles c (rw (e, distinct) at m) in (Memᴰ.tail k, q)
  | inr e ↦ here e (rw (e, distinct) at m) (mem_of_mem-distinct (sort d ∷ seen) cycles c)
]
  where
    here :
        known (sort d) seen ≡ false
        → Memᴰ c (d ∷ distinct (sort d ∷ seen) cycles)
        → (Memᴰ c (distinct (sort d ∷ seen) cycles)
            → Memᴰ c cycles × (known (sort c) (sort d ∷ seen) ≡ false))
        → Memᴰ c (d ∷ cycles) × (known (sort c) seen ≡ false)
    here e (Memᴰ.head q) ih = (Memᴰ.head q, subst (λ x. known (sort x) seen ≡ false) (sym q) e)
    here e (Memᴰ.tail k) ih = let (i, h) = ih k in (Memᴰ.tail i, ground arith)

distinct-Pairwise :
    (seen cycles : List (List String)) → Pairwise (λ c d. sort c ≢ sort d) (distinct seen cycles)
unfolding distinct
distinct-Pairwise seen [] = tt
distinct-Pairwise seen (c ∷ cycles) = elim (Bool-cases (known (sort c) seen)) [
  | inl e ↦ rw (e, distinct) (distinct-Pairwise seen cycles)
  | inr e ↦ rw (e, distinct) (apart, distinct-Pairwise (sort c ∷ seen) cycles)
]
  where
    apart : (d : List String) → Memᴰ d (distinct (sort c ∷ seen) cycles) → sort c ≢ sort d
    apart d m q =
        let h = (mem_of_mem-distinct (sort c ∷ seen) cycles d m).1 in
        absurd (ground (arith, equal_iff (sort c) (sort d)))

distinct-covers :
    (seen cycles : List (List String)) (c : List String)
    → Memᴰ c cycles
    → (known (sort c) seen ≡ true)
      ⊎ ((d : List String) × Memᴰ d (distinct seen cycles) × (sort d ≡ sort c))
unfolding distinct
distinct-covers seen [] c m = elim m [ ]
distinct-covers seen (d ∷ cycles) c (Memᴰ.head q) = elim (Bool-cases (known (sort d) seen)) [
  | inl e ↦ inl (subst (λ x. known (sort x) seen ≡ true) (sym q) e)
  | inr e ↦ inr (d, rw (e, distinct) (Memᴰ.head refl), ap sort (sym q))
]
distinct-covers seen (d ∷ cycles) c (Memᴰ.tail m) = elim (Bool-cases (known (sort d) seen)) [
  | inl e ↦ rw (e, distinct) (distinct-covers seen cycles c m)
  | inr e ↦ elim (distinct-covers (sort d ∷ seen) cycles c m) [
    | inr (x, k, q) ↦ inr (x, rw (e, distinct) (Memᴰ.tail k), q)
    | inl h ↦ elim (Bool-cases (sort d == sort c)) [
      | inl f ↦ inr (d, rw (e, distinct) (Memᴰ.head refl), (equal_iff (sort d) (sort c)).0 f)
      | inr f ↦ inl (ground arith)
    ]
  ]
]

-- Of the cycles that the walks found, those with the same nodes are reported once: each kept one was
-- found, no two kept ones have the same nodes, and each found one has the nodes of a kept one.
pub distinct_lem :
    (cycles : List (List String))
    → ((c : List String) → Memᴰ c (distinct [] cycles) → Memᴰ c cycles)
      × Pairwise (λ c d. sort c ≢ sort d) (distinct [] cycles)
      × ((c : List String)
          → Memᴰ c cycles
          → (d : List String) × Memᴰ d (distinct [] cycles) × (sort d ≡ sort c))
distinct_lem cycles = (
  λ c m. (mem_of_mem-distinct [] cycles c m).0,
  distinct-Pairwise [] cycles,
  λ c m. elim (distinct-covers [] cycles c m) [ inl e ↦ absurd (ground arith) | inr k ↦ k ],
)
