-- ===== src/Resolver/Search/Whole.antt =====
-- The whole search: it ends, and what it finds is exactly what the edges reach.
use mathlib.Core.List.{Memᴰ}
use fghj.Prelude.{
  ℕ, zero, suc, ◌<◌, ◌≤◌, ◌+◌, not, String, Bool, true, false, some, List, [], ◌∷◌, ◌≡◌, ◌↔◌, refl,
  ap, arith, length, filter, map, Bool-cases, inl, inr,
}
use fghj.Prelude.Sets.{contains_iff}
use fghj.Resolver.Search.{Arc, Search, visit, search, arcs_of}
use fghj.Resolver.Graph.{Edge, needed_to_start}
use fghj.Resolver.Search.Reach.{
  Reaches, known, potential, IsSearching, Pending, Included, visit_lem,
}

pub length-filter_le : {A : Type 0} → (p : A → Bool) (l : List A) → length (filter p l) ≤ length l
length-filter_le p [] = omega arith
length-filter_le p (x ∷ l) =
    let ih = length-filter_le p l in
    elim (Bool-cases (p x)) [ inl e ↦ rw e (omega arith) | inr e ↦ rw e (omega arith) ]

pub length-map : {A B : Type 0} → (f : A → B) (l : List A) → length (map f l) ≡ length l
length-map f [] = refl
length-map f (x ∷ l) = ap suc (length-map f l)

pub few_arcs :
    (edges : List Edge) (direction : Edge → Arc) → length (arcs_of direction edges) ≤ length edges
unfolding arcs_of
few_arcs edges direction =
    let few = length-filter_le needed_to_start edges in
    let same = length-map direction (filter needed_to_start edges) in omega arith

-- No edge is still to be looked at.
unfoldable pub Nothing : Arc → Type 0
Nothing a = ⊥

module _ (skip root : String → Bool) (arcs : List Arc) where
  -- Exactly what the edges reach from the roots, without the nodes to be skipped.
  unfoldable pub IsClosure : List String → Type 0
  IsClosure found = (x : String) → Memᴰ x found ↔ (Reaches arcs root x × (skip x ≡ false))

  all_known :
      (found : List String)
      → IsSearching skip root arcs Nothing (record { found = found; queue = [] })
      → (x : String) → Reaches arcs root x
      → known skip root found x ≡ true
  unfolding Nothing
  all_known found i x (Reaches.start h) = i.rooted x h
  all_known found i x (Reaches.step {y} r m) = elim (i.closed (y, x) m (all_known found i y r)) [
    | inl k ↦ k
    | inr (inl k) ↦ elim k [ ]
    | inr (inr k) ↦ absurd k
  ]

  found-IsClosure :
      (found : List String)
      → IsSearching skip root arcs Nothing (record { found = found; queue = [] })
      → IsClosure found
  unfolding IsClosure
  found-IsClosure found i x = (there, back)
    where
      there : Memᴰ x found → Reaches arcs root x × (skip x ≡ false)
      there m =
          let e = (contains_iff found x).1 m in
          (
            i.reached x (ground arith),
            elim (Bool-cases (skip x)) [ inl k ↦ absurd (ground (arith, i.apart x k)) | inr k ↦ k ],
          )

      back : Reaches arcs root x × (skip x ≡ false) → Memᴰ x found
      back (r, q) = (contains_iff found x).0 (ground (arith, all_known found i x r))

  pop-IsSearching :
      (found queue : List String) (current : String)
      → IsSearching skip root arcs Nothing (record { found = found; queue = current ∷ queue })
      → IsSearching skip root arcs
          (Pending skip root arcs current arcs)
          (record { found = found; queue = queue })
  unfolding Nothing
  pop-IsSearching found queue current i = record {
    reached = i.reached;
    rooted = i.rooted;
    apart = i.apart;
    queued = λ x m. i.queued x (Memᴰ.tail m);
    closed = λ a m e. elim (i.closed a m e) [
      | inl k ↦ inl k
      | inr (inl (Memᴰ.head q)) ↦ inr (inr (q, m))
      | inr (inl (Memᴰ.tail k)) ↦ inr (inl k)
      | inr (inr k) ↦ absurd k
    ];
  }

  rest-IsSearching :
      (current : String) (s : Search)
      → IsSearching skip root arcs (Pending skip root arcs current []) s
      → IsSearching skip root arcs Nothing s
  unfolding Nothing
  rest-IsSearching current s i = record {
    reached = i.reached;
    rooted = i.rooted;
    apart = i.apart;
    queued = i.queued;
    closed = λ a m e. elim (i.closed a m e) [
      | inl k ↦ inl k
      | inr (inl k) ↦ inr (inl k)
      | inr (inr (f, k)) ↦ elim k [ ]
    ];
  }

  pub search_lem :
      (fuel : ℕ) (found queue : List String)
      → potential skip root arcs (record { found = found; queue = queue }) < fuel
      → IsSearching skip root arcs Nothing (record { found = found; queue = queue })
      → (all : List String) × (search skip arcs fuel found queue ≡ some all) × IsClosure all
  unfolding search potential Included
  search_lem zero found queue h i = absurd (omega arith)
  search_lem (suc fuel) found [] h i = (found, refl, found-IsClosure found i)
  search_lem (suc fuel) found (current ∷ queue) h i =
      let s : Search = record { found = found; queue = queue } in
      let (i', less) =
        visit_lem skip root arcs current arcs s (λ a m. m) (i.queued current (Memᴰ.head refl))
          (pop-IsSearching found queue current i) in
      search_lem fuel (visit skip current arcs s).found (visit skip current arcs s).queue
        (omega arith) (rest-IsSearching current (visit skip current arcs s) i')

  pub potential_le :
      (found queue : List String)
      → potential skip root arcs (record { found = found; queue = queue })
        ≤ length queue + length arcs
  unfolding potential
  potential_le found queue =
      let few = length-filter_le (λ (a : Arc). not (known skip root found a.1)) arcs in omega arith
