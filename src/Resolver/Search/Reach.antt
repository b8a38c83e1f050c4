-- ===== src/Resolver/Search/Reach.antt =====
-- What the search finds: exactly the nodes that the edges reach.
use mathlib.Core.List.{Memᴰ}
use mathlib.Core.Path.{subst}
use fghj.Prelude.{
  ℕ, ◌<◌, ◌≤◌, ◌+◌, ◌||◌, not, String, Bool, true, false, List, [], ◌∷◌, ◌≡◌, ◌⊎◌, refl, sym, ap,
  arith, length, filter, Bool-cases, inl, inr, eq_refl, eq_iff, str_eq, ◌∙◌,
}
use fghj.Prelude.Sets.{contains, contains-add}
use fghj.Resolver.Search.{Arc, Search, is_new, push, visit}

-- What a chain of edges, of any length, reaches from the roots.
pub data Reaches (arcs : List Arc) (root : String → Bool) : String → Type 0 where
  start : {x : String} → root x ≡ true → Reaches arcs root x
  step : {y x : String} → Reaches arcs root y → Memᴰ (y, x) arcs → Reaches arcs root x

module _ {ℓ} {A : Type ℓ} where
  pub length-filter :
      (p q : A → Bool) (l : List A)
      → ((x : A) → q x ≡ true → p x ≡ true)
      → length (filter q l) ≤ length (filter p l)
  length-filter p q [] h = omega arith
  length-filter p q (x ∷ l) h =
      let ih = length-filter p q l h in
      elim (Bool-cases (q x)) [
        | inl e ↦ rw (e, h x e) (omega arith)
        | inr e ↦ elim (Bool-cases (p x)) [ inl f ↦ rw (e, f) (omega arith) | inr f ↦ rw (e, f) ih ]
      ]

  pub length-filter_lt :
      (p q : A → Bool) (l : List A) (a : A)
      → ((x : A) → q x ≡ true → p x ≡ true)
      → Memᴰ a l
      → p a ≡ true
      → q a ≡ false
      → length (filter q l) < length (filter p l)
  length-filter_lt p q [] a h m e f = elim m [ ]
  length-filter_lt p q (x ∷ l) a h (Memᴰ.head k) e f =
      let ih = length-filter p q l h in rw (sym (ap p k) ∙ e, sym (ap q k) ∙ f) (omega arith)
  length-filter_lt p q (x ∷ l) a h (Memᴰ.tail m) e f =
      let ih = length-filter_lt p q l a h m e f in
      elim (Bool-cases (q x)) [
        | inl e' ↦ rw (e', h x e') (omega arith)
        | inr e' ↦ elim (Bool-cases (p x)) [
          | inl f' ↦ rw (e', f') (omega arith)
          | inr f' ↦ rw (e', f') ih
        ]
      ]

module _ (skip root : String → Bool) where
  abbrev pub known : List String → String → Bool
  known found x = skip x || contains found x

  abbrev unfound : List String → Arc → Bool
  unfound found a = not (known found a.1)

  unfoldable pub potential : List Arc → Search → ℕ
  potential arcs s = length s.queue + length (filter (unfound s.found) arcs)

  -- The invariant of the search: what it found is reached, and an edge out of a known node finds
  -- a known node, unless the node is queued or the edge is still to be looked at.
  pub record IsSearching (arcs : List Arc) (pending : Arc → Type 0) (s : Search) : Type 0 where
    pub reached : (x : String) → known s.found x ≡ true → Reaches arcs root x
    pub rooted : (x : String) → root x ≡ true → known s.found x ≡ true
    pub apart : (x : String) → skip x ≡ true → contains s.found x ≡ false
    pub queued : (x : String) → Memᴰ x s.queue → known s.found x ≡ true
    pub closed :
        (a : Arc)
        → Memᴰ a arcs
        → known s.found a.0 ≡ true
        → (known s.found a.1 ≡ true) ⊎ (Memᴰ a.0 s.queue ⊎ pending a)

  module _ (arcs : List Arc) (current : String) where
    abbrev pub Pending : List Arc → Arc → Type 0
    Pending l a = (a.0 ≡ current) × Memᴰ a l

    push-potential :
        (a : Arc) (s : Search)
        → Memᴰ a arcs
        → is_new skip current s.found a ≡ true
        → potential arcs (push skip current a s) ≤ potential arcs s
    unfolding potential is_new
    push-potential a s m h =
        let smaller =
          length-filter_lt (unfound s.found) (unfound (push skip current a s).found) arcs a
            (λ x e. ground (arith, contains-add a.1 x.1 s.found)) m (ground arith)
            (ground (arith, contains-add a.1 a.1 s.found, eq_refl a.1)) in
        omega arith

    -- A push keeps what is known, and makes its target known.
    known-push :
        (a : Arc) (s : Search) (x : String)
        → known (push skip current a s).found x ≡ (known s.found x || str_eq a.1 x)
    known-push a s x = ground (arith, contains-add a.1 x s.found)

    reached-push :
        (a : Arc) (s : Search) (x : String)
        → ((x : String) → known s.found x ≡ true → Reaches arcs root x)
        → known s.found current ≡ true
        → Memᴰ a arcs
        → a.0 ≡ current
        → known (push skip current a s).found x ≡ true
        → Reaches arcs root x
    reached-push a s x reached c m e h = elim (Bool-cases (str_eq a.1 x)) [
      | inl f ↦
          subst (Reaches arcs root) ((eq_iff a.1 x).0 f)
            (Reaches.step (reached current c) (subst (λ y. Memᴰ (y, a.1) arcs) e m))
      | inr f ↦ reached x (ground (arith, known-push a s x))
    ]

    apart-push :
        (a : Arc) (s : Search) (x : String)
        → skip a.1 ≡ false
        → skip x ≡ true
        → contains s.found x ≡ false
        → contains (push skip current a s).found x ≡ false
    apart-push a s x h k e = elim (Bool-cases (str_eq a.1 x)) [
      | inl f ↦ absurd (ground (arith, sym h ∙ ap skip ((eq_iff a.1 x).0 f) ∙ k))
      | inr f ↦ ground (arith, contains-add a.1 x s.found)
    ]

    closed-push :
        (a : Arc) (rest : List Arc) (s : Search) (b : Arc)
        → IsSearching arcs (Pending (a ∷ rest)) s
        → Memᴰ b arcs
        → known (push skip current a s).found b.0 ≡ true
        → (known (push skip current a s).found b.1 ≡ true)
          ⊎ (Memᴰ b.0 (push skip current a s).queue ⊎ Pending rest b)
    closed-push a rest s b i m h = elim (Bool-cases (str_eq a.1 b.0)) [
      | inl e ↦ inr (inl (Memᴰ.head (sym ((eq_iff a.1 b.0).0 e))))
      | inr e ↦ elim (i.closed b m (ground (arith, known-push a s b.0))) [
        | inl k ↦ inl (ground (arith, known-push a s b.1))
        | inr (inl k) ↦ inr (inl (Memᴰ.tail k))
        | inr (inr (f, Memᴰ.head q)) ↦
            inl (ground (arith, known-push a s b.1, ap (λ (x : Arc). x.1) q, eq_refl a.1))
        | inr (inr (f, Memᴰ.tail k)) ↦ inr (inr (f, k))
      ]
    ]

    push-IsSearching :
        (a : Arc) (rest : List Arc) (s : Search)
        → known s.found current ≡ true
        → Memᴰ a arcs
        → is_new skip current s.found a ≡ true
        → IsSearching arcs (Pending (a ∷ rest)) s
        → IsSearching arcs (Pending rest) (push skip current a s)
    unfolding is_new
    push-IsSearching a rest s c m h i = record {
      reached = λ x e. reached-push a s x i.reached c m ((eq_iff a.0 current).0 (ground arith)) e;
      rooted = λ x e. ground (arith, known-push a s x, i.rooted x e);
      apart = λ x e. apart-push a s x (ground arith) e (i.apart x e);
      queued = λ x k. elim k [
        | Memᴰ.head q ↦ ground (arith, known-push a s x, eq_iff a.1 x, sym q)
        | Memᴰ.tail k ↦ ground (arith, known-push a s x, i.queued x k)
      ];
      closed = λ b k e. closed-push a rest s b i k e;
    }

    skip-IsSearching :
        (a : Arc) (rest : List Arc) (s : Search)
        → is_new skip current s.found a ≡ false
        → IsSearching arcs (Pending (a ∷ rest)) s
        → IsSearching arcs (Pending rest) s
    unfolding is_new
    skip-IsSearching a rest s h i = record {
      reached = i.reached;
      rooted = i.rooted;
      apart = i.apart;
      queued = i.queued;
      closed = λ b m e. elim (i.closed b m e) [
        | inl k ↦ inl k
        | inr (inl k) ↦ inr (inl k)
        | inr (inr (f, Memᴰ.head q)) ↦
            let from = (eq_iff a.0 current).1 (sym (ap (λ (x : Arc). x.0) q) ∙ f) in
            let to = ap (λ (x : Arc). known s.found x.1) q in inl (to ∙ ground arith)
        | inr (inr (f, Memᴰ.tail k)) ↦ inr (inr (f, k))
      ];
    }

    unfoldable pub Included : List Arc → Type 0
    Included l = (a : Arc) → Memᴰ a l → Memᴰ a arcs

    pub visit_lem :
        (l : List Arc) (s : Search)
        → Included l
        → known s.found current ≡ true
        → IsSearching arcs (Pending l) s
        → IsSearching arcs (Pending []) (visit skip current l s)
          × (potential arcs (visit skip current l s) ≤ potential arcs s)
    unfolding visit Included
    visit_lem [] s inc c i = (i, omega arith)
    visit_lem (a ∷ l) s inc c i = elim (Bool-cases (is_new skip current s.found a)) [
      | inl e ↦
          let m = inc a (Memᴰ.head refl) in
          let (i', less) =
            visit_lem l (push skip current a s) (λ b k. inc b (Memᴰ.tail k))
              (ground (arith, known-push a s current)) (push-IsSearching a l s c m e i) in
          let less' = push-potential a s m e in rw (e, visit) (i', omega arith)
      | inr e ↦
          rw (e, visit) (visit_lem l s (λ b k. inc b (Memᴰ.tail k)) c (skip-IsSearching a l s e i))
    ]
