-- ===== src/Activity/Update.antt =====
-- src/activity.rs: writes that leave alone what names a job and where it hangs.
use mathlib.Core.List.{Memᴰ}
use mathlib.Core.Path.{subst}
use mathlib.Core.Option
use fghj.Prelude.{
  ℕ, none, some, List, [], ◌∷◌, ◌≡◌, inl, inr, arith, refl, sym, ◌∙◌, nat_eq, Bool-cases,
  if◌then◌else◌, ◌||◌,
}
use fghj.Prelude.Pairwise.{Pairwise}
use fghj.Activity.Job.{Activity, Inner}
use fghj.Activity.Valid.{IsValid}
use fghj.Activity.{has, is_top, job, update, update_all}

abbrev pub SameJob : Activity → Activity → Type 0
SameJob a b =
    (a.id ≡ b.id)
    × (a.workspace_id ≡ b.workspace_id)
    × (a.parent ≡ b.parent)
    × (a.kind ≡ b.kind)
    × (a.key ≡ b.key)

abbrev pub Aligned : List Activity → List Activity → Type 0
Aligned [] [] = Unit
Aligned [] (b ∷ k) = ⊥
Aligned (a ∷ l) [] = ⊥
Aligned (a ∷ l) (b ∷ k) = SameJob a b × Aligned l k

pub Aligned-refl : (l : List Activity) → Aligned l l
Aligned-refl [] = tt
Aligned-refl (a ∷ l) = ((refl, refl, refl, refl, refl), Aligned-refl l)

pub Aligned-trans : (l k j : List Activity) → Aligned l k → Aligned k j → Aligned l j
Aligned-trans [] [] [] p q = tt
Aligned-trans [] [] (c ∷ j) p q = q
Aligned-trans [] (b ∷ k) j p q = elim p [ ]
Aligned-trans (a ∷ l) [] j p q = elim p [ ]
Aligned-trans (a ∷ l) (b ∷ k) [] p q = q
Aligned-trans (a ∷ l) (b ∷ k) (c ∷ j) p q = (ground arith, Aligned-trans l k j p.1 q.1)

pub mem_of_mem-Aligned :
    (l k : List Activity) (b : Activity)
    → Aligned l k
    → Memᴰ b k
    → (a : Activity) × Memᴰ a l × SameJob a b
mem_of_mem-Aligned [] [] b p m = elim m [ ]
mem_of_mem-Aligned [] (c ∷ k) b p m = elim p [ ]
mem_of_mem-Aligned (a ∷ l) [] b p m = elim m [ ]
mem_of_mem-Aligned (a ∷ l) (c ∷ k) b p (Memᴰ.head q) =
    (a, Memᴰ.head refl, subst (SameJob a) (sym q) p.0)
mem_of_mem-Aligned (a ∷ l) (c ∷ k) b p (Memᴰ.tail m) =
    let (d, n, s) = mem_of_mem-Aligned l k b p.1 m in (d, Memᴰ.tail n, s)

pub mem-Aligned :
    (l k : List Activity) (a : Activity)
    → Aligned l k
    → Memᴰ a l
    → (b : Activity) × Memᴰ b k × SameJob a b
mem-Aligned [] k a p m = elim m [ ]
mem-Aligned (c ∷ l) [] a p m = elim p [ ]
mem-Aligned (c ∷ l) (b ∷ k) a p (Memᴰ.head q) =
    (b, Memᴰ.head refl, subst (λ z. SameJob z b) (sym q) p.0)
mem-Aligned (c ∷ l) (b ∷ k) a p (Memᴰ.tail m) =
    let (d, n, s) = mem-Aligned l k a p.1 m in (d, Memᴰ.tail n, s)

Pairwise-Aligned :
    (R : Activity → Activity → Type 0)
    → ((a b c d : Activity) → SameJob a c → SameJob b d → R a b → R c d)
    → (l k : List Activity) → Aligned l k
    → Pairwise R l
    → Pairwise R k
Pairwise-Aligned R r [] [] p h = tt
Pairwise-Aligned R r [] (c ∷ k) p h = elim p [ ]
Pairwise-Aligned R r (a ∷ l) [] p h = elim p [ ]
Pairwise-Aligned R r (a ∷ l) (c ∷ k) p h = (
  λ d m. let (b, n, s) = mem_of_mem-Aligned l k d p.1 m in r a b c d p.0 s (h.0 b n),
  Pairwise-Aligned R r l k p.1 h.1,
)

pub Aligned-IsValid :
    (inner : Inner) (items : List Activity)
    → IsValid inner
    → Aligned inner.items items
    → IsValid (record inner { items = items })
Aligned-IsValid inner items valid p = record {
  ascending =
      Pairwise-Aligned _ (λ a b c d s t h. omega (arith, s.0, t.0)) _ items p valid.ascending;
  given = λ b m.
      let (a, n, s) = mem_of_mem-Aligned inner.items items b p m in
      omega (arith, valid.given a n, s.0);
  older = λ b q m e.
      let (a, n, s) = mem_of_mem-Aligned inner.items items b p m in
      omega (arith, valid.older a q n (s.2 ∙ e), s.0);
  rooted = λ b q m e.
      let (a, n, s) = mem_of_mem-Aligned inner.items items b p m in
      let (c, j, i) = valid.rooted a q n (s.2 ∙ e) in
      let (d, h, t) = mem-Aligned inner.items items c p j in (d, h, sym t.0 ∙ i);
  named =
      Pairwise-Aligned _ (λ a b c d s t h e. top-aligned a b c d s t ∙ h (s.2 ∙ e)) _ items p
        valid.named;
}
  where
    top-aligned :
        (a b c d : Activity)
        → SameJob a c
        → SameJob b d
        → is_top c.workspace_id c.kind c.key d ≡ is_top a.workspace_id a.kind a.key b
    top-aligned a b c d s t = rw (s.1, s.3, s.4, t.1, t.2, t.3, t.4)

abbrev pub KeepsJob : (Activity → Activity) → Type 0
KeepsJob f = (a : Activity) → SameJob a (f a)

module _ (f : Activity → Activity) (keeps : KeepsJob f) where
  pub update-Aligned : (id : ℕ) (items : List Activity) → Aligned items (update id f items)
  unfolding update
  update-Aligned id [] = tt
  update-Aligned id (a ∷ items) = elim (Bool-cases (nat_eq a.id id)) [
    | inl e ↦ rw (e, if◌then◌else◌) (keeps a, Aligned-refl items)
    | inr e ↦ rw (e, if◌then◌else◌) ((refl, refl, refl, refl, refl), update-Aligned id items)
  ]

  pub update_all-Aligned :
      (ids : List ℕ) (items : List Activity) → Aligned items (update_all f ids items)
  unfolding update_all
  update_all-Aligned [] items = Aligned-refl items
  update_all-Aligned (id ∷ ids) items =
      Aligned-trans items (update id f items) _ (update-Aligned id items)
        (update_all-Aligned ids (update id f items))

  pub job-update :
      (x id : ℕ) (items : List Activity)
      → job x (update id f items)
        ≡ (if nat_eq id x then Option.map f (job x items) else job x items)
  unfolding job update
  job-update x id [] = ground arith
  job-update x id (a ∷ items) = ground (arith, keeps a, job-update x id items)

  -- A second write to a job must change nothing more.
  pub job-update_all :
      ((a : Activity) → f (f a) ≡ f a)
      → (x : ℕ) (ids : List ℕ) (items : List Activity)
      → job x (update_all f ids items)
        ≡ (if has ids x then Option.map f (job x items) else job x items)
  unfolding update_all
  job-update_all twice x [] items = refl
  job-update_all twice x (id ∷ ids) items =
      job-update_all twice x ids (update id f items)
      ∙ after (job x items) (job x (update id f items)) (job-update x id items)
    where
      after :
          (o p : Option.Option Activity)
          → p ≡ (if nat_eq id x then Option.map f o else o)
          → (if has ids x then Option.map f p else p)
            ≡ (if nat_eq id x || has ids x then Option.map f o else o)
      after none p e = ground arith
      after (some a) p e = ground (arith, twice a)
