-- ===== src/Prelude/Search.antt =====
-- What `find`, `find_map` and `filter` find, over the library's membership with a position.
use mathlib.Core.Path.{◌≡◌, refl, subst, sym, ap}
use mathlib.Core.Logic.{◌⊎◌, inl, inr}
use mathlib.Core.Bool.{Bool, true, false}
use mathlib.Core.Option.{Option, none, some}
use mathlib.Core.List.{List, [], ◌∷◌, ◌++◌, map, reverse, reverse-cons, Memᴰ}
use native.Mathlib.Omega.{arith}
use fghj.Prelude.Tests.{Bool-cases, Option-cases}
use fghj.Prelude.Lists.{filter, find, find_map, flat_map, filter_map, All}

module _ {ℓ} {A : Type ℓ} where
  pub mem-find : (p : A → Bool) (l : List A) (x : A) → find p l ≡ some x → Memᴰ x l × (p x ≡ true)
  mem-find p [] x h = absurd (ground arith)
  mem-find p (y ∷ l) x h = elim (Bool-cases (p y)) [
    | inl e ↦ let q : y ≡ x = ground arith in (Memᴰ.head (sym q), subst (λ z. p z ≡ true) q e)
    | inr e ↦ let (m, q) = mem-find p l x (rw e at h) in (Memᴰ.tail m, q)
  ]

  pub find-eq-none : (p : A → Bool) (l : List A) (x : A) → find p l ≡ none → Memᴰ x l → p x ≡ false
  find-eq-none p [] x h m = elim m [ ]
  find-eq-none p (y ∷ l) x h (Memᴰ.head q) = subst (λ z. p z ≡ false) (sym q) (ground arith)
  find-eq-none p (y ∷ l) x h (Memᴰ.tail m) = elim (Bool-cases (p y)) [
    | inl e ↦ absurd (ground arith)
    | inr e ↦ find-eq-none p l x (rw e at h) m
  ]

  pub mem_of_mem-filter :
      (p : A → Bool) (l : List A) (x : A) → Memᴰ x (filter p l) → Memᴰ x l × (p x ≡ true)
  mem_of_mem-filter p [] x m = elim m [ ]
  mem_of_mem-filter p (y ∷ l) x m = elim (Bool-cases (p y)) [
    | inl e ↦ here e (rw e at m) (mem_of_mem-filter p l x)
    | inr e ↦ let (k, q) = mem_of_mem-filter p l x (rw e at m) in (Memᴰ.tail k, q)
  ]
    where
      here :
          p y ≡ true
          → Memᴰ x (y ∷ filter p l)
          → (Memᴰ x (filter p l) → Memᴰ x l × (p x ≡ true))
          → Memᴰ x (y ∷ l) × (p x ≡ true)
      here e (Memᴰ.head q) ih = (Memᴰ.head q, subst (λ z. p z ≡ true) (sym q) e)
      here e (Memᴰ.tail k) ih = let (k', q) = ih k in (Memᴰ.tail k', q)

  pub mem-filter : (p : A → Bool) (l : List A) (x : A) → Memᴰ x l → p x ≡ true → Memᴰ x (filter p l)
  mem-filter p [] x m h = elim m [ ]
  mem-filter p (y ∷ l) x (Memᴰ.head q) h = rw (subst (λ z. p z ≡ true) q h) (Memᴰ.head q)
  mem-filter p (y ∷ l) x (Memᴰ.tail m) h = elim (Bool-cases (p y)) [
    | inl e ↦ rw e (Memᴰ.tail (mem-filter p l x m h))
    | inr e ↦ rw e (mem-filter p l x m h)
  ]

  pub All-mem {κ} : (P : A → Type κ) (l : List A) (x : A) → All P l → Memᴰ x l → P x
  All-mem P [] x h m = elim m [ ]
  All-mem P (y ∷ l) x h (Memᴰ.head q) = subst P (sym q) h.0
  All-mem P (y ∷ l) x h (Memᴰ.tail m) = All-mem P l x h.1 m

  pub mem-append_left : (l k : List A) (x : A) → Memᴰ x l → Memᴰ x (l ++ k)
  mem-append_left [] k x m = elim m [ ]
  mem-append_left (y ∷ l) k x (Memᴰ.head q) = Memᴰ.head q
  mem-append_left (y ∷ l) k x (Memᴰ.tail m) = Memᴰ.tail (mem-append_left l k x m)

  pub mem-append_right : (l k : List A) (x : A) → Memᴰ x k → Memᴰ x (l ++ k)
  mem-append_right [] k x m = m
  mem-append_right (y ∷ l) k x m = Memᴰ.tail (mem-append_right l k x m)

  pub mem_of_mem-append : (l k : List A) (x : A) → Memᴰ x (l ++ k) → Memᴰ x l ⊎ Memᴰ x k
  mem_of_mem-append [] k x m = inr m
  mem_of_mem-append (y ∷ l) k x (Memᴰ.head q) = inl (Memᴰ.head q)
  mem_of_mem-append (y ∷ l) k x (Memᴰ.tail m) = elim (mem_of_mem-append l k x m) [
    | inl n ↦ inl (Memᴰ.tail n)
    | inr n ↦ inr n
  ]

  pub mem_of_mem-reverse : (l : List A) (x : A) → Memᴰ x (reverse l) → Memᴰ x l
  mem_of_mem-reverse [] x m = m
  mem_of_mem-reverse (y ∷ l) x m =
      elim (mem_of_mem-append (reverse l) (y ∷ []) x (subst (Memᴰ x) (reverse-cons y l) m)) [
        | inl k ↦ Memᴰ.tail (mem_of_mem-reverse l x k)
        | inr (Memᴰ.head q) ↦ Memᴰ.head q
        | inr (Memᴰ.tail k) ↦ elim k [ ]
      ]

module _ {ℓ κ} {A : Type ℓ} {B : Type κ} where
  pub mem-find_map :
      (f : A → Option B) (l : List A) (b : B)
      → find_map f l ≡ some b
      → (x : A) × Memᴰ x l × (f x ≡ some b)
  mem-find_map f [] b h = absurd (ground arith)
  mem-find_map f (y ∷ l) b h = elim (Option-cases (f y)) [
    | inl e ↦ let (x, m, q) = mem-find_map f l b (ground arith) in (x, Memᴰ.tail m, q)
    | inr (c, e) ↦ (y, Memᴰ.head refl, ground arith)
  ]

  pub mem_of_mem-filter_map :
      (f : A → Option B) (l : List A) (b : B)
      → Memᴰ b (filter_map f l)
      → (x : A) × Memᴰ x l × (f x ≡ some b)
  mem_of_mem-filter_map f [] b m = elim m [ ]
  mem_of_mem-filter_map f (y ∷ l) b m = elim (Option-cases (f y)) [
    | inl e ↦
        let (x, k, q) = mem_of_mem-filter_map f l b (rw (e, filter_map) at m) in (x, Memᴰ.tail k, q)
    | inr (c, e) ↦ here c e (rw (e, filter_map) at m) (mem_of_mem-filter_map f l b)
  ]
    where
      here :
          (c : B)
          → f y ≡ some c
          → Memᴰ b (c ∷ filter_map f l)
          → (Memᴰ b (filter_map f l) → (x : A) × Memᴰ x l × (f x ≡ some b))
          → (x : A) × Memᴰ x (y ∷ l) × (f x ≡ some b)
      here c e (Memᴰ.head q) ih = (y, Memᴰ.head refl, subst (λ z. f y ≡ some z) (sym q) e)
      here c e (Memᴰ.tail k) ih = let (x, j, q) = ih k in (x, Memᴰ.tail j, q)

  pub mem-filter_map :
      (f : A → Option B) (l : List A) (x : A) (b : B)
      → Memᴰ x l
      → f x ≡ some b
      → Memᴰ b (filter_map f l)
  mem-filter_map f [] x b m e = elim m [ ]
  mem-filter_map f (y ∷ l) x b (Memᴰ.head q) e =
      rw (subst (λ z. f z ≡ some b) q e, filter_map) (Memᴰ.head refl)
  mem-filter_map f (y ∷ l) x b (Memᴰ.tail m) e = elim (Option-cases (f y)) [
    | inl g ↦ rw (g, filter_map) (mem-filter_map f l x b m e)
    | inr (c, g) ↦ rw (g, filter_map) (Memᴰ.tail (mem-filter_map f l x b m e))
  ]

  pub find_map-eq-none :
      (f : A → Option B) (l : List A) (x : A) → find_map f l ≡ none → Memᴰ x l → f x ≡ none
  find_map-eq-none f [] x h m = elim m [ ]
  find_map-eq-none f (y ∷ l) x h (Memᴰ.head q) = elim (Option-cases (f y)) [
    | inl e ↦ subst (λ z. f z ≡ none) (sym q) e
    | inr (c, e) ↦ absurd (ground arith)
  ]
  find_map-eq-none f (y ∷ l) x h (Memᴰ.tail m) = elim (Option-cases (f y)) [
    | inl e ↦ find_map-eq-none f l x (ground arith) m
    | inr (c, e) ↦ absurd (ground arith)
  ]

  pub mem-flat_map :
      (f : A → List B) (l : List A) (x : A) (b : B)
      → Memᴰ x l
      → Memᴰ b (f x)
      → Memᴰ b (flat_map f l)
  mem-flat_map f [] x b m k = elim m [ ]
  mem-flat_map f (y ∷ l) x b (Memᴰ.head q) k =
      mem-append_left (f y) (flat_map f l) b (subst (λ z. Memᴰ b (f z)) q k)
  mem-flat_map f (y ∷ l) x b (Memᴰ.tail m) k =
      mem-append_right (f y) (flat_map f l) b (mem-flat_map f l x b m k)

  pub mem_of_mem-flat_map :
      (f : A → List B) (l : List A) (b : B)
      → Memᴰ b (flat_map f l)
      → (x : A) × Memᴰ x l × Memᴰ b (f x)
  mem_of_mem-flat_map f [] b m = elim m [ ]
  mem_of_mem-flat_map f (y ∷ l) b m = elim (mem_of_mem-append (f y) (flat_map f l) b m) [
    | inl k ↦ (y, Memᴰ.head refl, k)
    | inr k ↦ let (x, n, j) = mem_of_mem-flat_map f l b k in (x, Memᴰ.tail n, j)
  ]

  pub mem-map : (f : A → B) (l : List A) (x : A) → Memᴰ x l → Memᴰ (f x) (map f l)
  mem-map f [] x m = elim m [ ]
  mem-map f (y ∷ l) x (Memᴰ.head q) = Memᴰ.head (ap f q)
  mem-map f (y ∷ l) x (Memᴰ.tail m) = Memᴰ.tail (mem-map f l x m)

  pub mem_of_mem-map :
      (f : A → B) (l : List A) (b : B) → Memᴰ b (map f l) → (x : A) × Memᴰ x l × (b ≡ f x)
  mem_of_mem-map f [] b m = elim m [ ]
  mem_of_mem-map f (y ∷ l) b (Memᴰ.head q) = (y, Memᴰ.head refl, q)
  mem_of_mem-map f (y ∷ l) b (Memᴰ.tail m) =
      let (x, n, j) = mem_of_mem-map f l b m in (x, Memᴰ.tail n, j)
