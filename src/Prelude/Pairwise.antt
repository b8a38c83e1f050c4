-- ===== src/Prelude/Pairwise.antt =====
-- Lists in which each element is related to all that come after it.
use mathlib.Core.Path.{◌≡◌, refl, sym, ◌∙◌, subst}
use mathlib.Core.Logic.{◌⊎◌, inl, inr}
use mathlib.Core.Bool.{Bool}
use mathlib.Core.List.{List, [], ◌∷◌, ◌++◌, Memᴰ}
use fghj.Prelude.Tests.{Bool-cases}
use fghj.Prelude.Lists.{filter}
use fghj.Prelude.Search.{mem_of_mem-append, mem_of_mem-filter}

module _ {ℓ κ} {A : Type ℓ} where
  abbrev pub Pairwise : (A → A → Type κ) → List A → Type (ℓ ⊔ κ)
  Pairwise R [] = Unit
  Pairwise R (x ∷ l) = ((y : A) → Memᴰ y l → R x y) × Pairwise R l

  pub Pairwise-at :
      (R : A → A → Type κ) (l : List A) (x y : A)
      → Pairwise R l
      → Memᴰ x l
      → Memᴰ y l
      → (x ≡ y) ⊎ (R x y ⊎ R y x)
  Pairwise-at R [] x y h m n = elim m [ ]
  Pairwise-at R (z ∷ l) x y h (Memᴰ.head p) (Memᴰ.head q) = inl (p ∙ sym q)
  Pairwise-at R (z ∷ l) x y h (Memᴰ.head p) (Memᴰ.tail n) =
      inr (inl (subst (λ w. R w y) (sym p) (h.0 y n)))
  Pairwise-at R (z ∷ l) x y h (Memᴰ.tail m) (Memᴰ.head q) =
      inr (inr (subst (λ w. R w x) (sym q) (h.0 x m)))
  Pairwise-at R (z ∷ l) x y h (Memᴰ.tail m) (Memᴰ.tail n) = Pairwise-at R l x y h.1 m n

  pub Pairwise-filter :
      (R : A → A → Type κ) (p : A → Bool) (l : List A) → Pairwise R l → Pairwise R (filter p l)
  Pairwise-filter R p [] h = tt
  Pairwise-filter R p (x ∷ l) h = elim (Bool-cases (p x)) [
    | inl e ↦ rw e (λ y m. h.0 y (mem_of_mem-filter p l y m).0, Pairwise-filter R p l h.1)
    | inr e ↦ rw e (Pairwise-filter R p l h.1)
  ]

  pub Pairwise-snoc :
      (R : A → A → Type κ) (l : List A) (x : A)
      → Pairwise R l
      → ((y : A) → Memᴰ y l → R y x)
      → Pairwise R (l ++ x ∷ [])
  Pairwise-snoc R [] x h k = (λ y m. elim m [ ], tt)
  Pairwise-snoc R (z ∷ l) x h k = (
    λ y m. elim (mem_of_mem-append l (x ∷ []) y m) [
      | inl n ↦ h.0 y n
      | inr (Memᴰ.head q) ↦ subst (R z) (sym q) (k z (Memᴰ.head refl))
      | inr (Memᴰ.tail n) ↦ elim n [ ]
    ],
    Pairwise-snoc R l x h.1 (λ y m. k y (Memᴰ.tail m)),
  )
