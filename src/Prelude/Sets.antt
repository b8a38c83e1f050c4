-- ===== src/Prelude/Sets.antt =====
-- `HashSet<String>` and `BTreeSet<String>`: membership in a list of texts, and an insertion that
-- says whether the text is new.
use Prim.Native.String.{String}
use mathlib.Core.Path.{◌≡◌, refl, sym, ap, ◌∙◌}
use mathlib.Core.Logic.{◌↔◌, inl, inr}
use mathlib.Core.Bool.{Bool, true, false, ◌||◌}
use mathlib.Core.List.{List, [], ◌∷◌, Memᴰ}
use native.Mathlib.Omega.{arith}
use text.Mathlib.Text.{◌==◌ as str_eq}
use text.Mathlib.TextEquality.{eq_iff}
use fghj.Prelude.Tests.{Bool-cases}
use fghj.Prelude.Lists.{all}
use fghj.Prelude.Sorting.{insert_sorted}

unfoldable pub contains : List String → String → Bool
contains [] x = false
contains (y ∷ l) x = str_eq y x || contains l x

mem_of_contains : (l : List String) (x : String) → contains l x ≡ true → Memᴰ x l
unfolding contains
mem_of_contains [] x h = absurd (ground arith)
mem_of_contains (y ∷ l) x h = elim (Bool-cases (str_eq y x)) [
  | inl e ↦ Memᴰ.head (sym ((eq_iff y x).0 e))
  | inr e ↦ Memᴰ.tail (mem_of_contains l x (ground arith))
]

contains_of_mem : (l : List String) (x : String) → Memᴰ x l → contains l x ≡ true
unfolding contains
contains_of_mem [] x m = elim m [ ]
contains_of_mem (y ∷ l) x (Memᴰ.head q) = ground (arith, eq_iff y x)
contains_of_mem (y ∷ l) x (Memᴰ.tail m) = ground (arith, contains_of_mem l x m)

pub contains_iff : (l : List String) (x : String) → (contains l x ≡ true) ↔ Memᴰ x l
contains_iff l x = (mem_of_contains l x, contains_of_mem l x)

-- `BTreeSet::insert`, where the text is not there yet.
abbrev pub add : String → List String → List String
add x l = insert_sorted x l

pub contains-add :
    (x y : String) (l : List String) → contains (add x l) y ≡ (str_eq x y || contains l y)
unfolding contains insert_sorted
contains-add x y [] = ground arith
contains-add x y (z ∷ l) = ground (arith, contains-add x y l)

module _ {ℓ} {A : Type ℓ} where
  -- A test that fails on a list fails at an element.
  pub all-false : (p : A → Bool) (l : List A) → all p l ≡ false → (x : A) × Memᴰ x l × (p x ≡ false)
  all-false p [] h = absurd (ground arith)
  all-false p (x ∷ l) h = elim (Bool-cases (p x)) [
    | inl e ↦ let (y, m, q) = all-false p l (ground arith) in (y, Memᴰ.tail m, q)
    | inr e ↦ (x, Memᴰ.head refl, e)
  ]

  pub all-at : (p : A → Bool) (l : List A) (x : A) → all p l ≡ true → Memᴰ x l → p x ≡ true
  all-at p [] x h m = elim m [ ]
  all-at p (y ∷ l) x h (Memᴰ.head q) = ap p q ∙ ground arith
  all-at p (y ∷ l) x h (Memᴰ.tail m) = all-at p l x (ground arith) m
