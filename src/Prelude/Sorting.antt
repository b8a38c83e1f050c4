-- ===== src/Prelude/Sorting.antt =====
-- `sort_unstable` and `dedup` of Rust's `Vec<String>`. Texts that compare as equal are equal, so an
-- unstable sort and this one give the same list.
use Prim.Native.Nat.{suc, Ordering}
use Prim.Native.String.{String, compare}
use mathlib.Core.Path.{◌≡◌, refl, ap, ◌∙◌, subst}
use mathlib.Core.Logic.{inl, inr}
use mathlib.Core.Bool.{Bool, true, false}
use mathlib.Core.List.{List, [], ◌∷◌, Memᴰ, Permᴰ}
use mathlib.Core.List.Permᴰ
use native.Mathlib.Omega.{arith}
use text.Mathlib.Text.{◌==◌ as str_eq}
use text.Mathlib.TextEquality.{eq_iff}
use fghj.Prelude.Lists.{length}
use fghj.Prelude.Tests.{Bool-cases, if◌then◌else◌}
use fghj.Prelude.Text.{compare-flip, str_lt}

-- `a ≤ b`.
abbrev pub str_le : String → String → Bool
str_le a b = elim (compare a b) [ Ordering.gt ↦ false | _ ↦ true ]

unfoldable pub insert_sorted : String → List String → List String
insert_sorted a [] = a ∷ []
insert_sorted a (b ∷ l) = let rest = insert_sorted a l in if str_le a b then a ∷ b ∷ l else b ∷ rest

unfoldable pub sort : List String → List String
unfolding insert_sorted
sort [] = []
sort (a ∷ l) = insert_sorted a (sort l)

-- Drops an element that is equal to the one before it.
unfoldable pub dedup : List String → List String
dedup [] = []
dedup (a ∷ []) = a ∷ []
dedup (a ∷ b ∷ l) = let rest = dedup (b ∷ l) in if str_eq a b then rest else a ∷ rest

-- Each element is not above, or is strictly below, the next.
abbrev IsBelow : String → List String → Type 0
IsBelow a [] = Unit
IsBelow a (b ∷ l) = str_le a b ≡ true

abbrev pub IsAscending : List String → Type 0
IsAscending [] = Unit
IsAscending (a ∷ l) = IsBelow a l × IsAscending l

abbrev IsStrictlyBelow : String → List String → Type 0
IsStrictlyBelow a [] = Unit
IsStrictlyBelow a (b ∷ l) = str_lt a b ≡ true

abbrev pub IsStrict : List String → Type 0
IsStrict [] = Unit
IsStrict (a ∷ l) = IsStrictlyBelow a l × IsStrict l

insert_sorted-perm : (a : String) (l : List String) → Permᴰ (insert_sorted a l) (a ∷ l)
unfolding insert_sorted
insert_sorted-perm a [] = Permᴰ.refl (a ∷ [])
insert_sorted-perm a (b ∷ l) = elim (Bool-cases (str_le a b)) [
  | inl e ↦ rw (e, insert_sorted) (Permᴰ.refl (a ∷ b ∷ l))
  | inr e ↦
      rw (e, insert_sorted)
        (Permᴰ.trans (Permᴰ.cons refl (insert_sorted-perm a l)) (Permᴰ.swap refl refl))
]

pub sort-perm : (l : List String) → Permᴰ (sort l) l
unfolding sort
sort-perm [] = Permᴰ.nil
sort-perm (a ∷ l) = Permᴰ.trans (insert_sorted-perm a (sort l)) (Permᴰ.cons refl (sort-perm l))

IsBelow-insert :
    (b a : String) (l : List String)
    → str_le b a ≡ true
    → IsBelow b l
    → IsBelow b (insert_sorted a l)
unfolding insert_sorted
IsBelow-insert b a [] h k = h
IsBelow-insert b a (c ∷ l) h k = elim (Bool-cases (str_le a c)) [
  | inl e ↦ rw (e, insert_sorted) h
  | inr e ↦ rw (e, insert_sorted) k
]

insert_sorted-IsAscending :
    (a : String) (l : List String) → IsAscending l → IsAscending (insert_sorted a l)
unfolding insert_sorted
insert_sorted-IsAscending a [] h = (tt, tt)
insert_sorted-IsAscending a (b ∷ l) h = elim (Bool-cases (str_le a b)) [
  | inl e ↦ rw (e, insert_sorted) (e, h)
  | inr e ↦
      rw (e, insert_sorted)
        (
          IsBelow-insert b a l (ground (arith, compare-flip a b)) h.0,
          insert_sorted-IsAscending a l h.1,
        )
]

pub sort-IsAscending : (l : List String) → IsAscending (sort l)
unfolding sort
sort-IsAscending [] = tt
sort-IsAscending (a ∷ l) = insert_sorted-IsAscending a (sort l) (sort-IsAscending l)

dedup-head :
    (a b : String) (l : List String) → str_lt a b ≡ true → IsStrictlyBelow a (dedup (b ∷ l))
unfolding dedup
dedup-head a b [] h = h
dedup-head a b (c ∷ l) h = elim (Bool-cases (str_eq b c)) [
  | inl e ↦ rw (e, dedup) (dedup-head a c l (subst (λ x. str_lt a x ≡ true) ((eq_iff b c).0 e) h))
  | inr e ↦ rw (e, dedup) h
]

pub dedup-IsStrict : (l : List String) → IsAscending l → IsStrict (dedup l)
unfolding dedup
dedup-IsStrict [] h = tt
dedup-IsStrict (a ∷ []) h = (tt, tt)
dedup-IsStrict (a ∷ b ∷ l) h = elim (Bool-cases (str_eq a b)) [
  | inl e ↦ rw (e, dedup) (dedup-IsStrict (b ∷ l) h.1)
  | inr e ↦ rw (e, dedup) (dedup-head a b l (ground arith), dedup-IsStrict (b ∷ l) h.1)
]

-- `dedup` keeps every value that occurs, and adds none.
pub mem-dedup : (x : String) (l : List String) → Memᴰ x l → Memᴰ x (dedup l)
unfolding dedup
mem-dedup x [] m = m
mem-dedup x (a ∷ []) m = m
mem-dedup x (a ∷ b ∷ l) (Memᴰ.head p) = elim (Bool-cases (str_eq a b)) [
  | inl e ↦ rw (e, dedup) (mem-dedup x (b ∷ l) (Memᴰ.head (p ∙ (eq_iff a b).0 e)))
  | inr e ↦ rw (e, dedup) (Memᴰ.head p)
]
mem-dedup x (a ∷ b ∷ l) (Memᴰ.tail m) = elim (Bool-cases (str_eq a b)) [
  | inl e ↦ rw (e, dedup) (mem-dedup x (b ∷ l) m)
  | inr e ↦ rw (e, dedup) (Memᴰ.tail (mem-dedup x (b ∷ l) m))
]

pub mem_of_mem-dedup : (x : String) (l : List String) → Memᴰ x (dedup l) → Memᴰ x l
unfolding dedup
mem_of_mem-dedup x [] m = m
mem_of_mem-dedup x (a ∷ []) m = m
mem_of_mem-dedup x (a ∷ b ∷ l) m = elim (Bool-cases (str_eq a b)) [
  | inl e ↦ Memᴰ.tail (mem_of_mem-dedup x (b ∷ l) (rw (e, dedup) at m))
  | inr e ↦ under (rw (e, dedup) at m) (mem_of_mem-dedup x (b ∷ l))
]
  where
    under :
        Memᴰ x (a ∷ dedup (b ∷ l)) → (Memᴰ x (dedup (b ∷ l)) → Memᴰ x (b ∷ l)) → Memᴰ x (a ∷ b ∷ l)
    under (Memᴰ.head p) ih = Memᴰ.head p
    under (Memᴰ.tail k) ih = Memᴰ.tail (ih k)

module _ {ℓ} {A : Type ℓ} where
  pub length_of_perm : {l k : List A} → Permᴰ l k → length l ≡ length k
  length_of_perm Permᴰ.nil = refl
  length_of_perm (Permᴰ.cons e p) = ap suc (length_of_perm p)
  length_of_perm (Permᴰ.swap e f) = refl
  length_of_perm (Permᴰ.trans p q) = length_of_perm p ∙ length_of_perm q

  pub mem_of_perm : (x : A) {l k : List A} → Permᴰ l k → Memᴰ x l → Memᴰ x k
  mem_of_perm x Permᴰ.nil m = m
  mem_of_perm x (Permᴰ.cons e p) (Memᴰ.head q) = Memᴰ.head (q ∙ e)
  mem_of_perm x (Permᴰ.cons e p) (Memᴰ.tail m) = Memᴰ.tail (mem_of_perm x p m)
  mem_of_perm x (Permᴰ.swap e f) (Memᴰ.head q) = Memᴰ.tail (Memᴰ.head (q ∙ e))
  mem_of_perm x (Permᴰ.swap e f) (Memᴰ.tail (Memᴰ.head q)) = Memᴰ.head (q ∙ f)
  mem_of_perm x (Permᴰ.swap e f) (Memᴰ.tail (Memᴰ.tail m)) = Memᴰ.tail (Memᴰ.tail m)
  mem_of_perm x (Permᴰ.trans p q) m = mem_of_perm x q (mem_of_perm x p m)

pub mem_of_mem-sort : (x : String) (l : List String) → Memᴰ x (sort l) → Memᴰ x l
mem_of_mem-sort x l m = mem_of_perm x (sort-perm l) m

pub mem-sort : (x : String) (l : List String) → Memᴰ x l → Memᴰ x (sort l)
mem-sort x l m = mem_of_perm x (Permᴰ.symm (sort-perm l)) m
