-- ===== src/Prelude/Text.antt =====
-- Rust's `str`: the order of texts, suffixes, sorting.
use Prim.Native.Nat.{ℕ, Ordering, compare as compare_ℕ}
use Prim.Native.Char.{code}
use Prim.Native.String.{String, ◌++◌, compare, then}
use Prim.Native.String.compare
use mathlib.Core.Path.{◌≡◌, refl, sym, ap, ◌∙◌}
use mathlib.Core.Logic.{◌⊎◌, inl, inr}
use mathlib.Core.Bool.{Bool, true, false, ◌||◌}
use mathlib.Core.List.{List, [], ◌∷◌}
use native.Mathlib.Omega.{arith}
use text.Mathlib.Text.{◌==◌ as str_eq}
use text.Mathlib.TextPositions.{eq_refl}
use text.Mathlib.TextEquality.{eq_iff}
use fghj.Prelude.Tests.{Bool-cases}
use text.Mathlib.TextLemmas.{cons-append, nil-append}

abbrev pub flip : Ordering → Ordering
flip Ordering.lt = Ordering.gt
flip Ordering.eq = Ordering.eq
flip Ordering.gt = Ordering.lt

pub Ordering-cases : (o : Ordering) → (o ≡ Ordering.lt) ⊎ ((o ≡ Ordering.eq) ⊎ (o ≡ Ordering.gt))
Ordering-cases Ordering.lt = inl refl
Ordering-cases Ordering.eq = inr (inl refl)
Ordering-cases Ordering.gt = inr (inr refl)

then-flip : (a b : Ordering) → then (flip a) (flip b) ≡ flip (then a b)
then-flip Ordering.lt b = refl
then-flip Ordering.eq b = refl
then-flip Ordering.gt b = refl

compare_ℕ-flip : (a b : ℕ) → compare_ℕ b a ≡ flip (compare_ℕ a b)
compare_ℕ-flip a b = ground arith

pub compare-flip : (s t : String) → compare t s ≡ flip (compare s t)
compare-flip String.[] String.[] = refl
compare-flip String.[] (String.◌∷◌ d t) = cc (compare.cons-nil d t, compare.nil-cons d t)
compare-flip (String.◌∷◌ c s) String.[] = cc (compare.cons-nil c s, compare.nil-cons c s)
compare-flip (String.◌∷◌ c s) (String.◌∷◌ d t) =
    compare.cons-cons d c t s
    ∙ ap (λ o. then o (compare t s)) (compare_ℕ-flip (code c) (code d))
    ∙ ap (λ o. then (flip (compare_ℕ (code c) (code d))) o) (compare-flip s t)
    ∙ then-flip (compare_ℕ (code c) (code d)) (compare s t)
    ∙ ap flip (sym (compare.cons-cons c d s t))

-- `s < t`, in the order of the code points, which is that of the bytes.
abbrev pub str_lt : String → String → Bool
str_lt s t = elim (compare s t) [ Ordering.lt ↦ true | _ ↦ false ]

-- Rust's `ends_with`.
unfoldable pub ends_with : String → String → Bool
ends_with String.[] t = str_eq String.[] t
ends_with (String.◌∷◌ c s) t = str_eq (String.◌∷◌ c s) t || ends_with s t

pub ends_with-append : (s t : String) → ends_with (s ++ t) t ≡ true
unfolding ends_with
ends_with-append String.[] String.[] = refl
ends_with-append String.[] (String.◌∷◌ d t) =
    rw nil-append (ground (arith, eq_refl (String.◌∷◌ d t)))
ends_with-append (String.◌∷◌ c s) t = rw cons-append (ground (arith, ends_with-append s t))

-- A text ends with `t` exactly if it is some text followed by `t`.
pub split-ends_with : (s t : String) → ends_with s t ≡ true → (front : String) × (s ≡ front ++ t)
unfolding ends_with
split-ends_with String.[] t h = (String.[], (eq_iff String.[] t).0 h ∙ sym (nil-append t))
split-ends_with (String.◌∷◌ c s) t h = elim (Bool-cases (str_eq (String.◌∷◌ c s) t)) [
  | inl e ↦ (String.[], (eq_iff _ t).0 e ∙ sym (nil-append t))
  | inr e ↦
      let (front, p) = split-ends_with s t (ground arith) in
      (String.◌∷◌ c front, ap (String.◌∷◌ c) p ∙ sym (cons-append c front t))
]

pub str_lt_trans : (s t u : String) → str_lt s t ≡ true → str_lt t u ≡ true → str_lt s u ≡ true
str_lt_trans String.[] String.[] u p q = q
str_lt_trans String.[] (String.◌∷◌ d t) String.[] p q = ground (arith, compare.cons-nil d t)
str_lt_trans (String.◌∷◌ c s) String.[] u p q = ground (arith, compare.cons-nil c s)
str_lt_trans String.[] (String.◌∷◌ d t) (String.◌∷◌ e u) p q = ground (arith, compare.nil-cons e u)
str_lt_trans (String.◌∷◌ c s) (String.◌∷◌ d t) String.[] p q = ground (arith, compare.cons-nil d t)
str_lt_trans (String.◌∷◌ c s) (String.◌∷◌ d t) (String.◌∷◌ e u) p q = ground (
  arith,
  compare.cons-cons c d s t,
  compare.cons-cons d e t u,
  compare.cons-cons c e s u,
  str_lt_trans s t u,
)

-- Two texts in a row: `format!`, and `join` with a separator.
infixr 7 ◌+ₛ◌
abbrev pub ◌+ₛ◌ : String → String → String
s +ₛ t = s ++ t

abbrev pub join : String → List String → String
join sep [] = ""
join sep (s ∷ l) = s +ₛ joined l
  where
    joined : List String → String
    joined [] = ""
    joined (t ∷ k) = sep +ₛ (t +ₛ joined k)
