-- ===== src/Prelude/Equality.antt =====
-- Rust's `PartialEq`: an interface with its law, and the instances that the program derives.
use Prim.Native.Nat.{ℕ}
use Prim.Native.String.{String}
use mathlib.Core.Path.{◌≡◌, refl}
use mathlib.Core.Logic.{◌↔◌}
use mathlib.Core.Bool.{Bool, true, false, ◌&&◌}
use mathlib.Core.Option.{Option, none, some}
use mathlib.Core.List.{List, [], ◌∷◌}
use native.Mathlib.Omega.{arith}
use text.Mathlib.Text.{◌==◌ as str_eq}
use text.Mathlib.TextEquality.{eq_iff}
use fghj.Prelude.Tests.{nat_eq, nat_eq_iff}
use fghj.Prelude.Int.{ℤ, int_eq, int_eq_iff}

pub record PartialEq {κ} (T : Type κ) : Type κ where
  -- Rust's `eq`, and that it decides whether two values are one.
  pub agrees : T → T → Bool
  pub agrees_iff : (left right : T) → (agrees left right ≡ true) ↔ (left ≡ right)

infix 50 ◌==◌
abbrev pub ◌==◌ {κ} : {T : Type κ} → ⦃eq : PartialEq T⦄ → T → T → Bool
◌==◌ ⦃eq⦄ left right = eq.agrees left right

-- The law, at the instance that the two values' type has.
pub equal_iff {ℓ} : {A : Type ℓ} ⦃e : PartialEq A⦄ (a b : A) → ((a == b) ≡ true) ↔ (a ≡ b)
equal_iff ⦃e⦄ a b = e.agrees_iff a b

instance abbrev pub eq_ℕ : PartialEq ℕ
eq_ℕ = record { agrees = nat_eq; agrees_iff = nat_eq_iff }

instance abbrev pub eq_String : PartialEq String
eq_String = record { agrees = str_eq; agrees_iff = eq_iff }

instance abbrev pub eq_ℤ : PartialEq ℤ
eq_ℤ = record { agrees = int_eq; agrees_iff = int_eq_iff }

abbrev bool_eq : Bool → Bool → Bool
bool_eq true true = true
bool_eq false false = true
bool_eq true false = false
bool_eq false true = false

pub bool_eq_iff : (a b : Bool) → (bool_eq a b ≡ true) ↔ (a ≡ b)
bool_eq_iff a b = ground arith

instance abbrev pub eq_Bool : PartialEq Bool
eq_Bool = record { agrees = bool_eq; agrees_iff = bool_eq_iff }

module _ {ℓ} {A : Type ℓ} ⦃e : PartialEq A⦄ where
  abbrev option_eq : Option A → Option A → Bool
  option_eq none none = true
  option_eq none (some b) = false
  option_eq (some a) none = false
  option_eq (some a) (some b) = e.agrees a b

  pub option_eq_iff : (a b : Option A) → (option_eq a b ≡ true) ↔ (a ≡ b)
  option_eq_iff none none = (λ _. refl, λ _. refl)
  option_eq_iff none (some b) = ground arith
  option_eq_iff (some a) none = ground arith
  option_eq_iff (some a) (some b) = ground (arith, e.agrees_iff a b)

  instance abbrev pub eq_Option : PartialEq (Option A)
  eq_Option = record { agrees = option_eq; agrees_iff = option_eq_iff }

  abbrev list_eq : List A → List A → Bool
  list_eq [] [] = true
  list_eq [] (y ∷ ys) = false
  list_eq (x ∷ xs) [] = false
  list_eq (x ∷ xs) (y ∷ ys) = e.agrees x y && list_eq xs ys

  pub list_eq_iff : (xs ys : List A) → (list_eq xs ys ≡ true) ↔ (xs ≡ ys)
  list_eq_iff [] [] = (λ _. refl, λ _. refl)
  list_eq_iff [] (y ∷ ys) = ground arith
  list_eq_iff (x ∷ xs) [] = ground arith
  list_eq_iff (x ∷ xs) (y ∷ ys) = ground (arith, e.agrees_iff x y, list_eq_iff xs ys)

  instance abbrev pub eq_List : PartialEq (List A)
  eq_List = record { agrees = list_eq; agrees_iff = list_eq_iff }

module _ {ℓ} {A B : Type ℓ} ⦃e : PartialEq A⦄ ⦃f : PartialEq B⦄ where
  abbrev pair_eq : A × B → A × B → Bool
  pair_eq (a, b) (c, d) = e.agrees a c && f.agrees b d

  pub pair_eq_iff : (p q : A × B) → (pair_eq p q ≡ true) ↔ (p ≡ q)
  pair_eq_iff (a, b) (c, d) = ground (arith, e.agrees_iff a c, f.agrees_iff b d)

  instance abbrev pub eq_pair : PartialEq (A × B)
  eq_pair = record { agrees = pair_eq; agrees_iff = pair_eq_iff }
