-- ===== src/Prelude/BTreeMap.antt =====
-- Rust's `BTreeMap<String, V>`: an association list in the order of the keys.
use Prim.Native.Nat.{Ordering}
use Prim.Native.String.{String, compare}
use mathlib.Core.Path.{◌≡◌, refl, sym, subst}
use mathlib.Core.Logic.{inl, inr}
use mathlib.Core.Bool.{Bool, true}
use mathlib.Core.Option
use mathlib.Core.Option.{Option, none, some}
use mathlib.Core.List.{List, [], ◌∷◌, map}
use native.Mathlib.Omega.{arith}
use text.Mathlib.Text.{◌==◌ as str_eq}
use text.Mathlib.TextEquality.{eq_iff, path_by_compare}
use text.Mathlib.TextPositions.{compare_refl}
use fghj.Prelude.Tests.{Bool-cases, if◌then◌else◌}
use fghj.Prelude.Text.{compare-flip, Ordering-cases, str_lt, str_lt_trans}

abbrev pub BTreeMap {ℓ} : Type ℓ → Type ℓ
BTreeMap V = List (String × V)

module _ {ℓ} {V : Type ℓ} where
  unfoldable pub get : String → BTreeMap V → Option V
  get k [] = none
  get k ((j, v) ∷ m) = if str_eq j k then some v else get k m

  unfoldable pub insert : String → V → BTreeMap V → BTreeMap V
  insert k v [] = (k, v) ∷ []
  insert k v ((j, w) ∷ m) =
      let rest = insert k v m in
      elim (compare k j) [
        | Ordering.lt ↦ (k, v) ∷ (j, w) ∷ m
        | Ordering.eq ↦ (k, v) ∷ m
        | Ordering.gt ↦ (j, w) ∷ rest
      ]

  unfoldable pub remove : String → BTreeMap V → BTreeMap V
  remove k [] = []
  remove k ((j, v) ∷ m) = let rest = remove k m in if str_eq j k then rest else (j, v) ∷ rest

  unfoldable pub retain : (V → Bool) → BTreeMap V → BTreeMap V
  retain p [] = []
  retain p ((j, v) ∷ m) = let rest = retain p m in if p v then (j, v) ∷ rest else rest

  unfoldable pub values : BTreeMap V → List V
  values = map (λ e. e.1)

  unfoldable pub keys : BTreeMap V → List String
  keys = map (λ e. e.0)

  pub get-nil : (k : String) → get k [] ≡ none
  unfolding get
  get-nil k = refl

  pub get-insert :
      (k j : String) (v : V) (m : BTreeMap V)
      → get j (insert k v m) ≡ (if str_eq k j then some v else get j m)
  unfolding get insert
  get-insert k j v [] = refl
  get-insert k j v ((i, w) ∷ m) =
      ground (arith, eq_iff k j, eq_iff i k, eq_iff i j, get-insert k j v m, compare-flip k i)

  pub get-remove :
      (k j : String) (m : BTreeMap V) → get j (remove k m) ≡ (if str_eq k j then none else get j m)
  unfolding get remove
  get-remove k j [] = ground arith
  get-remove k j ((i, w) ∷ m) = ground (arith, eq_iff k j, eq_iff i k, eq_iff i j, get-remove k j m)

  -- What is kept satisfies the test, and what satisfies the test is kept.
  pub get-retain-holds :
      (p : V → Bool) (k : String) (m : BTreeMap V) (v : V)
      → get k (retain p m) ≡ some v
      → p v ≡ true
  unfolding get retain
  get-retain-holds p k [] v h = ground arith
  get-retain-holds p k ((i, w) ∷ m) v h = ground (arith, get-retain-holds p k m v)

  pub get-retain-keeps :
      (p : V → Bool) (k : String) (m : BTreeMap V) (v : V)
      → get k m ≡ some v
      → p v ≡ true
      → get k (retain p m) ≡ some v
  unfolding get retain
  get-retain-keeps p k [] v h q = ground arith
  get-retain-keeps p k ((i, w) ∷ m) v h q = ground (arith, get-retain-keeps p k m v)

  -- The keys are in strictly ascending order: each is below the next.
  abbrev pub IsAbove : String → BTreeMap V → Type 0
  IsAbove k [] = Unit
  IsAbove k ((j, v) ∷ m) = str_lt k j ≡ true

  abbrev pub IsSorted : BTreeMap V → Type 0
  IsSorted [] = Unit
  IsSorted ((k, v) ∷ m) = IsAbove k m × IsSorted m

  IsAbove-insert :
      (i k : String) (v : V) (m : BTreeMap V)
      → str_lt i k ≡ true
      → IsAbove i m
      → IsAbove i (insert k v m)
  unfolding insert
  IsAbove-insert i k v [] h a = h
  IsAbove-insert i k v ((j, w) ∷ m) h a = elim (Ordering-cases (compare k j)) [
    | inl e ↦ rw (e, insert) h
    | inr (inl e) ↦ rw (e, insert) h
    | inr (inr e) ↦ rw (e, insert) a
  ]

  pub insert-IsSorted : (k : String) (v : V) (m : BTreeMap V) → IsSorted m → IsSorted (insert k v m)
  unfolding insert
  insert-IsSorted k v [] h = (tt, tt)
  insert-IsSorted k v ((j, w) ∷ m) h = elim (Ordering-cases (compare k j)) [
    | inl e ↦ rw (e, insert) (ground arith, h)
    | inr (inl e) ↦ rw (e, insert) (subst (λ i. IsAbove i m) (sym (path_by_compare k j e)) h.0, h.1)
    | inr (inr e) ↦
        rw (e, insert)
          (IsAbove-insert j k v m (ground (arith, compare-flip k j)) h.0, insert-IsSorted k v m h.1)
  ]

  IsAbove-trans : (i k : String) (m : BTreeMap V) → str_lt i k ≡ true → IsAbove k m → IsAbove i m
  IsAbove-trans i k [] h a = tt
  IsAbove-trans i k ((j, v) ∷ m) h a = str_lt_trans i k j h a

  IsAbove-remove :
      (i k : String) (m : BTreeMap V) → IsAbove i m → IsSorted m → IsAbove i (remove k m)
  unfolding remove
  IsAbove-remove i k [] a h = tt
  IsAbove-remove i k ((j, v) ∷ m) a h = elim (Bool-cases (str_eq j k)) [
    | inl e ↦ rw (e, remove) (IsAbove-remove i k m (IsAbove-trans i j m a h.0) h.1)
    | inr e ↦ rw (e, remove) a
  ]

  pub remove-IsSorted : (k : String) (m : BTreeMap V) → IsSorted m → IsSorted (remove k m)
  unfolding remove
  remove-IsSorted k [] h = tt
  remove-IsSorted k ((j, v) ∷ m) h = elim (Bool-cases (str_eq j k)) [
    | inl e ↦ rw (e, remove) (remove-IsSorted k m h.1)
    | inr e ↦ rw (e, remove) (IsAbove-remove j k m h.0 h.1, remove-IsSorted k m h.1)
  ]

  IsAbove-retain :
      (p : V → Bool) (i : String) (m : BTreeMap V)
      → IsAbove i m
      → IsSorted m
      → IsAbove i (retain p m)
  unfolding retain
  IsAbove-retain p i [] a h = tt
  IsAbove-retain p i ((j, v) ∷ m) a h = elim (Bool-cases (p v)) [
    | inl e ↦ rw (e, retain) a
    | inr e ↦ rw (e, retain) (IsAbove-retain p i m (IsAbove-trans i j m a h.0) h.1)
  ]

  pub retain-IsSorted : (p : V → Bool) (m : BTreeMap V) → IsSorted m → IsSorted (retain p m)
  unfolding retain
  retain-IsSorted p [] h = tt
  retain-IsSorted p ((j, v) ∷ m) h = elim (Bool-cases (p v)) [
    | inl e ↦ rw (e, retain) (IsAbove-retain p j m h.0 h.1, retain-IsSorted p m h.1)
    | inr e ↦ rw (e, retain) (retain-IsSorted p m h.1)
  ]

  -- A key below the first is not there.
  pub get_of_IsAbove : (k : String) (m : BTreeMap V) → IsAbove k m → IsSorted m → get k m ≡ none
  unfolding get
  get_of_IsAbove k [] a h = refl
  get_of_IsAbove k ((j, v) ∷ m) a h =
      ground (arith, eq_iff j k, get_of_IsAbove k m (IsAbove-trans k j m a h.0) h.1, compare_refl k)

  -- In a sorted map a kept entry was the entry.
  pub get-retain_of :
      (p : V → Bool) (k : String) (m : BTreeMap V) (v : V)
      → IsSorted m
      → get k (retain p m) ≡ some v
      → get k m ≡ some v
  unfolding get retain
  get-retain_of p k [] v s h = h
  get-retain_of p k ((j, w) ∷ m) v s h =
      ground (arith, get-retain_of p k m v s.1, eq_iff j k, get_of_IsAbove j m s.0 s.1)

module _ {ℓ κ} {V : Type ℓ} {W : Type κ} where
  unfoldable pub map_values : (V → W) → BTreeMap V → BTreeMap W
  map_values f [] = []
  map_values f ((k, v) ∷ m) = (k, f v) ∷ map_values f m

  pub get-map_values :
      (f : V → W) (k : String) (m : BTreeMap V) → get k (map_values f m) ≡ Option.map f (get k m)
  unfolding get map_values
  get-map_values f k [] = refl
  get-map_values f k ((j, v) ∷ m) = ground (arith, get-map_values f k m)

  IsAbove-map_values :
      (f : V → W) (i : String) (m : BTreeMap V) → IsAbove i m → IsAbove i (map_values f m)
  unfolding map_values
  IsAbove-map_values f i [] a = tt
  IsAbove-map_values f i ((j, v) ∷ m) a = a

  pub map_values-IsSorted : (f : V → W) (m : BTreeMap V) → IsSorted m → IsSorted (map_values f m)
  unfolding map_values
  map_values-IsSorted f [] h = tt
  map_values-IsSorted f ((j, v) ∷ m) h = (IsAbove-map_values f j m h.0, map_values-IsSorted f m h.1)

pub ruleset map_laws = (get-nil, get-insert, get-remove, get-map_values)
