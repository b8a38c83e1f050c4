-- ===== src/Orchestrator/Order/Passes.antt =====
-- One pass of the loop, and all of them: nothing is lost, and the fuel suffices.
use mathlib.Core.List.{Permᴰ, append_assoc, append-nil}
use mathlib.Core.List.Permᴰ
use mathlib.Core.Path.{subst}
use fghj.Prelude.{
  ◌≤◌, ◌<◌, String, true, false, List, [], ◌∷◌, ◌++◌, ◌≡◌, refl, sym, ap, arith, length, Bool-cases,
  inl, inr, All,
}
use fghj.Orchestrator.Order.{ready, pass}

-- Every id stands behind all of its requirements.
module _ (requires : String → List String) where
  abbrev pub IsOrdered : List String → List String → Type 0
  IsOrdered seen [] = Unit
  IsOrdered seen (id ∷ rest) = (ready requires seen id ≡ true) × IsOrdered (seen ++ id ∷ []) rest

  IsOrdered-snoc :
      (seen ids : List String) (id : String)
      → IsOrdered seen ids
      → ready requires (seen ++ ids) id ≡ true
      → IsOrdered seen (ids ++ id ∷ [])
  IsOrdered-snoc seen [] id h r = (subst (λ l. ready requires l id ≡ true) (append-nil seen) r, tt)
  IsOrdered-snoc seen (x ∷ ids) id h r = (
    h.0,
    IsOrdered-snoc (seen ++ x ∷ []) ids id h.1
        (subst (λ l. ready requires l id ≡ true) (sym (append_assoc seen (x ∷ []) ids)) r),
  )

  pub pass-perm :
      (ordered remaining : List String)
      → let p = pass requires ordered remaining in
        Permᴰ (p.ordered ++ p.remaining) (ordered ++ remaining)
  unfolding pass
  pass-perm ordered [] = Permᴰ.refl _
  pass-perm ordered (id ∷ rest) = elim (Bool-cases (ready requires ordered id)) [
    | inl e ↦
        rw (e, pass)
          (subst (Permᴰ _) (append_assoc ordered (id ∷ []) rest)
            (pass-perm (ordered ++ id ∷ []) rest))
    | inr e ↦
        rw (e, pass)
          (Permᴰ.trans (Permᴰ.middle id (pass requires ordered rest).ordered _) (
            Permᴰ.trans (Permᴰ.cons refl (pass-perm ordered rest))
              (Permᴰ.symm (Permᴰ.middle id ordered rest))))
  ]

  pub pass-IsOrdered :
      (ordered remaining : List String)
      → IsOrdered [] ordered
      → IsOrdered [] (pass requires ordered remaining).ordered
  unfolding pass
  pass-IsOrdered ordered [] h = h
  pass-IsOrdered ordered (id ∷ rest) h = elim (Bool-cases (ready requires ordered id)) [
    | inl e ↦
        rw (e, pass) (pass-IsOrdered (ordered ++ id ∷ []) rest (IsOrdered-snoc [] ordered id h e))
    | inr e ↦ rw (e, pass) (pass-IsOrdered ordered rest h)
  ]

  pub length-pass :
      (ordered remaining : List String)
      → let p = pass requires ordered remaining in
        (length p.remaining ≤ length remaining)
        × (p.progressed ≡ true → length p.remaining < length remaining)
  unfolding pass
  length-pass ordered [] = (omega arith, λ e. cc)
  length-pass ordered (id ∷ rest) = elim (Bool-cases (ready requires ordered id)) [
    | inl e ↦
        let (le, lt) = length-pass (ordered ++ id ∷ []) rest in
        rw (e, pass) (omega arith, λ _. omega arith)
    | inr e ↦
        let (le, lt) = length-pass ordered rest in
        rw (e, pass) (omega arith, λ g. let k = lt g in omega arith)
  ]

  -- A pass without progress has changed nothing, and nothing is ready.
  pub pass_stuck :
      (ordered remaining : List String)
      → let p = pass requires ordered remaining in
        p.progressed ≡ false
        → (p.ordered ≡ ordered)
          × (p.remaining ≡ remaining)
          × All (λ id. ready requires ordered id ≡ false) remaining
  unfolding pass
  pass_stuck ordered [] h = (refl, refl, tt)
  pass_stuck ordered (id ∷ rest) h = elim (Bool-cases (ready requires ordered id)) [
    | inl e ↦ absurd (ground arith)
    | inr e ↦
        let (o, r, stuck) = pass_stuck ordered rest (ground arith) in
        rw (e, pass) (o, ap (◌∷◌ id) r, (refl, stuck))
  ]
