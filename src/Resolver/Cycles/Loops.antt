-- ===== src/Resolver/Cycles/Loops.antt =====
-- src/resolver/cycles.rs: chains and loops of a relation on nodes, and the part of a stack that is a
-- loop.
use mathlib.Core.Path.{subst}
use fghj.Prelude.{
  String, true, List, [], ◌∷◌, ◌++◌, ◌≡◌, refl, sym, inl, inr, arith, Bool-cases, str_eq, eq_iff,
}
use fghj.Prelude.Sets.{contains}
use fghj.Resolver.Cycles.{from, pop, first}

module _ (R : String → String → Type 0) where
  -- A path of one step or more.
  pub data Leads : String → String → Type 0 where
    one : {x y : String} → R x y → Leads x y
    more : {x y z : String} → R x y → Leads y z → Leads x z

  -- Each node of the list leads to the next by one step.
  abbrev pub IsChain : List String → Type 0
  IsChain [] = Unit
  IsChain (x ∷ []) = Unit
  IsChain (x ∷ y ∷ l) = R x y × IsChain (y ∷ l)

  -- A nonempty list whose last node leads back to its first.
  abbrev pub IsLoop : List String → Type 0
  IsLoop [] = ⊥
  IsLoop (x ∷ l) = IsChain (x ∷ l ++ x ∷ [])

  pub extend :
      (l : List String) (x y : String)
      → IsChain (l ++ x ∷ [])
      → R x y
      → IsChain ((l ++ x ∷ []) ++ y ∷ [])
  extend [] x y c r = (r, tt)
  extend (z ∷ []) x y c r = (c.0, (r, tt))
  extend (z ∷ w ∷ l) x y c r = (c.0, extend (w ∷ l) x y c.1 r)

  shorter : (x : String) (l : List String) → IsChain (x ∷ l) → IsChain l
  shorter x [] c = tt
  shorter x (y ∷ l) c = c.1

  pub from-IsLoop :
      (x : String) (stack : List String)
      → contains stack x ≡ true
      → IsChain (stack ++ x ∷ [])
      → IsLoop (from x stack)
  unfolding contains from
  from-IsLoop x [] h c = absurd (ground arith)
  from-IsLoop x (y ∷ l) h c = elim (Bool-cases (str_eq y x)) [
    | inl e ↦ rw (e, from) (subst (λ z. IsChain (y ∷ l ++ z ∷ [])) (sym ((eq_iff y x).0 e)) c)
    | inr e ↦ rw (e, from) (from-IsLoop x l (ground arith) (shorter y (l ++ x ∷ []) c))
  ]

  leads_of_chain :
      (x : String) (l : List String) (y : String) → IsChain (x ∷ l ++ y ∷ []) → Leads x y
  leads_of_chain x [] y c = Leads.one c.0
  leads_of_chain x (z ∷ l) y c = Leads.more c.0 (leads_of_chain z l y c.1)

  pub leads_of_loop : (c : List String) → IsLoop c → Leads (first c) (first c)
  leads_of_loop [] h = absurd h
  leads_of_loop (x ∷ l) h = leads_of_chain x l x h

module _ (R S : String → String → Type 0) (f : (x y : String) → R x y → S x y) where
  pub map-Leads : (x y : String) → Leads R x y → Leads S x y
  map-Leads x y (Leads.one r) = Leads.one (f x y r)
  map-Leads x z (Leads.more {y} r l) = Leads.more (f x y r) (map-Leads y z l)

  map-IsChain : (l : List String) → IsChain R l → IsChain S l
  map-IsChain [] c = tt
  map-IsChain (x ∷ []) c = tt
  map-IsChain (x ∷ y ∷ l) c = (f x y c.0, map-IsChain (y ∷ l) c.1)

  pub map-IsLoop : (c : List String) → IsLoop R c → IsLoop S c
  map-IsLoop [] h = h
  map-IsLoop (x ∷ l) h = map-IsChain (x ∷ l ++ x ∷ []) h

pub pop-append : (l : List String) (x : String) → pop (l ++ x ∷ []) ≡ l
unfolding pop
pop-append [] x = refl
pop-append (y ∷ []) x = refl
pop-append (y ∷ z ∷ l) x = λ i. y ∷ pop-append (z ∷ l) x i
