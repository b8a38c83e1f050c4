-- ===== src/Daemon/Heal/Picked.antt =====
-- src/daemon/heal.rs: which node is picked.
use mathlib.Core.List.{Memᴰ}
use mathlib.Core.Path.{subst}
use fghj.Prelude.{
  ℕ, ◌+◌, String, Bool, true, false, Option, none, some, List, [], ◌∷◌, ◌≡◌, ◌⊎◌, refl, sym, inl,
  inr, arith, Bool-cases, Option-cases, ltb, if◌then◌else◌,
}
use fghj.Prelude.Search.{mem_of_mem-filter, mem-filter}
use fghj.State.Container.{NodeCondition}
use fghj.State.Workspace.{EnvState}
use fghj.Daemon.Heal.{
  Tries, TriesMap, Heal, restart, give_up, max_attempts, eligible, is_before, last_tried, least_by,
  min_by_key, candidates, down_nodes, busy, retain_tries, attempt, or_insert, choose, pick,
}

after_later :
    (a b c : Option ℕ) → is_before a b ≡ true → is_before a c ≡ false → is_before b c ≡ false
after_later none none none h k = ground arith
after_later none none (some c) h k = ground arith
after_later none (some b) none h k = ground arith
after_later none (some b) (some c) h k = ground arith
after_later (some a) none none h k = ground arith
after_later (some a) none (some c) h k = ground arith
after_later (some a) (some b) none h k = ground arith
after_later (some a) (some b) (some c) h k = ground arith

after_trans :
    (a b c : Option ℕ) → is_before a b ≡ false → is_before b c ≡ false → is_before a c ≡ false
after_trans none none none h k = ground arith
after_trans none none (some c) h k = ground arith
after_trans none (some b) none h k = ground arith
after_trans none (some b) (some c) h k = ground arith
after_trans (some a) none none h k = ground arith
after_trans (some a) none (some c) h k = ground arith
after_trans (some a) (some b) none h k = ground arith
after_trans (some a) (some b) (some c) h k = ground arith

is_before_irrefl : (a : Option ℕ) → is_before a a ≡ false
is_before_irrefl none = refl
is_before_irrefl (some a) = ground arith

module _ {A : Type 0} (key : A → Option ℕ) where
  -- A member of the list that no member comes before.
  abbrev pub IsLeast : A → List A → Type 0
  IsLeast x l = Memᴰ x l × ((y : A) → Memᴰ y l → is_before (key y) (key x) ≡ false)

  least_by_lem : (best : A) (l : List A) → IsLeast (least_by key best l) (best ∷ l)
  unfolding least_by
  least_by_lem best [] = (
    Memᴰ.head refl,
    λ y m. elim m [
      | Memᴰ.head q ↦
          subst (λ z. is_before (key z) (key best) ≡ false) (sym q) (is_before_irrefl (key best))
      | Memᴰ.tail k ↦ elim k [ ]
    ],
  )
  least_by_lem best (x ∷ l) = elim (Bool-cases (is_before (key x) (key best))) [
    | inl e ↦
        let (m, least) = least_by_lem x l in
        let r = least_by key x l in
        rw (e, least_by)
          (
            Memᴰ.tail m,
            λ y k. elim k [
              | Memᴰ.head q ↦
                  subst (λ z. is_before (key z) (key r) ≡ false) (sym q)
                    (after_later (key x) (key best) (key r) e (least x (Memᴰ.head refl)))
              | Memᴰ.tail j ↦ least y j
            ],
          )
    | inr e ↦
        let (m, least) = least_by_lem best l in
        let r = least_by key best l in
        rw (e, least_by)
          (
            under m,
            λ y k. elim k [
              | Memᴰ.head q ↦ least y (Memᴰ.head q)
              | Memᴰ.tail (Memᴰ.head q) ↦
                  subst (λ z. is_before (key z) (key r) ≡ false) (sym q)
                    (after_trans (key x) (key best) (key r) e (least best (Memᴰ.head refl)))
              | Memᴰ.tail (Memᴰ.tail j) ↦ least y (Memᴰ.tail j)
            ],
          )
  ]
    where
      under : {r : A} → Memᴰ r (best ∷ l) → Memᴰ r (best ∷ x ∷ l)
      under (Memᴰ.head q) = Memᴰ.head q
      under (Memᴰ.tail k) = Memᴰ.tail (Memᴰ.tail k)

  pub min_by_key_lem :
      (l : List A)
      → ((min_by_key key l ≡ none) × (l ≡ []))
        ⊎ ((x : A) × (min_by_key key l ≡ some x) × IsLeast x l)
  unfolding min_by_key
  min_by_key_lem [] = inl (refl, refl)
  min_by_key_lem (x ∷ l) = inr (least_by key x l, refl, least_by_lem x l)

-- The node that is started again or given up.
abbrev pub node_of : Heal → String
node_of (restart n c attempt) = n
node_of (give_up n) = n

-- The number of a restart, when there is one.
abbrev pub number_of : Heal → Option ℕ
number_of (restart n c attempt) = some attempt
number_of (give_up n) = none

abbrev pub so_far : Option Tries → ℕ
so_far none = 0
so_far (some t) = t.count

-- What is in flight, or the lack of a node that may be tried, is why nothing is done.
abbrev pub Idles : EnvState → (String → Bool) → Type 0
Idles env may_try =
    (busy env ≡ true)
    ⊎ ((e : String × NodeCondition) → Memᴰ e (down_nodes env) → may_try e.0 ≡ false)

-- A node that is down, that may be tried, and that was tried the longest ago of all such nodes. It is
-- restarted, under the next number, up to the eighth time, and given up afterwards.
abbrev pub Acts : EnvState → (String → Bool) → (String → Option Tries) → Heal → Type 0
Acts env may_try entry heal =
    (e : String × NodeCondition) × (busy env ≡ false)
    × Memᴰ e (down_nodes env)
    × (may_try e.0 ≡ true)
    × ((d : String × NodeCondition)
        → Memᴰ d (down_nodes env)
        → may_try d.0 ≡ true
        → is_before (last_tried (entry d.0)) (last_tried (entry e.0)) ≡ false)
    × (node_of heal ≡ e.0)
    × (number_of heal
        ≡ (if ltb (so_far (entry e.0)) max_attempts then some (so_far (entry e.0) + 1) else none))

module _ (ws : String) (env : EnvState) (now : ℕ) (m : TriesMap) where
  abbrev kept : String → Option Tries
  kept node = retain_tries ws env now m ws node

  abbrev may_try : String → Bool
  may_try node = eligible now (kept node)

  attempt-number :
      (e : String × NodeCondition)
      → (node_of (attempt ws now e (retain_tries ws env now m)).0 ≡ e.0)
        × (number_of (attempt ws now e (retain_tries ws env now m)).0
            ≡ (if ltb (so_far (kept e.0)) max_attempts then some (so_far (kept e.0) + 1) else none))
  unfolding attempt or_insert
  attempt-number e = elim (Option-cases (kept e.0)) [
    | inl f ↦ ground arith
    | inr (t, f) ↦ ground arith
  ]

  idle :
      (d : String × NodeCondition)
      → Memᴰ d (down_nodes env)
      → candidates ws env now (retain_tries ws env now m) ≡ []
      → may_try d.0 ≡ false
  unfolding candidates
  idle d k nobody = elim (Bool-cases (may_try d.0)) [
    | inr f ↦ f
    | inl f ↦
        elim (subst (Memᴰ d) nobody
          (mem-filter (λ (y : String × NodeCondition). may_try y.0) (down_nodes env) d k f)) [ ]
  ]

  -- `pick` does nothing just when something is in flight or no node that is down may be tried; else
  -- it takes, of the nodes that are down and may be tried, the one tried the longest ago.
  pub pick_cases :
      (((pick ws env now m).0 ≡ none) × Idles env may_try)
      ⊎ ((heal : Heal) × ((pick ws env now m).0 ≡ some heal) × Acts env may_try kept heal)
  unfolding pick choose candidates
  pick_cases = elim (Bool-cases (busy env)) [
    | inl e ↦ inl (rw (e, pick) refl, inl e)
    | inr e ↦
        elim (min_by_key_lem (λ (d : String × NodeCondition). last_tried (kept d.0))
          (candidates ws env now (retain_tries ws env now m))) [
            | inl (f, nobody) ↦ inl (rw (e, f, pick, choose) refl, inr (λ d k. idle d k nobody))
            | inr (d, f, (there, least)) ↦
                let (k, ok) =
                  mem_of_mem-filter (λ (x : String × NodeCondition). may_try x.0) (down_nodes env) d
                    there in
                let (p, q) = attempt-number d in
                inr (
                  (attempt ws now d (retain_tries ws env now m)).0,
                  rw (e, f, pick, choose) refl,
                  (
                    d,
                    e,
                    k,
                    ok,
                    λ x i j. least x (
                        mem-filter (λ (y : String × NodeCondition). may_try y.0) (down_nodes env) x
                          i j),
                    p,
                    q,
                  ),
                )
          ]
  ]
