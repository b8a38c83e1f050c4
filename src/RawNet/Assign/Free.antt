-- ===== src/RawNet/Assign/Free.antt =====
-- When a probe finds a free address: whenever fewer ports are claimed than it has addresses.
use mathlib.Core.List.{Memᴰ}
use fghj.Prelude.{
  ℕ, zero, suc, ◌+◌, ◌%◌, ◌<◌, ◌≤◌, Bool, true, not, Option, none, some, List, [], ◌∷◌, ◌≡◌, ◌≢◌,
  refl, sym, ap, ◌∙◌, arith, inl, inr, Bool-cases, Option-cases, filter, find, length, nat_eq,
}
use fghj.Prelude.Sets.{all-false}
use fghj.Prelude.Search.{mem-find, find-eq-none, mem_of_mem-filter}
use fghj.RawNet.Assign.{pool_base, span, Port, claims, free_at, probes, probe, pick_ip, slot_of}

Distinct : List ℕ → Type 0
Distinct [] = Unit
Distinct (x ∷ l) = ((y : ℕ) → Memᴰ y l → y ≢ x) × Distinct l

Covered : List Port → List ℕ → Type 0
Covered claimed l = (x : ℕ) → Memᴰ x l → (p : ℕ) × (claims claimed (x, p) ≡ true)

abbrev other : ℕ → ℕ → Bool
other a x = not (nat_eq a x)

filter-Distinct : (p : ℕ → Bool) (l : List ℕ) → Distinct l → Distinct (filter p l)
unfolding Distinct
filter-Distinct p [] d = d
filter-Distinct p (x ∷ l) (d, ds) = elim (Bool-cases (p x)) [
  | inl e ↦ rw e ((λ y m. d y (mem_of_mem-filter p l y m).0), filter-Distinct p l ds)
  | inr e ↦ rw e (filter-Distinct p l ds)
]

-- Without one number, a list of distinct numbers is shorter by at most one.
length-other_absent :
    (a : ℕ) (l : List ℕ) → ((y : ℕ) → Memᴰ y l → y ≢ a) → length (filter (other a) l) ≡ length l
length-other_absent a [] h = refl
length-other_absent a (x ∷ l) h =
    let ne = h x (Memᴰ.head refl) in
    let e : other a x ≡ true = ground (arith, ne) in
    rw e (ap suc (length-other_absent a l (λ y m. h y (Memᴰ.tail m))))

length-other : (a : ℕ) (l : List ℕ) → Distinct l → length l ≤ suc (length (filter (other a) l))
unfolding Distinct
length-other a [] d = omega arith
length-other a (x ∷ l) (d, ds) = elim (Bool-cases (other a x)) [
  | inl e ↦ let ih = length-other a l ds in rw e (omega arith)
  | inr e ↦
      let q : x ≡ a = ground arith in
      let same = length-other_absent a l (λ y m k. d y m (k ∙ sym q)) in rw e (omega arith)
]

pigeonhole :
    (claimed : List Port) (l : List ℕ) → Distinct l → Covered claimed l → length l ≤ length claimed
unfolding Covered claims
pigeonhole [] [] d c = omega arith
pigeonhole [] (x ∷ l) d c = absurd (ground (arith, (c x (Memᴰ.head refl)).1))
pigeonhole (q ∷ claimed) l d c =
    let ih = pigeonhole claimed (filter (other q.0) l) (filter-Distinct (other q.0) l d) rest in
    let fewer = length-other q.0 l d in omega arith
  where
    rest : Covered claimed (filter (other q.0) l)
    rest x m =
        let (k, e) = mem_of_mem-filter (other q.0) l x m in let (p, h) = c x k in (p, ground arith)

mem-probes :
    (start n count x : ℕ)
    → Memᴰ x (probes start n count)
    → (m : ℕ) × (n ≤ m) × (m < n + count) × (x ≡ pool_base + 1 + (start + m) % span)
unfolding probes
mem-probes start n zero x m = elim m [ ]
mem-probes start n (suc count) x (Memᴰ.head q) = (n, omega arith, omega arith, q)
mem-probes start n (suc count) x (Memᴰ.tail k) =
    let (m, a, b, q) = mem-probes start (suc n) count x k in (m, omega arith, omega arith, q)

probes-Distinct : (start n count : ℕ) → n + count ≤ span → Distinct (probes start n count)
unfolding probes Distinct
probes-Distinct start n zero h = tt
probes-Distinct start n (suc count) h = (apart, probes-Distinct start (suc n) count (omega arith))
  where
    apart : (y : ℕ) → Memᴰ y (probes start (suc n) count) → y ≢ pool_base + 1 + (start + n) % span
    apart y k q = let (m, a, b, e) = mem-probes start (suc n) count y k in omega arith

length-probes : (start n count : ℕ) → length (probes start n count) ≡ count
unfolding probes
length-probes start n zero = refl
length-probes start n (suc count) = ap suc (length-probes start (suc n) count)

find-some :
    (ports : List ℕ) (claimed : List Port) (start : ℕ)
    → length claimed < span
    → (ip : ℕ) × (find (free_at ports claimed) (probes start 0 span) ≡ some ip)
unfolding Covered
find-some ports claimed start h =
    elim (Option-cases (find (free_at ports claimed) (probes start 0 span))) [
      | inr r ↦ r
      | inl e ↦
          let few =
            pigeonhole claimed (probes start 0 span) (probes-Distinct start 0 span (omega arith))
              (covered e) in
          let all = length-probes start 0 span in absurd (omega arith)
    ]
  where
    covered :
        find (free_at ports claimed) (probes start 0 span) ≡ none
        → Covered claimed (probes start 0 span)
    covered e x m =
        let busy = find-eq-none (free_at ports claimed) (probes start 0 span) x e m in
        let (p, k, q) = all-false (λ p. not (claims claimed (x, p))) ports busy in (p, ground arith)

probe-free :
    (naive : ℕ) (ports : List ℕ) (claimed : List Port)
    → length claimed < span
    → free_at ports claimed (probe naive ports claimed) ≡ true
unfolding probe
probe-free naive ports claimed h =
    let (ip, e) = find-some ports claimed (slot_of naive) h in
    let (m, q) = mem-find (free_at ports claimed) (probes (slot_of naive) 0 span) ip e in rw e q

-- While fewer ports are claimed than the pool has addresses, the address picked has all of the
-- name's ports free, whichever address the name prefers.
pub pick_ip-free :
    (preferred : Option ℕ) (naive : ℕ) (ports : List ℕ) (claimed : List Port)
    → length claimed < span
    → free_at ports claimed (pick_ip preferred naive ports claimed) ≡ true
unfolding pick_ip
pick_ip-free none naive ports claimed h = probe-free naive ports claimed h
pick_ip-free (some p) naive ports claimed h = elim (Bool-cases (free_at ports claimed p)) [
  | inl e ↦ rw (e, pick_ip) e
  | inr e ↦ rw (e, pick_ip) (probe-free naive ports claimed h)
]
