-- ===== src/Web/Traffic/Ring.antt =====
-- src/web/traffic.rs: what holds of a ring, and how its writes keep it.
use mathlib.Core.List.{Memᴰ}
use mathlib.Core.Option.{some-injective}
use fghj.Prelude.{
  ℕ, ◌+◌, ◌<◌, true, Option, none, some, List, [], ◌∷◌, ◌≡◌, ◌≢◌, ◌⊎◌, inl, inr, arith, refl, sym,
  ap, ◌∙◌, nat_eq, nat_eq_iff, if◌then◌else◌, Bool-cases,
}
use fghj.Prelude.Pairwise.{Pairwise}
use fghj.Web.Traffic.{Data, Exchange, Shared, TrafficLog, accounted_of, amend, amended, out_of_ring}

abbrev pub tally : TrafficLog → List ℕ → ℕ
tally log [] = 0
tally log (id ∷ ids) = accounted_of log id + tally log ids

-- The exchanges that are marked as in the ring are those of its entries, each once, and none has an
-- id that is still to come.
pub record IsHeld (entries : List ℕ) (log : TrafficLog) : Type 0 where
  pub live :
      (id : ℕ)
      → Memᴰ id entries
      → (ex : Exchange) × (log.exchanges id ≡ some ex) × (ex.contents.in_ring ≡ true)
  pub gone :
      (id : ℕ) (ex : Exchange)
      → log.exchanges id ≡ some ex
      → ex.contents.in_ring ≡ true
      → Memᴰ id entries
  pub ascending : Pairwise (λ (a b : ℕ). a < b) entries
  pub made : (id : ℕ) (ex : Exchange) → log.exchanges id ≡ some ex → id < log.next_id

-- The ring's bytes are those its entries are accounted for, and are part of the shared total.
pub record IsRing (others : ℕ) (entries : List ℕ) (s : Shared) : Type 0 where
  pub held : IsHeld entries s.log
  pub bytes : s.log.bytes ≡ tally s.log entries
  pub total : s.total ≡ others + s.log.bytes

module _ (log : TrafficLog) (id : ℕ) (f : Data → Data) where
  pub amend_self :
      (ex : Exchange)
      → log.exchanges id ≡ some ex
      → (amend id f log).exchanges id ≡ some (record ex { contents = f ex.contents })
  unfolding amend
  amend_self ex e = ground (arith, nat_eq_iff id id)

  pub amend_other : (x : ℕ) → x ≢ id → (amend id f log).exchanges x ≡ log.exchanges x
  unfolding amend
  amend_other x ne = ground (arith, nat_eq_iff x id)

  -- What an exchange was before the write.
  pub amend_of :
      (x : ℕ) (ex : Exchange)
      → (amend id f log).exchanges x ≡ some ex
      → (old : Exchange) × (log.exchanges x ≡ some old)
        × (((x ≢ id) × (old ≡ ex)) ⊎ ((x ≡ id) × (ex ≡ record old { contents = f old.contents })))
  unfolding amend
  amend_of x ex e = elim (Bool-cases (nat_eq x id)) [
    | inr q ↦ (ex, rw (q, if◌then◌else◌) at e, inl (ground (arith, nat_eq_iff x id), refl))
    | inl q ↦ written ((nat_eq_iff x id).0 q) (log.exchanges x) refl (rw (q, if◌then◌else◌) at e)
  ]
    where
      written :
          x ≡ id
          → (o : Option Exchange) → log.exchanges x ≡ o
          → amended f o ≡ some ex
          → (old : Exchange) × (log.exchanges x ≡ some old)
            × (((x ≢ id) × (old ≡ ex))
                ⊎ ((x ≡ id) × (ex ≡ record old { contents = f old.contents })))
      written q none g h = absurd (ground arith)
      written q (some old) g h = (old, g, inr (q, sym (some-injective _ ex h)))

  -- A write that leaves the mark alone.
  pub amend-IsHeld :
      (entries : List ℕ)
      → ((ex : Exchange)
          → log.exchanges id ≡ some ex
          → (f ex.contents).in_ring ≡ ex.contents.in_ring)
      → IsHeld entries log
      → IsHeld entries (amend id f log)
  amend-IsHeld entries k h = record {
    live = λ x m. elim (Bool-cases (nat_eq x id)) [
      | inl q ↦
          let (ex, e, r) = h.live x m in
          let i = (nat_eq_iff x id).0 q in
          (
            record ex { contents = f ex.contents },
            ap (λ y. (amend id f log).exchanges y) i ∙ amend_self ex (ap log.exchanges (sym i) ∙ e),
            k ex (ap log.exchanges (sym i) ∙ e) ∙ r,
          )
      | inr q ↦
          let (ex, e, r) = h.live x m in
          (ex, amend_other x (ground (arith, nat_eq_iff x id)) ∙ e, r)
    ];
    gone = λ x ex e r. let (old, g, c) = amend_of x ex e in h.gone x old g (mark x ex old g r c);
    ascending = h.ascending;
    made = λ x ex e. let (old, g, c) = amend_of x ex e in same_next (h.made x old g);
  }
    where
      mark :
          (x : ℕ) (ex old : Exchange)
          → log.exchanges x ≡ some old
          → ex.contents.in_ring ≡ true
          → ((x ≢ id) × (old ≡ ex)) ⊎ ((x ≡ id) × (ex ≡ record old { contents = f old.contents }))
          → old.contents.in_ring ≡ true
      mark x ex old g r (inl (ne, q)) = ap (λ (z : Exchange). z.contents.in_ring) q ∙ r
      mark x ex old g r (inr (i, q)) =
          sym (k old (ap log.exchanges (sym i) ∙ g))
          ∙ ap (λ (z : Exchange). z.contents.in_ring) (sym q)
          ∙ r

      same_next : {x : ℕ} → x < log.next_id → x < (amend id f log).next_id
      same_next lt = unfold amend in lt

module _ (log : TrafficLog) (id : ℕ) (rest : List ℕ) where
  -- The oldest entry leaves.
  pub amend-IsHeld_out : IsHeld (id ∷ rest) log → IsHeld rest (amend id out_of_ring log)
  amend-IsHeld_out h = record {
    live = λ x m.
        let (ex, e, r) = h.live x (Memᴰ.tail m) in
        let lt = h.ascending.0 x m in
        (ex, amend_other log id out_of_ring x (λ q. omega arith) ∙ e, r);
    gone = λ x ex e r. let (old, g, c) = amend_of log id out_of_ring x ex e in left x ex old g r c;
    ascending = h.ascending.1;
    made = λ x ex e.
        let (old, g, c) = amend_of log id out_of_ring x ex e in same_next (h.made x old g);
  }
    where
      tail_of : (x : ℕ) → x ≢ id → Memᴰ x (id ∷ rest) → Memᴰ x rest
      tail_of x ne (Memᴰ.head q) = absurd (ne q)
      tail_of x ne (Memᴰ.tail m) = m

      left :
          (x : ℕ) (ex old : Exchange)
          → log.exchanges x ≡ some old
          → ex.contents.in_ring ≡ true
          → ((x ≢ id) × (old ≡ ex))
            ⊎ ((x ≡ id) × (ex ≡ record old { contents = out_of_ring old.contents }))
          → Memᴰ x rest
      left x ex old g r (inl (ne, q)) =
          tail_of x ne (h.gone x old g (ap (λ (z : Exchange). z.contents.in_ring) q ∙ r))
      left x ex old g r (inr (i, q)) =
          absurd (ground (arith, ap (λ (z : Exchange). z.contents.in_ring) q))

      same_next : {x : ℕ} → x < log.next_id → x < (amend id out_of_ring log).next_id
      same_next lt = unfold amend in lt
