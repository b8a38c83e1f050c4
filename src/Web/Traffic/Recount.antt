-- ===== src/Web/Traffic/Recount.antt =====
-- src/web/traffic.rs: writes to a ring that change what it is accounted for.
use mathlib.Core.List.{Memᴰ}
use mathlib.Core.Path.{subst}
use mathlib.Core.Option.{some-injective}
use fghj.Prelude.{
  ℕ, ◌+◌, ◌-◌, ◌≤◌, ◌<◌, true, none, some, List, [], ◌∷◌, ◌≡◌, ◌≢◌, arith, sym, ap, ◌∙◌,
}
use fghj.Prelude.Pairwise.{Pairwise}
use fghj.Web.Traffic.Ring.{IsHeld, IsRing, amend-IsHeld, amend_other, amend_self, tally}
use fghj.Web.Traffic.Evict.{accounted_of-agrees, tally_agrees}
use fghj.Web.Traffic.{Data, Exchange, Shared, TrafficLog, accounted_of, amend, recount}

tally-change :
    (a b : TrafficLog) (id w : ℕ) (entries : List ℕ)
    → Pairwise (λ (x y : ℕ). x < y) entries
    → Memᴰ id entries
    → accounted_of b id ≡ w
    → ((x : ℕ) → x ≢ id → accounted_of b x ≡ accounted_of a x)
    → tally b entries + accounted_of a id ≡ tally a entries + w
tally-change a b id w [] p m e h = elim m [ ]
tally-change a b id w (x ∷ l) p (Memᴰ.head q) e h =
    let rest = tally_agrees b a l (λ y n. let lt = p.0 y n in h y (λ r. omega arith)) in
    subst (λ z. accounted_of b z + tally b l + accounted_of a id ≡ accounted_of a z + tally a l + w)
      q (omega arith)
tally-change a b id w (x ∷ l) p (Memᴰ.tail m) e h =
    let lt = p.0 id m in omega (arith, h x (λ r. omega arith), tally-change a b id w l p.1 m e h)

accounted-le-tally :
    (log : TrafficLog) (id : ℕ) (entries : List ℕ)
    → Memᴰ id entries
    → accounted_of log id ≤ tally log entries
accounted-le-tally log id [] m = elim m [ ]
accounted-le-tally log id (x ∷ l) (Memᴰ.head q) = omega (arith, ap (accounted_of log) q)
accounted-le-tally log id (x ∷ l) (Memᴰ.tail m) = omega (arith, accounted-le-tally log id l m)

module _ (others id w : ℕ) (f : Data → Data) (entries : List ℕ) (s : Shared) where
  -- The exchange is one of the ring's, and the write leaves it so.
  pub recount-IsRing :
      IsRing others entries s
      → Memᴰ id entries
      → ((d : Data) → d.in_ring ≡ true → (f d).in_ring ≡ true)
      → ((d : Data) → (f d).accounted ≡ w)
      → IsRing others entries (recount id w f s)
  unfolding recount
  recount-IsRing r m marked weighed = record {
    held = moved (amend-IsHeld s.log id f entries keeps r.held);
    bytes = omega (arith, r.bytes, change, accounted-le-tally s.log id entries m);
    total = omega (arith, r.bytes, r.total, accounted-le-tally s.log id entries m);
  }
    where
      log : TrafficLog
      log = record (amend id f s.log) { bytes = s.log.bytes + w - accounted_of s.log id }

      moved : IsHeld entries (amend id f s.log) → IsHeld entries log
      moved h = record { live = h.live; gone = h.gone; ascending = h.ascending; made = h.made }

      keeps :
          (ex : Exchange)
          → s.log.exchanges id ≡ some ex
          → (f ex.contents).in_ring ≡ ex.contents.in_ring
      keeps ex e =
          let (old, g, q) = r.held.live id m in
          let same : old ≡ ex = some-injective old ex (sym g ∙ e) in
          let t : ex.contents.in_ring ≡ true =
            ap (λ (z : Exchange). z.contents.in_ring) (sym same) ∙ q in
          marked ex.contents t ∙ sym t

      at_id : accounted_of log id ≡ w
      at_id =
          let (old, g, q) = r.held.live id m in
          unfold accounted_of in
          ap (λ o. elim o [ none ↦ 0 | some ex ↦ ex.contents.accounted ])
            (amend_self s.log id f old g)
          ∙ weighed old.contents

      change : tally log entries + accounted_of s.log id ≡ tally s.log entries + w
      change =
          tally-change s.log log id w entries r.held.ascending m at_id
            (λ x ne. accounted_of-agrees log s.log x (amend_other s.log id f x ne))
