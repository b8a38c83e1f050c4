-- ===== src/Web/Traffic/Evict.antt =====
-- src/web/traffic.rs (TrafficLog::evict): the oldest exchanges leave until the ring is in its limits.
use mathlib.Core.List.{Memᴰ}
use fghj.Prelude.{
  ℕ, ◌-◌, ◌≤◌, ◌<◌, true, false, none, some, List, [], ◌∷◌, ◌++◌, ◌≡◌, ◌⊎◌, inl, inr, arith, refl,
  ap, ◌∙◌, if◌then◌else◌, Bool-cases, Option-cases, length, ltb,
}
use fghj.Web.Traffic.Ring.{IsHeld, IsRing, amend-IsHeld_out, tally}
use fghj.Web.Traffic.{
  Data, Exchange, Shared, TrafficLog, accounted_of, amend, evict, evict_from, evict_one,
  global_budget, is_over, max_exchanges, node_budget, out_of_ring,
}

pub tally_agrees :
    (a b : TrafficLog) (ids : List ℕ)
    → ((x : ℕ) → Memᴰ x ids → accounted_of a x ≡ accounted_of b x)
    → tally a ids ≡ tally b ids
tally_agrees a b [] h = refl
tally_agrees a b (id ∷ ids) h =
    omega (arith, h id (Memᴰ.head refl), tally_agrees a b ids (λ x m. h x (Memᴰ.tail m)))

-- A write that leaves the account alone.
pub accounted_of-amend :
    (log : TrafficLog) (id : ℕ) (f : Data → Data) (x : ℕ)
    → ((d : Data) → (f d).accounted ≡ d.accounted)
    → accounted_of (amend id f log) x ≡ accounted_of log x
unfolding accounted_of amend
accounted_of-amend log id f x k = elim (Option-cases (log.exchanges x)) [
  | inl e ↦ ground arith
  | inr (ex, e) ↦ ground (arith, k ex.contents)
]

-- What an exchange is accounted for is all in the exchanges.
pub accounted_of-agrees :
    (a b : TrafficLog) (x : ℕ) → a.exchanges x ≡ b.exchanges x → accounted_of a x ≡ accounted_of b x
unfolding accounted_of
accounted_of-agrees a b x e = ap (λ o. elim o [ none ↦ 0 | some ex ↦ ex.contents.accounted ]) e

pub accounted_of-some :
    (log : TrafficLog) (x : ℕ) (ex : Exchange)
    → log.exchanges x ≡ some ex
    → accounted_of log x ≡ ex.contents.accounted
unfolding accounted_of
accounted_of-some log x ex e = ap (λ o. elim o [ none ↦ 0 | some y ↦ y.contents.accounted ]) e

evict_one-IsRing :
    (others id : ℕ) (rest : List ℕ) (s : Shared)
    → IsRing others (id ∷ rest) s
    → IsRing others rest (evict_one id s)
unfolding evict_one
evict_one-IsRing others id rest s r = record {
  held = evicted (amend-IsHeld_out s.log id rest r.held);
  bytes = omega (arith, r.bytes, same);
  total = omega (arith, r.bytes, r.total);
}
  where
    log : TrafficLog
    log = record (amend id out_of_ring s.log) { bytes = s.log.bytes - accounted_of s.log id }

    evicted : IsHeld rest (amend id out_of_ring s.log) → IsHeld rest log
    evicted h = record { live = h.live; gone = h.gone; ascending = h.ascending; made = h.made }

    same : tally log rest ≡ tally s.log rest
    same = tally_agrees log s.log rest λ x m.
        accounted_of-agrees log (amend id out_of_ring s.log) x refl
        ∙ accounted_of-amend s.log id out_of_ring x (λ d. refl)

-- The limits of a ring: the newest exchange is kept whatever its size.
abbrev pub IsWithin : Shared → Type 0
IsWithin s =
    (length s.log.entries ≤ 1)
    ⊎ ((length s.log.entries ≤ max_exchanges)
        × (s.log.bytes ≤ node_budget)
        × (s.total ≤ global_budget))

pub record Evicts (others : ℕ) (entries : List ℕ) (s t : Shared) : Type 0 where
  pub ring : IsRing others t.log.entries t
  pub within : IsWithin t
  pub suffix : (front : List ℕ) × (entries ≡ front ++ t.log.entries)
  pub newest : length entries ≡ 0 ⊎ (0 < length t.log.entries)
  pub mode : t.log.mode ≡ s.log.mode
  pub next_id : t.log.next_id ≡ s.log.next_id
  pub cleared_at_ms : t.log.cleared_at_ms ≡ s.log.cleared_at_ms

with_entries : Shared → List ℕ → Shared
with_entries s entries = record s { log = record s.log { entries = entries } }

with_entries-IsRing :
    (others : ℕ) (entries : List ℕ) (s : Shared)
    → IsRing others entries s
    → IsRing others entries (with_entries s entries)
unfolding with_entries
with_entries-IsRing others entries s r = record {
  held = record {
    live = r.held.live;
    gone = r.held.gone;
    ascending = r.held.ascending;
    made = r.held.made;
  };
  bytes = r.bytes ∙ tally_agrees _ _ entries (λ x m. same x);
  total = r.total;
}
  where
    same : (x : ℕ) → accounted_of s.log x ≡ accounted_of (record s.log { entries = entries }) x
    same x = accounted_of-agrees s.log (record s.log { entries = entries }) x refl

within_of :
    (entries : List ℕ) (s : Shared)
    → is_over entries s ≡ false
    → (length entries ≤ 1)
      ⊎ ((length entries ≤ max_exchanges) × (s.log.bytes ≤ node_budget) × (s.total ≤ global_budget))
unfolding is_over
within_of entries s e = elim (Bool-cases (ltb 1 (length entries))) [
  | inr few ↦ inl (ground arith)
  | inl many ↦ inr (ground arith, ground arith, ground arith)
]

newest_of :
    (rest kept : List ℕ) → 0 < length rest → (length rest ≡ 0) ⊎ (0 < length kept) → 0 < length kept
newest_of rest kept lt (inl e) = absurd (omega arith)
newest_of rest kept lt (inr h) = h

pub evict_from-Evicts :
    (others : ℕ) (entries : List ℕ) (s : Shared)
    → IsRing others entries s
    → Evicts others entries s (evict_from entries s)
unfolding evict_from with_entries
evict_from-Evicts others [] s r = record {
  ring = with_entries-IsRing others [] s r;
  within = inl (omega arith);
  suffix = ([], refl);
  newest = inl refl;
  mode = refl;
  next_id = refl;
  cleared_at_ms = refl;
}
evict_from-Evicts others (id ∷ rest) s r =
    leaves (Bool-cases (is_over (id ∷ rest) s))
      (evict_from-Evicts others rest (evict_one id s) (evict_one-IsRing others id rest s r))
  where
    more : is_over (id ∷ rest) s ≡ true → 0 < length rest
    more e = unfold is_over in ground arith

    same_mode : (evict_one id s).log.mode ≡ s.log.mode
    same_mode = unfold evict_one in unfold amend in refl

    same_next : (evict_one id s).log.next_id ≡ s.log.next_id
    same_next = unfold evict_one in unfold amend in refl

    same_cleared : (evict_one id s).log.cleared_at_ms ≡ s.log.cleared_at_ms
    same_cleared = unfold evict_one in unfold amend in refl

    leaves :
        (is_over (id ∷ rest) s ≡ true) ⊎ (is_over (id ∷ rest) s ≡ false)
        → Evicts others rest (evict_one id s) (evict_from rest (evict_one id s))
        → Evicts others (id ∷ rest) s (evict_from (id ∷ rest) s)
    leaves (inr e) k =
        rw (e, if◌then◌else◌)
          (record {
            ring = with_entries-IsRing others (id ∷ rest) s r;
            within = within_of (id ∷ rest) s e;
            suffix = ([], refl);
            newest = inr (omega arith);
            mode = refl;
            next_id = refl;
            cleared_at_ms = refl;
          })
    leaves (inl e) k =
        let (front, q) = k.suffix in
        rw (e, if◌then◌else◌)
          (record {
            ring = k.ring;
            within = k.within;
            suffix = (id ∷ front, ap (λ l. id ∷ l) q);
            newest = inr (newest_of rest _ (more e) k.newest);
            mode = k.mode ∙ same_mode;
            next_id = k.next_id ∙ same_next;
            cleared_at_ms = k.cleared_at_ms ∙ same_cleared;
          })

pub evict-Evicts :
    (others : ℕ) (s : Shared)
    → IsRing others s.log.entries s
    → Evicts others s.log.entries s (evict s)
unfolding evict
evict-Evicts others s r = evict_from-Evicts others s.log.entries s r
