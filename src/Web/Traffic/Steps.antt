-- ===== src/Web/Traffic/Steps.antt =====
-- src/web/traffic.rs: every operation keeps the books of a ring, and the ring in its limits.
use mathlib.Core.List.{Memᴰ}
use mathlib.Core.Path.{subst}
use fghj.Prelude.{
  ℕ, ◌+◌, ◌<◌, true, Option, some, List, [], ◌∷◌, ◌++◌, ◌≡◌, ◌≢◌, inl, inr, arith, refl, sym, ap,
  ◌∙◌, nat_eq, nat_eq_iff, if◌then◌else◌, Bool-cases, Option-cases,
}
use fghj.Prelude.Pairwise.{Pairwise-snoc}
use fghj.Prelude.Search.{mem_of_mem-append, mem-append_left, mem-append_right}
use fghj.Web.Traffic.Body.{BodyMode}
use fghj.Web.Traffic.Ring.{IsHeld, IsRing, amend-IsHeld, tally}
use fghj.Web.Traffic.Evict.{
  IsWithin, accounted_of-agrees, accounted_of-amend, accounted_of-some, evict-Evicts, tally_agrees,
}
use fghj.Web.Traffic.Recount.{recount-IsRing}
use fghj.Web.Traffic.{
  Data, Shared, TrafficLog, account, accounted_of, amend, as_accounted, evict, push, recount,
  set_mode, weight,
}

-- The ring's bytes are what its exchanges are accounted for, and part of the total; it is in its
-- limits.
pub record IsSound (others : ℕ) (s : Shared) : Type 0 where
  pub ring : IsRing others s.log.entries s
  pub within : IsWithin s

evict-IsSound : (others : ℕ) (s : Shared) → IsRing others s.log.entries s → IsSound others (evict s)
evict-IsSound others s r =
    let e = evict-Evicts others s r in record { ring = e.ring; within = e.within }

module _ (others : ℕ) (s : Shared) where
  -- A write that changes neither the mark nor the account.
  pub write-IsSound :
      (id : ℕ) (f : Data → Data)
      → ((d : Data) → (f d).in_ring ≡ d.in_ring)
      → ((d : Data) → (f d).accounted ≡ d.accounted)
      → IsSound others s
      → IsSound others (record s { log = amend id f s.log })
  write-IsSound id f marked weighed i = record { ring = shut ring; within = shut_within i.within }
    where
      t : Shared
      t = record s { log = amend id f s.log }

      same_bytes : (amend id f s.log).bytes ≡ s.log.bytes
      same_bytes = unfold amend in refl

      ring : IsRing others s.log.entries t
      ring = record {
        held = amend-IsHeld s.log id f s.log.entries (λ ex e. marked ex.contents) i.ring.held;
        bytes =
            same_bytes
            ∙ i.ring.bytes
            ∙ tally_agrees s.log (amend id f s.log) s.log.entries
                (λ x m. sym (accounted_of-amend s.log id f x weighed));
        total = i.ring.total ∙ ap (λ (n : ℕ). others + n) (sym same_bytes);
      }

      shut : IsRing others s.log.entries t → IsRing others t.log.entries t
      shut r = unfold amend in r

      shut_within : IsWithin s → IsWithin t
      shut_within w = unfold amend in w

  recount-entries : (id w : ℕ) (f : Data → Data) → (recount id w f s).log.entries ≡ s.log.entries
  unfolding recount amend
  recount-entries id w f = refl

  pub recounted-IsSound :
      (id w : ℕ) (f : Data → Data)
      → IsSound others s
      → Memᴰ id s.log.entries
      → ((d : Data) → d.in_ring ≡ true → (f d).in_ring ≡ true)
      → ((d : Data) → (f d).accounted ≡ w)
      → IsSound others (evict (recount id w f s))
  recounted-IsSound id w f i m marked weighed = evict-IsSound others (recount id w f s) (
      subst (λ l. IsRing others l (recount id w f s)) (sym (recount-entries id w f))
        (recount-IsRing others id w f s.log.entries s i.ring m marked weighed))

  pub account-IsSound : (id : ℕ) → IsSound others s → IsSound others (account id s)
  unfolding account weight
  account-IsSound id i = elim (Option-cases (s.log.exchanges id)) [
    | inl e ↦ rw (e, account) i
    | inr (ex, e) ↦ elim (Bool-cases ex.contents.in_ring) [
      | inr r ↦ rw (e, account, r, if◌then◌else◌) i
      | inl r ↦
          let w = weight ex.contents in
          rw (e, account, r, if◌then◌else◌)
            (recounted-IsSound id w (as_accounted w) i (i.ring.held.gone id ex e r) (λ d q. q)
              (λ d. refl))
    ]
  ]

  pub set_mode-IsSound :
      (mode : Option BodyMode)
      → IsSound others s
      → IsSound others (record s { log = set_mode mode s.log })
  unfolding set_mode
  set_mode-IsSound mode i = record {
    ring = record {
      held = record {
        live = i.ring.held.live;
        gone = i.ring.held.gone;
        ascending = i.ring.held.ascending;
        made = i.ring.held.made;
      };
      bytes =
          i.ring.bytes
          ∙ tally_agrees s.log (record s.log { mode = mode }) s.log.entries
              (λ x m. accounted_of-agrees s.log (record s.log { mode = mode }) x refl);
      total = i.ring.total;
    };
    within = i.within;
  }

tally-append : (log : TrafficLog) (l k : List ℕ) → tally log (l ++ k) ≡ tally log l + tally log k
tally-append log [] k = omega arith
tally-append log (x ∷ l) k = omega (arith, tally-append log l k)

module _ (others : ℕ) (d : Data) (remote : Option (ℕ × ℕ)) (s : Shared) where
  abbrev pushed_log : TrafficLog
  pushed_log = record s.log {
    next_id = s.log.next_id + 1;
    exchanges = λ x.
        if nat_eq x s.log.next_id
        then some (record { remote = remote; contents = d })
        else s.log.exchanges x;
    entries = s.log.entries ++ s.log.next_id ∷ [];
    bytes = s.log.bytes + d.accounted;
  }

  pushed_self : pushed_log.exchanges s.log.next_id ≡ some (record { remote = remote; contents = d })
  pushed_self = rw ((nat_eq_iff s.log.next_id s.log.next_id).1 refl, if◌then◌else◌) refl

  pushed_other : (x : ℕ) → x ≢ s.log.next_id → pushed_log.exchanges x ≡ s.log.exchanges x
  pushed_other x ne = elim (Bool-cases (nat_eq x s.log.next_id)) [
    | inl e ↦ absurd (ne ((nat_eq_iff x s.log.next_id).0 e))
    | inr e ↦ rw (e, if◌then◌else◌) refl
  ]

  module _ (marked : d.in_ring ≡ true) (r : IsRing others s.log.entries s) where
    entry_lt : (x : ℕ) → Memᴰ x s.log.entries → x < s.log.next_id
    entry_lt x m = let (ex, e, _) = r.held.live x m in r.held.made x ex e

    pushed-IsHeld : IsHeld (s.log.entries ++ s.log.next_id ∷ []) pushed_log
    pushed-IsHeld = record {
      live = λ x m. elim (mem_of_mem-append s.log.entries (s.log.next_id ∷ []) x m) [
        | inl n ↦
            let (ex, e, q) = r.held.live x n in
            let lt = entry_lt x n in (ex, pushed_other x (λ i. omega arith) ∙ e, q)
        | inr (Memᴰ.head i) ↦ (
          record { remote = remote; contents = d },
          ap (λ y. pushed_log.exchanges y) i ∙ pushed_self,
          marked,
        )
        | inr (Memᴰ.tail n) ↦ elim n [ ]
      ];
      gone = λ x ex e q. elim (Bool-cases (nat_eq x s.log.next_id)) [
        | inl i ↦ mem-append_right s.log.entries _ x (Memᴰ.head ((nat_eq_iff x s.log.next_id).0 i))
        | inr i ↦
            mem-append_left s.log.entries _ x (r.held.gone x ex (rw (i, if◌then◌else◌) at e) q)
      ];
      ascending =
          Pairwise-snoc _ s.log.entries s.log.next_id r.held.ascending (λ x m. entry_lt x m);
      made = λ x ex e. elim (Bool-cases (nat_eq x s.log.next_id)) [
        | inl i ↦ omega (arith, (nat_eq_iff x s.log.next_id).0 i)
        | inr i ↦ omega (arith, r.held.made x ex (rw (i, if◌then◌else◌) at e))
      ];
    }

    pushed-IsRing :
        IsRing others
          (s.log.entries ++ s.log.next_id ∷ [])
          (record { log = pushed_log; total = s.total + d.accounted })
    pushed-IsRing = record {
      held = pushed-IsHeld;
      bytes =
          omega
            (arith, r.bytes, tally-append pushed_log s.log.entries (s.log.next_id ∷ []), old, last);
      total = omega (arith, r.total);
    }
      where
        old : tally s.log s.log.entries ≡ tally pushed_log s.log.entries
        old = tally_agrees s.log pushed_log s.log.entries λ x m.
            let lt = entry_lt x m in
            accounted_of-agrees s.log pushed_log x (sym (pushed_other x (λ i. omega arith)))

        last : accounted_of pushed_log s.log.next_id ≡ d.accounted
        last = accounted_of-some pushed_log s.log.next_id _ pushed_self

  pub push-IsSound : d.in_ring ≡ true → IsSound others s → IsSound others (push d remote s).0
  unfolding push
  push-IsSound marked i =
      evict-IsSound others (record { log = pushed_log; total = s.total + d.accounted })
        (pushed-IsRing marked i.ring)
