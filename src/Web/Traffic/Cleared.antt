-- ===== src/Web/Traffic/Cleared.antt =====
-- src/web/traffic.rs (TrafficLog::clear, ingest): what was cleared does not come back.
use fghj.Prelude.{
  ℕ, ◌<◌, Option, none, some, List, [], ◌∷◌, ◌≡◌, ◌∙◌, arith, refl, inl, inr, All, ap, is_some,
  if◌then◌else◌, Bool-cases,
}
use fghj.Web.Traffic.{Shared, Shipped, TrafficLog, clear, ingest, known}

unfoldable pub ingest_all : ℕ → List Shipped → Shared → Shared
ingest_all origin [] s = s
ingest_all origin (shipped ∷ l) s = ingest_all origin l (ingest origin shipped s)

known-nil : (key : Option (ℕ × ℕ)) (log : TrafficLog) → log.entries ≡ [] → known key log ≡ none
unfolding known
known-nil key log e = rw e refl

ingest-old :
    (origin : ℕ) (shipped : Shipped) (s : Shared)
    → s.log.entries ≡ []
    → shipped.contents.started_at_ms < s.log.cleared_at_ms
    → ingest origin shipped s ≡ s
unfolding ingest
ingest-old origin shipped s e lt = elim (Bool-cases (is_some s.log.mode)) [
  | inr f ↦ rw (f, if◌then◌else◌) refl
  | inl f ↦ rw (f, if◌then◌else◌, known-nil (some (origin, shipped.id)) s.log e) (ground arith)
]

-- Once a log is cleared, no exchange that another proxy ships comes back that was started before:
-- the log stays as the clear left it, empty.
pub ingest_all-clear :
    (origin now : ℕ) (l : List Shipped) (s : Shared)
    → All (λ (shipped : Shipped). shipped.contents.started_at_ms < now) l
    → (ingest_all origin l (clear now s) ≡ clear now s) × ((clear now s).log.entries ≡ [])
unfolding ingest_all
ingest_all-clear origin now [] s h = (refl, empty)
  where
    empty : (clear now s).log.entries ≡ []
    empty = unfold clear in refl
ingest_all-clear origin now (shipped ∷ l) s h =
    let (e, f) = ingest_all-clear origin now l s h.1 in
    (ap (ingest_all origin l) (ingest-old origin shipped (clear now s) f (old h.0)) ∙ e, f)
  where
    old :
        shipped.contents.started_at_ms < now
        → shipped.contents.started_at_ms < (clear now s).log.cleared_at_ms
    old lt = unfold clear in lt
