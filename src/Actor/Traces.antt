-- ===== src/Actor/Traces.antt =====
-- What holds after any sequence of actions.
use fghj.Prelude.{
  List, [], ◌∷◌, ok, err, ◌≡◌, refl, arith, All, inl, inr, String, ◌⊎◌, ◌∙◌, Bool-cases, false,
}
use fghj.State.Workspace.{WorkspaceState}
use fghj.Action.{Action, ActionRejected, is_report}
use fghj.Reducer.{reduce}
use fghj.Reducer.Base.{Outcome, accepted, rejected, panicked}
use fghj.Reducer.Frame.{reduce-ne-panicked, reduce-report, reduce-frame}
use fghj.Reducer.Invariant.{IsConsistent, IsHonest, reduce-IsConsistent}
use fghj.Reducer.Views.{container_of, concerns}
use fghj.Actor.{running, current, dispatch, serve}

Outcome-cases :
    (o : Outcome)
    → ((t : WorkspaceState) × (o ≡ accepted t))
      ⊎ (((e : ActionRejected) × (o ≡ rejected e)) ⊎ (o ≡ panicked))
Outcome-cases (accepted t) = inl (t, refl)
Outcome-cases (rejected e) = inr (inl (e, refl))
Outcome-cases panicked = inr (inr refl)

request_of_rejected :
    (s : WorkspaceState) (a : Action) (e : ActionRejected)
    → reduce s a ≡ rejected e
    → is_report a ≡ false
request_of_rejected s a e p = elim (Bool-cases (is_report a)) [
  | inl report ↦ let (t, q) = reduce-report s a report in absurd (ground arith)
  | inr request ↦ request
]

-- One step of a running actor: it stays running, and either publishes what the reducer made and
-- replies with success, or publishes nothing new and replies with the refusal of a request.
dispatch_cases :
    (s : WorkspaceState) (a : Action)
    → ((t : WorkspaceState) × (reduce s a ≡ accepted t)
        × (dispatch (running s) a ≡ (running t, ok tt)))
      ⊎ ((e : ActionRejected) × (is_report a ≡ false)
          × (reduce s a ≡ rejected e)
          × (dispatch (running s) a ≡ (running s, err e)))
unfolding dispatch
dispatch_cases s a = elim (Outcome-cases (reduce s a)) [
  | inl (t, p) ↦ inl (t, p, rw p)
  | inr (inl (e, p)) ↦ inr (e, request_of_rejected s a e p, p, rw p)
  | inr (inr p) ↦ absurd (reduce-ne-panicked s a p)
]

-- The actor of a consistent workspace runs for ever, and every state it publishes is consistent,
-- whatever is requested, if the reports are honest.
pub serve-IsConsistent :
    (s : WorkspaceState) (actions : List Action)
    → IsConsistent s
    → All IsHonest actions
    → (t : WorkspaceState) × (serve (running s) actions ≡ running t) × IsConsistent t
unfolding serve
serve-IsConsistent s [] h k = (s, refl, h)
serve-IsConsistent s (a ∷ rest) h k = elim (dispatch_cases s a) [
  | inl (t, p, q) ↦ rw q (serve-IsConsistent t rest (reduce-IsConsistent s t a h k.0 p) k.1)
  | inr (e, _, p, q) ↦ rw q (serve-IsConsistent s rest h k.1)
]

-- A sequence of actions about other nodes leaves the container of a node as it was.
pub serve-frame :
    (s : WorkspaceState) (j : String) (actions : List Action)
    → All (λ a. concerns a j ≡ false) actions
    → container_of (current (serve (running s) actions)) j ≡ container_of s j
unfolding serve
serve-frame s j [] k = refl
serve-frame s j (a ∷ rest) k = elim (dispatch_cases s a) [
  | inl (t, p, q) ↦ rw q (serve-frame t j rest k.1 ∙ reduce-frame s t a j k.0 p)
  | inr (e, _, p, q) ↦ rw q (serve-frame s j rest k.1)
]
