-- ===== src/Actor.antt =====
-- src/actor.rs: the actor of a workspace takes actions one at a time, replies, and publishes the
-- state. The channels are the order of the actions.
pub mod Traces
mod Examples
use fghj.Prelude.{List, [], ◌∷◌, Result, ok, err}
use fghj.State.Workspace.{WorkspaceState}
use fghj.Action.{Action, ActionRejected, no_environment}
use fghj.Reducer.{reduce}
use fghj.Reducer.Base.{Outcome, accepted, rejected, panicked}

-- A panic in the reducer would end the task: the last state stays readable, and nobody replies.
pub data Actor : Type 0 where
  running : WorkspaceState → Actor
  gone : WorkspaceState → Actor

abbrev pub current : Actor → WorkspaceState
current (running s) = s
current (gone s) = s

abbrev pub publish : WorkspaceState → Outcome → Actor × Result (Unit {0}) ActionRejected
publish s (accepted next) = (running next, ok tt)
publish s (rejected e) = (running s, err e)
publish s panicked = (gone s, err no_environment)

unfoldable pub dispatch : Actor → Action → Actor × Result (Unit {0}) ActionRejected
dispatch (running s) a = publish s (reduce s a)
dispatch (gone s) a = (gone s, err no_environment)

-- `spawn`, and then every action that its handles send.
unfoldable pub serve : Actor → List Action → Actor
unfolding dispatch
serve actor [] = actor
serve actor (a ∷ rest) = serve (dispatch actor a).0 rest
