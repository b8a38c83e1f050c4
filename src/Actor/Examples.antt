-- ===== src/Actor/Examples.antt =====
-- An actor on concrete actions: the statements about its traces at a concrete input.
use fghj.Prelude.{none, [], ◌∷◌, ok, ◌≡◌}
use fghj.State.Workspace.{WorkspaceState}
use fghj.Action.{node_stop_requested, node_start_requested, container_action_settled}
use fghj.Reducer.Invariant.{IsConsistent}
use fghj.Reducer.Examples.{idle, idle-IsConsistent}
use fghj.Actor.{running, serve}
use fghj.Actor.Traces.{serve-IsConsistent}

serve-IsConsistent_example :
    (t : WorkspaceState) × (serve (running idle) (
        node_stop_requested "db"
        ∷ node_start_requested "web"
        ∷ container_action_settled "db" none (ok none)
        ∷ [])
      ≡ running t)
    × IsConsistent t
serve-IsConsistent_example =
    serve-IsConsistent idle
      (node_stop_requested "db"
        ∷ node_start_requested "web"
        ∷ container_action_settled "db" none (ok none)
        ∷ [])
      idle-IsConsistent (tt, (tt, (tt, tt)))
