-- ===== src/Web/Traffic/Store.antt =====
-- src/web/traffic.rs (TrafficStore): every node's log, by workspace and node.
pub mod Modes
use fghj.Prelude.{
  ℕ, String, Bool, true, false, ◌&&◌, not, Option, none, some, List, [], ◌∷◌, filter_map, is_some,
  str_eq, if◌then◌else◌, ◌==◌, eq_Option,
}
use fghj.Prelude.BTreeMap.{BTreeMap, get}
use fghj.Web.Traffic.Body.{BodyMode, eq_BodyMode}
use fghj.Web.Traffic.{Shared, TrafficLog, clear, new, set_mode}

abbrev pub Key : Type 0
Key = String × String

pub record TrafficStore : Type 0 where
  pub logs : List (Key × TrafficLog)
  pub total : ℕ

abbrev pub is_key : String → String → Key → Bool
is_key workspace node k = str_eq k.0 workspace && str_eq k.1 node

abbrev pub made : Key → Shared → TrafficStore
made k s = record { logs = (k, s.log) ∷ []; total = s.total }

abbrev pub followed : Key → Shared → List (Key × TrafficLog) → TrafficStore
followed k s rest = record { logs = (k, s.log) ∷ rest; total = s.total }

abbrev pub led : Key × TrafficLog → TrafficStore → TrafficStore
led e store = record store { logs = e ∷ store.logs }

-- What `log(workspace, node)` is called for: an operation on the node's log, made on first use.
unfoldable pub on_log :
    String → String → (Shared → Shared) → ℕ → List (Key × TrafficLog) → TrafficStore
on_log workspace node f total [] = made (workspace, node) (f (record { log = new; total = total }))
on_log workspace node f total ((k, log) ∷ logs) =
    let rest = on_log workspace node f total logs in
    if is_key workspace node k
    then followed k (f (record { log = log; total = total })) logs
    else led (k, log) rest

abbrev pub switched : BodyMode → Shared → Shared
switched mode s =
    if s.log.mode == some mode then s else record s { log = set_mode (some mode) s.log }

-- The first loop of `apply_modes`.
unfoldable pub switch_all : String → BTreeMap BodyMode → TrafficStore → TrafficStore
switch_all workspace [] store = store
switch_all workspace ((node, mode) ∷ modes) store =
    switch_all workspace modes (on_log workspace node (switched mode) store.total store.logs)

abbrev pub silenced : ℕ → Shared → Shared
silenced now s =
    clear now (if is_some s.log.mode then record s { log = set_mode none s.log } else s)

abbrev pub is_other : String → BTreeMap BodyMode → Key → Bool
is_other workspace modes k = str_eq k.0 workspace && not (is_some (get k.1 modes))

-- The second loop.
unfoldable pub silence_others :
    ℕ → String → BTreeMap BodyMode → ℕ → List (Key × TrafficLog) → TrafficStore
silence_others now workspace modes total [] = record { logs = []; total = total }
silence_others now workspace modes total ((k, log) ∷ logs) =
    let s : Shared = record { log = log; total = total } in
    let t : Shared = if is_other workspace modes k then silenced now s else s in
    led (k, t.log) (silence_others now workspace modes t.total logs)

unfoldable pub apply_modes : ℕ → String → BTreeMap BodyMode → TrafficStore → TrafficStore
apply_modes now workspace modes store =
    let mid = switch_all workspace modes store in
    silence_others now workspace modes mid.total mid.logs

-- The nodes of a workspace that record, with their modes.
unfoldable pub recording : String → TrafficStore → List (String × BodyMode)
recording workspace store =
    filter_map
      (λ e.
        if str_eq e.0.0 workspace
        then elim e.1.mode [ none ↦ none | some mode ↦ some (e.0.1, mode) ]
        else none)
      store.logs
