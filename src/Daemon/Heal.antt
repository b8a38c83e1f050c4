-- ===== src/Daemon/Heal.antt =====
-- src/daemon/heal.rs: which crashed or interrupted node is started again, and when to stop trying.
-- Instants and durations are nanoseconds.
pub mod Picked
pub mod Bounded
pub mod Examples
use fghj.Prelude.{
  ℕ, suc, ◌+◌, ◌-◌, ◌*◌, ◌^◌, String, Bool, true, false, not, ◌&&◌, ◌||◌, Option, none, some, List,
  [], ◌∷◌, map, filter, any, is_some, leb, ltb, str_eq, if◌then◌else◌,
}
use mathlib.Core.Option
use fghj.Prelude.BTreeMap.{get, values}
use fghj.State.Container.{ContainerInfo, NodeCondition, condition}
use fghj.State.Workspace.{EnvState}

abbrev pub seconds : ℕ → ℕ
seconds n = n * 1000000000

abbrev pub first_delay : ℕ
first_delay = seconds 5

abbrev pub max_delay : ℕ
max_delay = seconds 300

abbrev pub stable : ℕ
stable = seconds 60

abbrev pub max_attempts : ℕ
max_attempts = 8

pub record Tries : Type 0 where
  pub count : ℕ
  pub last : ℕ
  pub given_up : Bool

abbrev min : ℕ → ℕ → ℕ
min a b = if ltb b a then b else a

-- The time to wait after a number of restarts. The product stays below the range of a `Duration`.
unfoldable pub delay : ℕ → ℕ
delay count = min (first_delay * 2 ^ min (count - 1) 16) max_delay

-- `duration_since` is zero for a later instant.
unfoldable pub due : ℕ → Tries → Bool
due now t = leb (delay t.count) (now - t.last)

-- By workspace and node.
abbrev pub TriesMap : Type 0
TriesMap = String → String → Option Tries

unfoldable pub fresh : TriesMap
fresh ws node = none

unfoldable pub put : String → String → Tries → TriesMap → TriesMap
put ws node t m w n = if str_eq ws w && str_eq node n then some t else m w n

pub data Heal : Type 0 where
  restart : String → NodeCondition → ℕ → Heal
  give_up : String → Heal

abbrev is_running : NodeCondition → Bool
is_running NodeCondition.running = true
is_running _ = false

abbrev pub is_down : NodeCondition → Bool
is_down NodeCondition.crashed = true
is_down NodeCondition.interrupted = true
is_down _ = false

unfoldable pub is_up_now : ContainerInfo → Bool
is_up_now c = is_running (condition c)

-- What is in flight stops everything.
unfoldable pub busy : EnvState → Bool
busy env = is_some env.pending_create || any (λ c. is_some c.pending_action) (values env.containers)

unfoldable pub keeps : ℕ → Tries → Option ContainerInfo → Bool
keeps now t none = false
keeps now t (some c) = c.desired.running && not (is_up_now c && leb stable (now - t.last))

unfoldable pub retain_tries : String → EnvState → ℕ → TriesMap → TriesMap
retain_tries ws env now m w n = elim (m w n) [
  | none ↦ none
  | some t ↦ if not (str_eq w ws) || keeps now t (get n env.containers) then some t else none
]

unfoldable pub eligible : ℕ → Option Tries → Bool
eligible now none = true
eligible now (some t) = not t.given_up && due now t

-- The order of `Option<Instant>`.
abbrev pub is_before : Option ℕ → Option ℕ → Bool
is_before none none = false
is_before none (some b) = true
is_before (some a) none = false
is_before (some a) (some b) = ltb a b

unfoldable pub last_tried : Option Tries → Option ℕ
last_tried = Option.map (λ t. t.last)

-- `min_by_key`: of several least elements the first.
unfoldable pub least_by : {A : Type 0} → (A → Option ℕ) → A → List A → A
least_by key best [] = best
least_by key best (x ∷ l) = least_by key (if is_before (key x) (key best) then x else best) l

unfoldable pub min_by_key : {A : Type 0} → (A → Option ℕ) → List A → Option A
min_by_key key [] = none
min_by_key key (x ∷ l) = some (least_by key x l)

abbrev pub down_nodes : EnvState → List (String × NodeCondition)
down_nodes env =
    filter (λ e. is_down e.1) (map (λ c. (c.node_id, condition c)) (values env.containers))

unfoldable pub candidates : String → EnvState → ℕ → TriesMap → List (String × NodeCondition)
candidates ws env now m = filter (λ e. eligible now (m ws e.0)) (down_nodes env)

unfoldable pub or_insert : ℕ → Option Tries → Tries
or_insert now none = record { count = 0; last = now; given_up = false }
or_insert now (some t) = t

unfoldable pub attempt : String → ℕ → String × NodeCondition → TriesMap → Heal × TriesMap
attempt ws now e m =
    let t = or_insert now (m ws e.0) in
    if leb max_attempts t.count
    then (Heal.give_up e.0, put ws e.0 (record t { given_up = true }) m)
    else (
      Heal.restart e.0 e.1 (t.count + 1),
      put ws e.0 (record t { count = t.count + 1; last = now }) m,
    )

unfoldable pub choose : String → EnvState → ℕ → TriesMap → Option Heal × TriesMap
choose ws env now m = elim (min_by_key (λ e. last_tried (m ws e.0)) (candidates ws env now m)) [
  | none ↦ (none, m)
  | some e ↦ let (heal, m') = attempt ws now e m in (some heal, m')
]

unfoldable pub pick : String → EnvState → ℕ → TriesMap → Option Heal × TriesMap
pick ws env now m = if busy env then (none, m) else choose ws env now (retain_tries ws env now m)
