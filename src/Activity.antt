-- ===== src/Activity.antt =====
-- src/activity.rs: the log of background jobs. A handle is the id of its job; `now` is what
-- `now_ms` reads. `none` is an endless loop or a panic.
pub mod Job
mod Tree
mod Valid
mod Update
mod Remove
pub mod Finish
pub mod Start
pub mod Supersede
pub mod Append
pub mod Call
pub mod Traces
mod Examples
use fghj.Prelude.{
  ℕ, zero, suc, ◌+◌, String, Bool, true, false, ◌&&◌, not, Option, none, some, List, [], ◌∷◌, ◌++◌,
  map, filter, find, any, nat_eq, if◌then◌else◌, is_some, Result, ok, err, ◌==◌, ◌||◌, eq_Option,
  eq_String,
}
use fghj.Prelude.Text.{◌+ₛ◌}
use fghj.Activity.Job.{
  Activity, Inner, ActivityKind, ActivityStatus, is_open, is_queued, is_running, eq_ActivityKind,
}
use mathlib.Core.List.{reverse}

abbrev pub parent_is : ℕ → Activity → Bool
parent_is id a = elim a.parent [ none ↦ false | some p ↦ nat_eq p id ]

-- An id no job has: ids start at 1.
abbrev pub detached : ℕ
detached = 0

unfoldable pub job : ℕ → List Activity → Option Activity
job id items = find (λ a. nat_eq a.id id) items

-- A write through `find_mut`.
unfoldable pub update : ℕ → (Activity → Activity) → List Activity → List Activity
update id f [] = []
update id f (a ∷ items) = if nat_eq a.id id then f a ∷ items else a ∷ update id f items

abbrev pub pushed : ℕ → ℕ → Option String → Option ℕ → ActivityKind → String → Activity
pushed now id workspace_id parent kind key = record {
  id = id;
  workspace_id = workspace_id;
  parent = parent;
  kind = kind;
  key = key;
  status = ActivityStatus.running;
  log = "";
  started_ms = now;
  finished_ms = none;
}

-- The new job's id is the new `next_id`.
unfoldable pub push : ℕ → Option String → Option ℕ → ActivityKind → String → Inner → Inner
push now workspace_id parent kind key inner = record {
  next_id = inner.next_id + 1;
  items = inner.items ++ pushed now (inner.next_id + 1) workspace_id parent kind key ∷ [];
}

unfoldable pub children : List Activity → ℕ → List ℕ
children items id = map (λ a. a.id) (filter (parent_is id) items)

-- The loop of `tree`: its vector is `seen ++ queue`, and its index the length of `seen`.
unfoldable pub grow : ℕ → List Activity → List ℕ → List ℕ → Option (List ℕ)
grow zero items seen queue = none
grow (suc fuel) items seen [] = some seen
grow (suc fuel) items seen (id ∷ queue) =
    grow fuel items (seen ++ id ∷ []) (queue ++ children items id)

abbrev pub total : (ℕ → ℕ) → List ℕ → ℕ
total f [] = 0
total f (x ∷ l) = f x + total f l

-- The jobs under one of them, itself included, down to a height: the fuel of `grow`.
unfoldable pub weight : ℕ → List Activity → ℕ → ℕ
weight zero items id = 1
weight (suc height) items id = suc (total (weight height items) (children items id))

unfoldable pub tree : Inner → ℕ → Option (List ℕ)
unfolding weight
tree inner root = grow (suc (weight inner.next_id inner.items root)) inner.items [] (root ∷ [])

abbrev pub has : List ℕ → ℕ → Bool
has ids id = any (λ x. nat_eq x id) ids

unfoldable pub remove_tree : Inner → ℕ → Option Inner
remove_tree inner root = elim (tree inner root) [
  | none ↦ none
  | some doomed ↦ some (record inner { items = filter (λ a. not (has doomed a.id)) inner.items })
]

abbrev pub is_top : Option String → ActivityKind → String → Activity → Bool
is_top workspace_id kind key a =
    not (is_some a.parent) && (a.workspace_id == workspace_id && (a.kind == kind && a.key == key))

unfoldable pub find_top : Inner → Option String → ActivityKind → String → Option Activity
find_top inner workspace_id kind key = find (is_top workspace_id kind key) inner.items

abbrev pub started : ℕ → Option String → ActivityKind → String → Inner → Inner × Result ℕ Activity
started now workspace_id kind key inner =
    let next = push now workspace_id none kind key inner in (next, ok next.next_id)

unfoldable pub start :
    ℕ → Option String → ActivityKind → String → Inner → Option (Inner × Result ℕ Activity)
start now workspace_id kind key inner = elim (find_top inner workspace_id kind key) [
  | none ↦ some (started now workspace_id kind key inner)
  | some previous ↦
      if is_running previous.status
      then some (inner, err previous)
      else elim (remove_tree inner previous.id) [
        | none ↦ none
        | some rest ↦ some (started now workspace_id kind key rest)
      ]
]

abbrev pub with_note : Option String → String → String
with_note none log = log
with_note (some text) log = log +ₛ text

-- What `finish` does to a job of its tree.
abbrev pub closed : ℕ → ActivityStatus → Option String → ℕ → Activity → Activity
closed self_id status note now a =
    if not (is_open a.status)
    then a
    else if nat_eq a.id self_id
    then record a { log = with_note note a.log; status = status; finished_ms = some now }
    else record a { status = ActivityStatus.cancelled; finished_ms = some now }

unfoldable pub update_all : (Activity → Activity) → List ℕ → List Activity → List Activity
update_all f [] items = items
update_all f (id ∷ ids) items = update_all f ids (update id f items)

unfoldable pub finish : ℕ → ℕ → ActivityStatus → Option String → Inner → Option Inner
finish now self_id status note inner = elim (tree inner self_id) [
  | none ↦ none
  | some ids ↦
      some (record inner { items = update_all (closed self_id status note now) ids inner.items })
]

-- The error is its text.
unfoldable pub settle : ℕ → ℕ → Result (Unit {0}) String → Inner → Option Inner
settle now self_id (ok _) inner = finish now self_id ActivityStatus.done none inner
settle now self_id (err e) inner =
    finish now self_id ActivityStatus.error (some ("\nerror: " +ₛ e +ₛ "\n")) inner

-- Also what dropping an `ActivityGuard` does.
unfoldable pub cancel : ℕ → ℕ → String → Inner → Option Inner
cancel now self_id why inner =
    finish now self_id ActivityStatus.cancelled (some ("\n" +ₛ why +ₛ "\n")) inner

-- The source takes the lock for the start, for the cancel and for the second start; here nothing runs
-- between them, as its only caller never runs two at once.
unfoldable pub start_superseding :
    ℕ → Option String → ActivityKind → String → Inner → Option (Inner × ℕ)
start_superseding now workspace_id kind key inner = elim (start now workspace_id kind key inner) [
  | none ↦ none
  | some (next, ok id) ↦ some (next, id)
  | some (next, err running) ↦ elim (cancel now running.id "superseded" next) [
    | none ↦ none
    | some freed ↦ elim (start now workspace_id kind key freed) [
      | none ↦ none
      | some (last, ok id) ↦ some (last, id)
      | some (last, err _) ↦ none
    ]
  ]
]

abbrev pub or_kind : Option ActivityKind → ActivityKind → ActivityKind
or_kind none own_kind = own_kind
or_kind (some kind) own_kind = kind

unfoldable pub child_of_kind : ℕ → ℕ → Option ActivityKind → String → Inner → Inner × ℕ
child_of_kind now self_id kind key inner = elim (job self_id inner.items) [
  | none ↦ (inner, detached)
  | some a ↦
      let next = push now a.workspace_id (some self_id) (or_kind kind a.kind) key inner in
      (next, next.next_id)
]

unfoldable pub queued_child_of_kind : ℕ → ℕ → Option ActivityKind → String → Inner → Inner × ℕ
queued_child_of_kind now self_id kind key inner =
    let (next, child) = child_of_kind now self_id kind key inner in
    (
      record next {
        items = update child (λ a. record a { status = ActivityStatus.queued }) next.items;
      },
      child,
    )

abbrev pub begun : ℕ → Activity → Activity
begun now a =
    if is_queued a.status then record a { status = ActivityStatus.running; started_ms = now } else a

unfoldable pub begin : ℕ → ℕ → Inner → Inner
begin now self_id inner = record inner { items = update self_id (begun now) inner.items }

abbrev pub noted : String → Activity → Activity
noted text a = record a { log = a.log +ₛ text }

-- The loop of `append`, up the parents.
unfoldable pub append_up : ℕ → ℕ → String → List Activity → Option (List Activity)
append_up zero id text items = none
append_up (suc fuel) id text items = elim (job id items) [
  | none ↦ some items
  | some a ↦ elim a.parent [
    | none ↦ some (update id (noted text) items)
    | some p ↦ append_up fuel p text (update id (noted text) items)
  ]
]

-- A parent is older than its child, so that its id is less.
unfoldable pub append : ℕ → String → Inner → Option Inner
append self_id text inner = elim (append_up (suc self_id) self_id text inner.items) [
  | none ↦ none
  | some items ↦ some (record inner { items = items })
]

-- Newest first.
unfoldable pub list : Option String → Inner → List Activity
list workspace_id inner =
    filter (λ a. not (is_some workspace_id) || a.workspace_id == workspace_id) (reverse inner.items)
