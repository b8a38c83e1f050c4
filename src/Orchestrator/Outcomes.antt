-- ===== src/Orchestrator/Outcomes.antt =====
-- src/orchestrator/order.rs: which nodes of a run failed, and which were blocked by a failure.
pub mod Pushed
pub mod Roots
use fghj.Prelude.{
  String, Bool, ◌&&◌, Option, none, some, List, [], ◌∷◌, ◌++◌, map, str_eq, filter, filter_map,
}
use fghj.Prelude.Text.{join, ◌+ₛ◌}
use fghj.Prelude.Sets.{contains}
use fghj.Prelude.Sorting.{sort}
use fghj.Prelude.BTreeMap.{BTreeMap, get, insert}
use fghj.Resolver.Graph.{Edge, needed_to_start}

pub record StartOutcomes : Type 0 where
  pub requirements : BTreeMap (List String)
  pub failed : BTreeMap String
  pub blocked : BTreeMap String

abbrev pub or_default : Option (List String) → List String
or_default none = []
or_default (some l) = l

-- `entry(k).or_default().push(v)`.
unfoldable pub push_at : String → String → BTreeMap (List String) → BTreeMap (List String)
push_at k v m = insert k (or_default (get k m) ++ v ∷ []) m

abbrev pub within : List String → Edge → Bool
within ids e = needed_to_start e && (contains ids e.from && contains ids e.to)

unfoldable pub push_all : List Edge → BTreeMap (List String) → BTreeMap (List String)
push_all [] m = m
push_all (e ∷ edges) m = push_all edges (push_at e.from e.to m)

unfoldable pub new : List String → List Edge → StartOutcomes
new ids edges = record {
  requirements = push_all (filter (within ids) edges) [];
  failed = [];
  blocked = [];
}

-- `first` of a sorted list.
abbrev pub least : List String → Option String
least [] = none
least (c ∷ l) = some c

module _ (o : StartOutcomes) where
  -- The root failure that one requirement stands for.
  unfoldable pub cause : String → Option String
  cause dep = of (get dep o.failed)
    where
      of : Option String → Option String
      of (some error) = some dep
      of none = get dep o.blocked

  unfoldable pub blocked_by : String → Option String
  blocked_by id = least (sort (filter_map cause (or_default (get id o.requirements))))

  abbrev pub fail : String → String → StartOutcomes
  fail id error = record o { failed = insert id error o.failed }

  abbrev pub block : String → String → StartOutcomes
  block id by = record o { blocked = insert id by o.blocked }

  -- The nodes that the failure of `id` blocked, in the order of the map.
  unfoldable pub victims : String → List String
  victims id = map (λ e. e.0) (filter (λ e. str_eq e.1 id) o.blocked)

  unfoldable pub line : String × String → String
  line e = of (victims e.0)
    where
      of : List String → String
      of [] = e.0 +ₛ (": " +ₛ e.1)
      of (v ∷ l) = e.0 +ₛ (": " +ₛ (e.1 +ₛ (" (blocked: " +ₛ (join ", " (v ∷ l) +ₛ ")"))))

  unfoldable pub error : Option String
  error = of o.failed
    where
      of : BTreeMap String → Option String
      of [] = none
      of (e ∷ l) = some (join "\n" (map line (e ∷ l)))
