-- ===== src/Resolver/Uniqueness.antt =====
-- src/resolver/uniqueness.rs: names that more than one node would take; and src/util/label.rs. The
-- lower case of a text, a table of Unicode, is a parameter.
pub mod Grouped
pub mod Reported
pub mod Unique
pub mod Examples
use Prim.Native.Char.{Char, code}
use fghj.Prelude.{
  ℕ, ◌+◌, String, Bool, not, ◌&&◌, ◌||◌, Option, none, some, List, [], ◌∷◌, ◌++◌, map, filter,
  flat_map, length, leb, ltb, nat_eq, str_eq, if◌then◌else◌,
}
use fghj.Prelude.BTreeMap.{BTreeMap, get, insert, values}
use fghj.Prelude.Text.{join, ◌+ₛ◌, ends_with}
use fghj.Resolver.Config.{PortConfig}
use fghj.Resolver.Graph.{Node}
use fghj.Resolver.Name.{Name}
use fghj.Resolver.Warning.{Warning, new_blocking}

pub data Claim : Type 0 where
  domain named_port additional_host wildcard_host : Claim

abbrev pub describe : Claim → String
describe domain = "its own domain"
describe named_port = "a named port"
describe additional_host = "additional_hosts"
describe wildcard_host = "wildcard additional_hosts"

module _ {A : Type 0} where
  abbrev pub or_empty : Option (List A) → List A
  or_empty none = []
  or_empty (some l) = l

  -- `entry(k).or_default().push(v)` for each pair of the list.
  unfoldable pub group : List (String × A) → BTreeMap (List A) → BTreeMap (List A)
  group [] m = m
  group ((k, v) ∷ l) m = group l (insert k (or_empty (get k m) ++ v ∷ []) m)

  -- The entries with more than one value.
  unfoldable pub crowded : List (String × A) → List (String × List A)
  crowded l = filter (λ e. ltb 1 (length e.1)) (group l [])

abbrev port_claim : Node → PortConfig → List (String × (String × Claim))
port_claim n cfg = elim cfg.name [
  | none ↦ []
  | some name ↦ (name.text +ₛ ("." +ₛ n.domain), (n.id, named_port)) ∷ []
]

-- What a node claims; a stub of a service owns nothing until it is pulled.
unfoldable pub claims_of : Node → List (String × (String × Claim))
claims_of n =
    if not n.downloaded && str_eq n.kind "service"
    then []
    else (n.domain, (n.id, domain)) ∷ flat_map (port_claim n) (values n.ports)
      ++ map (λ host. (host, (n.id, additional_host))) n.additional_hosts
      ++ map (λ suffix. (suffix, (n.id, wildcard_host))) n.wildcard_hosts

unfoldable pub domain_warning : String × List (String × Claim) → Warning
domain_warning e = new_blocking (
    "'"
    +ₛ (e.0
        +ₛ ("' is claimed by more than one node ("
            +ₛ (join ", " (map (λ c. c.0 +ₛ (" (" +ₛ (describe c.1 +ₛ ")"))) e.1)
                +ₛ "); only one will receive its traffic, and which one is unspecified"))))

unfoldable pub check_domains : List Node → List Warning
check_domains nodes = map domain_warning (crowded (flat_map claims_of nodes))

abbrev is_ascii_alphanumeric : ℕ → Bool
is_ascii_alphanumeric c =
    (leb 48 c && leb c 57) || ((leb 65 c && leb c 90) || (leb 97 c && leb c 122))

abbrev one : Char → String
one c = String.◌∷◌ c String.[]

unfoldable pub clean : String → String → String
clean out String.[] = out
clean out (String.◌∷◌ c s) =
    clean
      (if is_ascii_alphanumeric (code c)
        then out +ₛ one c
        else if ends_with out "-"
        then out
        else out +ₛ "-")
      s

-- `trim_matches('-')`
unfoldable pub trim_dashes_start : String → String
trim_dashes_start String.[] = String.[]
trim_dashes_start (String.◌∷◌ c s) =
    let rest = trim_dashes_start s in if nat_eq (code c) 45 then rest else String.◌∷◌ c s

unfoldable pub trim_dashes_end : String → String
trim_dashes_end String.[] = String.[]
trim_dashes_end (String.◌∷◌ c s) =
    let rest = trim_dashes_end s in
    if nat_eq (code c) 45 && str_eq rest String.[] then String.[] else String.◌∷◌ c rest

unfoldable pub container_warning : String × List String → Warning
container_warning e = new_blocking (
    "node ids "
    +ₛ (join ", " e.1
        +ₛ (" all reduce to the container name suffix '"
            +ₛ (e.0
                +ₛ "' (dots and hyphens both become '-'); only the first to start will get a container"))))

module _ (to_lowercase : String → String) where
  unfoldable pub sanitize_label : String → String
  sanitize_label s = trim_dashes_start (trim_dashes_end (clean "" (to_lowercase s)))

  unfoldable pub check_container_names : List Node → List Warning
  check_container_names nodes =
      map container_warning (crowded (map (λ n. (sanitize_label n.id, n.id)) nodes))

  unfoldable pub check_derived_name_collisions : List Node → List Warning
  check_derived_name_collisions nodes = check_domains nodes ++ check_container_names nodes
