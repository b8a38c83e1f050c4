-- ===== src/Resolver/Uniqueness/Examples.antt =====
-- Two services that want one name: tests, and the statements about them at a concrete input.
use fghj.Prelude.{String, some, List, [], ◌∷◌, ◌++◌, ◌≡◌, ◌↔◌, refl, map, flat_map}
use fghj.Prelude.BTreeMap.{get, insert, values}
use fghj.Prelude.Text.{ends_with}
use fghj.Resolver.Config.{default_port}
use fghj.Resolver.Examples.{node}
use fghj.Resolver.Graph.{Node}
use fghj.Resolver.Warning.{Warning, new_blocking}
use fghj.Resolver.Uniqueness.{
  group, crowded, claims_of, domain_warning, container_warning, clean, trim_dashes_start,
  trim_dashes_end, sanitize_label, check_domains, check_container_names,
  check_derived_name_collisions,
}
use fghj.Resolver.Uniqueness.Reported.{
  AreContested, claimants, owners, check_derived_name_collisions_lem,
}
use fghj.Resolver.Uniqueness.Unique.{IsUnique, check_derived_name_collisions_iff}

-- The lower case of a text with no upper case.
abbrev same : String → String
same s = s

abbrev at_domain : String → String → Node
at_domain id domain = record (node id []) { domain = domain }

abbrev colliding : List Node
colliding =
    record (at_domain "a-b.c" "x.local") {
      ports = ("80", record default_port { name = some (record { text = "api" }) }) ∷ [];
    }
    ∷ record (at_domain "a.b.c" "y.local") { additional_hosts = "api.x.local" ∷ [] }
    ∷ []

abbrev taken_twice : Warning
taken_twice =
    new_blocking
      "'api.x.local' is claimed by more than one node (a-b.c (a named port), a.b.c (additional_hosts)); only one will receive its traffic, and which one is unspecified"

abbrev same_label : Warning
same_label =
    new_blocking
      "node ids a-b.c, a.b.c all reduce to the container name suffix 'a-b-c' (dots and hyphens both become '-'); only the first to start will get a container"

both_found : check_derived_name_collisions same colliding ≡ taken_twice ∷ same_label ∷ []
unfolding check_derived_name_collisions check_domains check_container_names domain_warning
    container_warning crowded group claims_of sanitize_label clean trim_dashes_start trim_dashes_end
    ends_with get insert values
both_found = refl

check_derived_name_collisions_lem_example :
    (names : List String) × (labels : List String) × AreContested (claimants colliding) names
    × AreContested (owners same colliding) labels
    × (check_derived_name_collisions same colliding
        ≡ map (λ name. domain_warning (name, claimants colliding name)) names
          ++ map (λ label. container_warning (label, owners same colliding label)) labels)
check_derived_name_collisions_lem_example = check_derived_name_collisions_lem same colliding

check_derived_name_collisions_iff_example : (check_derived_name_collisions same colliding ≡ []) ↔ (
    IsUnique (flat_map claims_of colliding)
    × IsUnique (map (λ (n : Node). (sanitize_label same n.id, n.id)) colliding))
check_derived_name_collisions_iff_example = check_derived_name_collisions_iff same colliding
