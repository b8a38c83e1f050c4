-- ===== src/RawNet/Assign.antt =====
-- src/raw_net/mod.rs: which virtual address each name gets. An address is its 32-bit number.
pub mod Free
pub mod Turn
pub mod Exclusive
pub mod Stable
mod Examples
use fghj.Prelude.{
  ℕ, zero, suc, ◌+◌, ◌-◌, ◌%◌, String, Bool, true, false, ◌||◌, ◌&&◌, not, Option, none, some, List,
  [], ◌∷◌, ◌++◌, map, filter, filter_map, all, find, is_some, nat_eq, if◌then◌else◌,
}
use fghj.Prelude.Numbers.{parse_u16}
use fghj.Prelude.BTreeMap.{BTreeMap, get, insert, keys}
use fghj.Prelude.Sorting.{str_le}
use fghj.State.Query.{RawEndpoint}

-- 127.223.0.0
abbrev pub pool_base : ℕ
pool_base = 2145320960

-- `POOL_SIZE - 2`
abbrev pub span : ℕ
span = 65534

abbrev pub Port : Type 0
Port = ℕ × ℕ

-- The name's address by its hash: the first four bytes of its SHA-256, as a number.
unfoldable pub virtual_ip_for : (String → ℕ) → String → ℕ
virtual_ip_for sha256_head name = pool_base + (1 + sha256_head name % span)

unfoldable pub slot_of : ℕ → ℕ
slot_of ip = ip - pool_base - 1

abbrev pub port_eq : Port → Port → Bool
port_eq a b = nat_eq a.0 b.0 && nat_eq a.1 b.1

-- `HashSet<(Ipv4Addr, u16)>`
unfoldable pub claims : List Port → Port → Bool
claims [] p = false
claims (q ∷ l) p = port_eq q p || claims l p

abbrev pub free_at : List ℕ → List Port → ℕ → Bool
free_at ports claimed ip = all (λ p. not (claims claimed (ip, p))) ports

-- The addresses probed from step `n` on, `count` of them.
unfoldable pub probes : ℕ → ℕ → ℕ → List ℕ
probes start n zero = []
probes start n (suc count) = (pool_base + 1 + (start + n) % span) ∷ probes start (suc n) count

abbrev pub or_else : {A : Type 0} → Option A → A → A
or_else none a = a
or_else (some b) a = b

unfoldable pub probe : ℕ → List ℕ → List Port → ℕ
probe naive ports claimed =
    or_else (find (free_at ports claimed) (probes (slot_of naive) 0 span)) naive

unfoldable pub pick_ip : Option ℕ → ℕ → List ℕ → List Port → ℕ
pick_ip none naive ports claimed = probe naive ports claimed
pick_ip (some ip) naive ports claimed =
    if free_at ports claimed ip then ip else probe naive ports claimed

unfoldable pub ports_of : RawEndpoint → List ℕ
ports_of e = filter_map parse_u16 (keys e.ports)

unfoldable pub insert_by_name : RawEndpoint → List RawEndpoint → List RawEndpoint
insert_by_name e [] = e ∷ []
insert_by_name e (x ∷ l) =
    let rest = insert_by_name e l in
    if str_le e.raw_domain x.raw_domain then e ∷ x ∷ l else x ∷ rest

-- `sort_by`, which is stable.
unfoldable pub sort_by_name : List RawEndpoint → List RawEndpoint
sort_by_name [] = []
sort_by_name (e ∷ l) = insert_by_name e (sort_by_name l)

module _ (sha256_head : String → ℕ) (previous : BTreeMap ℕ) where
  abbrev pub is_incumbent : RawEndpoint → Bool
  is_incumbent e = is_some (get e.raw_domain previous)

  abbrev pub ip_for : RawEndpoint → List Port → ℕ
  ip_for e claimed =
      pick_ip (get e.raw_domain previous) (virtual_ip_for sha256_head e.raw_domain) (ports_of e)
        claimed

  abbrev pub claim : RawEndpoint → List Port → List Port
  claim e claimed = map (λ p. (ip_for e claimed, p)) (ports_of e) ++ claimed

  -- The loop over the endpoints.
  unfoldable pub place : List RawEndpoint → List Port → BTreeMap ℕ → BTreeMap ℕ
  place [] claimed next = next
  place (e ∷ l) claimed next =
      place l (claim e claimed) (insert e.raw_domain (ip_for e claimed) next)

  unfoldable pub in_turn : List RawEndpoint → List RawEndpoint
  in_turn endpoints =
      sort_by_name (filter is_incumbent endpoints)
      ++ sort_by_name (filter (λ e. not (is_incumbent e)) endpoints)

  unfoldable pub assign : List RawEndpoint → List Port → BTreeMap ℕ
  assign endpoints taken = place (in_turn endpoints) taken []

pub record RouteSpec : Type 0 where
  pub virtual_ip : ℕ
  pub container_port : ℕ
  pub host_port : ℕ

abbrev pub route : ℕ → String × ℕ → Option RouteSpec
route ip (port, host_port) = of (parse_u16 port)
  where
    of : Option ℕ → Option RouteSpec
    of none = none
    of (some p) = some (record { virtual_ip = ip; container_port = p; host_port = host_port })

module _ (sha256_head : String → ℕ) (assigned : BTreeMap ℕ) where
  -- `resolve`, the address that DNS answers for a name; `routes_for` takes the same.
  unfoldable pub resolve : String → ℕ
  resolve name = or_else (get name assigned) (virtual_ip_for sha256_head name)

  unfoldable pub routes_for : List RawEndpoint → List RouteSpec
  routes_for [] = []
  routes_for (e ∷ l) = filter_map (route (resolve e.raw_domain)) e.ports ++ routes_for l
