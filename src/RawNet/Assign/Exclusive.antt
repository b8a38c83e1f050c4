-- ===== src/RawNet/Assign/Exclusive.antt =====
-- What `assign` promises the listeners: no two names share an address and a port.
use mathlib.Core.List.{Memᴰ}
use mathlib.Core.List.Permᴰ
use mathlib.Core.Path.{subst}
use mathlib.Core.Option.{some-injective}
use fghj.Prelude.{
  ℕ, suc, ◌+◌, ◌<◌, ◌≤◌, String, true, false, ◌||◌, not, some, List, [], ◌∷◌, ◌++◌, ◌≡◌, ◌≢◌, refl,
  sym, ap, ◌∙◌, arith, length-append, map, length, eq_iff,
}
use fghj.Prelude.Sets.{all-at}
use fghj.Prelude.Sorting.{mem_of_perm}
use fghj.Prelude.BTreeMap.{BTreeMap, get, insert, get-insert}
use fghj.State.Query.{RawEndpoint}
use fghj.RawNet.Assign.{
  span, Port, claims, ports_of, place, claim, in_turn, ip_for, assign, virtual_ip_for,
}
use fghj.RawNet.Assign.Free.{pick_ip-free}
use fghj.RawNet.Assign.Turn.{
  IsDistinct, port_count, IsDistinct-of_perm, port_count_of_perm, in_turn-perm,
}

module _ (sha256_head : String → ℕ) (previous : BTreeMap ℕ) where
  pub claims-append : (l k : List Port) (p : Port) → claims (l ++ k) p ≡ (claims l p || claims k p)
  unfolding claims
  claims-append [] k p = refl
  claims-append (q ∷ l) k p = ground (arith, claims-append l k p)

  claims-map :
      (ip p : ℕ) (ports : List ℕ) → Memᴰ p ports → claims (map (λ q. (ip, q)) ports) (ip, p) ≡ true
  unfolding claims
  claims-map ip p [] m = elim m [ ]
  claims-map ip p (q ∷ l) (Memᴰ.head e) = ground arith
  claims-map ip p (q ∷ l) (Memᴰ.tail m) = ground (arith, claims-map ip p l m)

  length-map : {A B : Type 0} → (f : A → B) (l : List A) → length (map f l) ≡ length l
  length-map f [] = refl
  length-map f (x ∷ l) = ap suc (length-map f l)

  abbrev places : List RawEndpoint → List Port → BTreeMap ℕ → BTreeMap ℕ
  places = place sha256_head previous

  -- A name that is not among the endpoints keeps what it has.
  get-place_other :
      (l : List RawEndpoint) (claimed : List Port) (next : BTreeMap ℕ) (name : String)
      → ((x : RawEndpoint) → Memᴰ x l → x.raw_domain ≢ name)
      → get name (places l claimed next) ≡ get name next
  unfolding place
  get-place_other [] claimed next name h = refl
  get-place_other (e ∷ l) claimed next name h =
      let ip = ip_for sha256_head previous e claimed in
      get-place_other l (claim sha256_head previous e claimed) (insert e.raw_domain ip next) name
        (λ x m. h x (Memᴰ.tail m))
      ∙ ground (
        arith,
        get-insert e.raw_domain name ip next,
        eq_iff e.raw_domain name,
        h e (Memᴰ.head refl),
      )

  -- The first endpoint gets its pick, and its ports are claimed for the rest.
  pub get-place_first :
      (e : RawEndpoint) (l : List RawEndpoint) (claimed : List Port) (next : BTreeMap ℕ)
      → IsDistinct (e ∷ l)
      → get e.raw_domain (places (e ∷ l) claimed next)
        ≡ some (ip_for sha256_head previous e claimed)
  unfolding place IsDistinct
  get-place_first e l claimed next (d, ds) =
      let ip = ip_for sha256_head previous e claimed in
      get-place_other l (claim sha256_head previous e claimed) (insert e.raw_domain ip next)
        e.raw_domain d
      ∙ ground
          (arith, get-insert e.raw_domain e.raw_domain ip next, eq_iff e.raw_domain e.raw_domain)

  length-claim :
      (e : RawEndpoint) (claimed : List Port)
      → length (claim sha256_head previous e claimed) ≡ length (ports_of e) + length claimed
  length-claim e claimed =
      let ip = ip_for sha256_head previous e claimed in
      length-append (map (λ p. (ip, p)) (ports_of e)) claimed
      ∙ ap (λ n. n + length claimed) (length-map (λ p. (ip, p)) (ports_of e))

  claims-claim :
      (e : RawEndpoint) (claimed : List Port) (p : ℕ)
      → Memᴰ p (ports_of e)
      → claims (claim sha256_head previous e claimed) (ip_for sha256_head previous e claimed, p)
        ≡ true
  claims-claim e claimed p m =
      let ip = ip_for sha256_head previous e claimed in
      ground (
        arith,
        claims-append (map (λ p. (ip, p)) (ports_of e)) claimed (ip, p),
        claims-map ip p (ports_of e) m,
      )

  some_port : (p : ℕ) (ports : List ℕ) → Memᴰ p ports → 0 < length ports
  some_port p [] m = elim m [ ]
  some_port p (q ∷ l) m = omega arith

  -- What is claimed before is not given to an endpoint.
  place-free_first :
      (x : RawEndpoint) (l : List RawEndpoint) (claimed : List Port) (next : BTreeMap ℕ) (p : ℕ)
      → IsDistinct (x ∷ l)
      → length (ports_of x) + length claimed ≤ span
      → Memᴰ p (ports_of x)
      → (ip : ℕ) × (get x.raw_domain (places (x ∷ l) claimed next) ≡ some ip)
        × (claims claimed (ip, p) ≡ false)
  place-free_first x l claimed next p d h k =
      let ip = ip_for sha256_head previous x claimed in
      let more = some_port p (ports_of x) k in
      let free =
        pick_ip-free (get x.raw_domain previous) (virtual_ip_for sha256_head x.raw_domain)
          (ports_of x) claimed (omega arith) in
      let f = all-at (λ p. not (claims claimed (ip, p))) (ports_of x) p free k in
      (ip, get-place_first x l claimed next d, ground arith)

  place-free :
      (l : List RawEndpoint) (claimed : List Port) (next : BTreeMap ℕ) (e : RawEndpoint) (p : ℕ)
      → IsDistinct l
      → port_count l + length claimed ≤ span
      → Memᴰ e l
      → Memᴰ p (ports_of e)
      → (ip : ℕ) × (get e.raw_domain (places l claimed next) ≡ some ip)
        × (claims claimed (ip, p) ≡ false)
  unfolding place IsDistinct port_count
  place-free [] claimed next e p d h m k = elim m [ ]
  place-free (x ∷ l) claimed next e p d h (Memᴰ.head q) k =
      let (ip, g, f) =
        place-free_first x l claimed next p d (omega arith)
          (subst (λ z. Memᴰ p (ports_of z)) q k) in
      (ip, ap (λ (z : RawEndpoint). get z.raw_domain (places (x ∷ l) claimed next)) q ∙ g, f)
  place-free (x ∷ l) claimed next e p (d, ds) h (Memᴰ.tail m) k =
      let ip' = ip_for sha256_head previous x claimed in
      let grown = length-claim x claimed in
      let (ip, g, f) =
        place-free l (claim sha256_head previous x claimed) (insert x.raw_domain ip' next) e p ds
          (omega arith) m k in
      (ip, g, ground (arith, claims-append (map (λ p. (ip', p)) (ports_of x)) claimed (ip, p)))

  place-apart_first :
      (x : RawEndpoint) (l : List RawEndpoint) (claimed : List Port) (next : BTreeMap ℕ)
      (a b : RawEndpoint) (p : ℕ)
      → IsDistinct (x ∷ l)
      → port_count (x ∷ l) + length claimed ≤ span
      → a ≡ x
      → Memᴰ b l
      → Memᴰ p (ports_of a)
      → Memᴰ p (ports_of b)
      → get a.raw_domain (places (x ∷ l) claimed next)
        ≢ get b.raw_domain (places (x ∷ l) claimed next)
  unfolding place IsDistinct port_count
  place-apart_first x l claimed next a b p d h q m k j same =
      let ip = ip_for sha256_head previous x claimed in
      let grown = length-claim x claimed in
      let taken = claims-claim x claimed p (subst (λ z. Memᴰ p (ports_of z)) q k) in
      let (ip', g, f) =
        place-free l (claim sha256_head previous x claimed) (insert x.raw_domain ip next) b p d.1
          (omega arith) m j in
      let at = ap (λ (z : RawEndpoint). get z.raw_domain (places (x ∷ l) claimed next)) (sym q) in
      let e : ip ≡ ip' =
        some-injective ip ip' (sym (get-place_first x l claimed next d) ∙ at ∙ same ∙ g) in
      ground
        (arith, sym taken ∙ ap (λ i. claims (claim sha256_head previous x claimed) (i, p)) e ∙ f)

  place-apart :
      (l : List RawEndpoint) (claimed : List Port) (next : BTreeMap ℕ) (a b : RawEndpoint) (p : ℕ)
      → IsDistinct l
      → port_count l + length claimed ≤ span
      → Memᴰ a l
      → Memᴰ b l
      → a.raw_domain ≢ b.raw_domain
      → Memᴰ p (ports_of a)
      → Memᴰ p (ports_of b)
      → get a.raw_domain (places l claimed next) ≢ get b.raw_domain (places l claimed next)
  unfolding place IsDistinct port_count
  place-apart [] claimed next a b p d h m n ne k j same = elim m [ ]
  place-apart (x ∷ l) claimed next a b p d h (Memᴰ.head q) (Memᴰ.head r) ne k j same =
      absurd (ne (ap (λ (z : RawEndpoint). z.raw_domain) (q ∙ sym r)))
  place-apart (x ∷ l) claimed next a b p d h (Memᴰ.head q) (Memᴰ.tail n) ne k j same =
      place-apart_first x l claimed next a b p d h q n k j same
  place-apart (x ∷ l) claimed next a b p d h (Memᴰ.tail m) (Memᴰ.head r) ne k j same =
      place-apart_first x l claimed next b a p d h r m j k (sym same)
  place-apart (x ∷ l) claimed next a b p d h (Memᴰ.tail m) (Memᴰ.tail n) ne k j same =
      let grown = length-claim x claimed in
      place-apart l (claim sha256_head previous x claimed)
        (insert x.raw_domain (ip_for sha256_head previous x claimed) next) a b p d.1 (omega arith) m
        n ne k j same

-- Whatever the hash, the previous addresses and the ports that other programs hold: if the names
-- are distinct and the ports of all endpoints and the ports held do not outnumber the addresses
-- that a probe tries, then every endpoint with a port has an address at which no other program holds
-- the port, and every endpoint of another name with the same port has an address that is not this one.
pub assign-IsExclusive :
    (sha256_head : String → ℕ) (previous : BTreeMap ℕ) (endpoints : List RawEndpoint)
    (taken : List Port) (a : RawEndpoint) (p : ℕ)
    → IsDistinct endpoints
    → port_count endpoints + length taken ≤ span
    → Memᴰ a endpoints
    → Memᴰ p (ports_of a)
    → (ip : ℕ) × (get a.raw_domain (assign sha256_head previous endpoints taken) ≡ some ip)
      × (claims taken (ip, p) ≡ false)
      × ((b : RawEndpoint)
          → Memᴰ b endpoints
          → a.raw_domain ≢ b.raw_domain
          → Memᴰ p (ports_of b)
          → (other : ℕ) × (get b.raw_domain (assign sha256_head previous endpoints taken)
              ≡ some other)
            × (ip ≢ other))
unfolding assign
assign-IsExclusive sha256_head previous endpoints taken a p d h m k =
    let turn = in_turn sha256_head previous endpoints in
    let perm = Permᴰ.symm (in_turn-perm sha256_head previous endpoints) in
    let d' = IsDistinct-of_perm perm d in
    let few : port_count turn + length taken ≤ span = omega (arith, port_count_of_perm perm) in
    let (ip, g, f) =
      place-free sha256_head previous turn taken [] a p d' few (mem_of_perm a perm m) k in
    (
      ip,
      g,
      f,
      λ b n ne j.
          let (other, g', f') =
            place-free sha256_head previous turn taken [] b p d' few (mem_of_perm b perm n) j in
          let apart =
            place-apart sha256_head previous turn taken [] a b p d' few (mem_of_perm a perm m)
              (mem_of_perm b perm n) ne k j in
          (other, g', (λ same. apart (g ∙ ap some same ∙ sym g'))),
    )
