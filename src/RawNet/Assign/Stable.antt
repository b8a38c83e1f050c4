-- ===== src/RawNet/Assign/Stable.antt =====
-- What `assign` promises to those who are connected: a name does not move without a conflict.
use mathlib.Core.List.{Memᴰ}
use mathlib.Core.List.Permᴰ
use fghj.Prelude.{
  ℕ, String, true, false, some, List, [], ◌∷◌, ◌≡◌, ◌≢◌, refl, sym, ap, ◌∙◌, arith, inl, inr,
  Bool-cases, map, nat_eq, ◌++◌, filter, not, Option, none, is_some,
}
use fghj.Prelude.Search.{mem-append_left, mem_of_mem-filter, mem-filter}
use fghj.Prelude.Sorting.{mem_of_perm}
use fghj.Prelude.BTreeMap.{BTreeMap, get, insert}
use fghj.State.Query.{RawEndpoint}
use fghj.RawNet.Assign.{
  Port, claims, free_at, pick_ip, ports_of, place, claim, in_turn, ip_for, assign, is_incumbent,
  sort_by_name,
}
use fghj.RawNet.Assign.Turn.{IsDistinct, IsDistinct-of_perm, in_turn-perm, sort_by_name-perm}
use fghj.RawNet.Assign.Exclusive.{claims-append, get-place_first}

-- The addresses that endpoints have from before: no port of an endpoint is claimed at its own, and no
-- endpoint of another name has the same one for the same port. Endpoints that are new have none.
pub record IsSettled (previous : BTreeMap ℕ) (endpoints : List RawEndpoint) (claimed : List Port)
    : Type 0 where
  pub free :
      (e : RawEndpoint) (ip p : ℕ)
      → Memᴰ e endpoints
      → get e.raw_domain previous ≡ some ip
      → Memᴰ p (ports_of e)
      → claims claimed (ip, p) ≡ false
  pub apart :
      (a b : RawEndpoint) (ip other p : ℕ)
      → Memᴰ a endpoints
      → Memᴰ b endpoints
      → a.raw_domain ≢ b.raw_domain
      → get a.raw_domain previous ≡ some ip
      → get b.raw_domain previous ≡ some other
      → Memᴰ p (ports_of a)
      → Memᴰ p (ports_of b)
      → ip ≢ other

all_free :
    (claimed : List Port) (ip : ℕ) (ports : List ℕ)
    → ((p : ℕ) → Memᴰ p ports → claims claimed (ip, p) ≡ false)
    → free_at ports claimed ip ≡ true
all_free claimed ip [] h = refl
all_free claimed ip (p ∷ l) h =
    ground (arith, h p (Memᴰ.head refl), all_free claimed ip l (λ q m. h q (Memᴰ.tail m)))

claims-map_other :
    (ip other p : ℕ) (ports : List ℕ)
    → (Memᴰ p ports → other ≢ ip)
    → claims (map (λ q. (ip, q)) ports) (other, p) ≡ false
unfolding claims
claims-map_other ip other p [] h = refl
claims-map_other ip other p (q ∷ l) h = elim (Bool-cases (nat_eq q p)) [
  | inl e ↦
      let k : p ≡ q = ground arith in
      ground (arith, h (Memᴰ.head k), claims-map_other ip other p l (λ m. h (Memᴰ.tail m)))
  | inr e ↦ ground (arith, claims-map_other ip other p l (λ m. h (Memᴰ.tail m)))
]

module _ (sha256_head : String → ℕ) (previous : BTreeMap ℕ) where
  abbrev IsKnown : List RawEndpoint → Type 0
  IsKnown l = (e : RawEndpoint) → Memᴰ e l → (ip : ℕ) × (get e.raw_domain previous ≡ some ip)

  ip_for-kept :
      (e : RawEndpoint) (l : List RawEndpoint) (claimed : List Port) (ip : ℕ)
      → get e.raw_domain previous ≡ some ip
      → IsSettled previous (e ∷ l) claimed
      → ip_for sha256_head previous e claimed ≡ ip
  unfolding pick_ip
  ip_for-kept e l claimed ip h s =
      rw (h, pick_ip, all_free claimed ip (ports_of e) (λ p m. s.free e ip p (Memᴰ.head refl) h m))
        refl

  claim-IsSettled :
      (e : RawEndpoint) (l k : List RawEndpoint) (claimed : List Port) (ip : ℕ)
      → get e.raw_domain previous ≡ some ip
      → IsDistinct (e ∷ l ++ k)
      → IsSettled previous (e ∷ l) claimed
      → IsSettled previous l (claim sha256_head previous e claimed)
  unfolding IsDistinct
  claim-IsSettled e l k claimed ip h d s = record {
    free = λ x mine p m g j.
        let given = ip_for sha256_head previous e claimed in
        let kept = ip_for-kept e l claimed ip h s in
        let other = claims-map_other given mine p (ports_of e) (λ i same.
          s.apart x e mine ip p (Memᴰ.tail m) (Memᴰ.head refl) (d.0 x (mem-append_left l k x m)) g h
            j i (same ∙ kept)) in
        ground (
          arith,
          claims-append sha256_head previous (map (λ q. (given, q)) (ports_of e)) claimed (mine, p),
          s.free x mine p (Memᴰ.tail m) g j,
        );
    apart = λ a b i o p m n. s.apart a b i o p (Memᴰ.tail m) (Memᴰ.tail n);
  }

  -- Those that are placed first keep their addresses, whatever comes after them.
  place-kept :
      (l k : List RawEndpoint) (claimed : List Port) (next : BTreeMap ℕ) (e : RawEndpoint) (ip : ℕ)
      → IsDistinct (l ++ k)
      → IsKnown l
      → IsSettled previous l claimed
      → Memᴰ e l
      → get e.raw_domain previous ≡ some ip
      → get e.raw_domain (place sha256_head previous (l ++ k) claimed next) ≡ some ip
  unfolding place IsDistinct
  place-kept [] k claimed next e ip d known s m h = elim m [ ]
  place-kept (x ∷ l) k claimed next e ip d known s (Memᴰ.head q) h =
      ap
        (λ (z : RawEndpoint).
          get z.raw_domain (place sha256_head previous (x ∷ l ++ k) claimed next))
        q
      ∙ get-place_first sha256_head previous x (l ++ k) claimed next d
      ∙ ap some (
          ip_for-kept x l claimed ip
            (ap (λ (z : RawEndpoint). get z.raw_domain previous) (sym q) ∙ h) s)
  place-kept (x ∷ l) k claimed next e ip d known s (Memᴰ.tail m) h =
      let (mine, g) = known x (Memᴰ.head refl) in
      place-kept l k (claim sha256_head previous x claimed)
        (insert x.raw_domain (ip_for sha256_head previous x claimed) next) e ip d.1
        (λ y i. known y (Memᴰ.tail i)) (claim-IsSettled x l k claimed mine g d s) m h

-- Whatever the hash: where the names are distinct, and of those that have a previous address no two
-- share an address and a port and no other program holds a port at the address, each of these keeps
-- the address that it had. Names that are new may come in any number.
pub assign_stable :
    (sha256_head : String → ℕ) (previous : BTreeMap ℕ) (endpoints : List RawEndpoint)
    (taken : List Port) (e : RawEndpoint) (ip : ℕ)
    → IsDistinct endpoints
    → IsSettled previous endpoints taken
    → Memᴰ e endpoints
    → get e.raw_domain previous ≡ some ip
    → get e.raw_domain (assign sha256_head previous endpoints taken) ≡ some ip
unfolding assign in_turn
assign_stable sha256_head previous endpoints taken e ip d s m h =
    let old = filter (is_incumbent sha256_head previous) endpoints in
    let fresh = filter (λ x. not (is_incumbent sha256_head previous x)) endpoints in
    let listed = λ (x : RawEndpoint) (k : Memᴰ x (sort_by_name old)).
      mem_of_mem-filter (is_incumbent sha256_head previous) endpoints x
        (mem_of_perm x (sort_by_name-perm old) k) in
    let settled : IsSettled previous (sort_by_name old) taken = record {
      free = λ x i p k. s.free x i p (listed x k).0;
      apart = λ a b i o p k j. s.apart a b i o p (listed a k).0 (listed b j).0;
    } in
    place-kept sha256_head previous (sort_by_name old) (sort_by_name fresh) taken [] e ip
      (IsDistinct-of_perm (Permᴰ.symm (in_turn-perm sha256_head previous endpoints)) d)
      (λ x k. known (get x.raw_domain previous) (listed x k).1) settled
      (mem_of_perm e (Permᴰ.symm (sort_by_name-perm old))
        (mem-filter (is_incumbent sha256_head previous) endpoints e m (rw h refl)))
      h
  where
    known : (o : Option ℕ) → is_some o ≡ true → (i : ℕ) × (o ≡ some i)
    known none q = absurd (ground arith)
    known (some i) q = (i, refl)
