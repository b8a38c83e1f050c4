-- ===== src/RawNet/Assign/Examples.antt =====
-- Addresses for two names on the same port whose hashes collide: tests, and the statements about
-- them at a concrete input.
use mathlib.Core.List.{Memᴰ}
use fghj.Prelude.{
  ℕ, ◌≤◌, ◌+◌, String, false, none, some, [], ◌∷◌, List, ◌≡◌, ◌≢◌, refl, sym, ap, ◌∙◌, eq_iff,
  arith, length,
}
use fghj.Prelude.Numbers.{parse_u16, digits}
use fghj.Prelude.BTreeMap.{BTreeMap, get, keys}
use fghj.State.Query.{RawEndpoint}
use fghj.RawNet.Assign.{Port, span, claims, ports_of, assign, resolve, routes_for}
use fghj.RawNet.Assign.Turn.{IsDistinct, port_count}
use fghj.RawNet.Assign.Exclusive.{assign-IsExclusive}
use fghj.RawNet.Assign.Stable.{IsSettled, assign_stable}
use mathlib.Core.Path.{subst}

abbrev same_hash : String → ℕ
same_hash name = 7

abbrev database : String → ℕ → RawEndpoint
database name host_port = record { raw_domain = name; ports = ("5432", host_port) ∷ [] }

abbrev a : RawEndpoint
a = database "a.fghj.raw.internal" 4100

abbrev b : RawEndpoint
b = database "b.fghj.raw.internal" 4101

-- Another program holds the port at the address that the hash gives, 127.223.0.8.
abbrev held : List Port
held = (2145320968, 5432) ∷ []

parsed : ports_of a ≡ 5432 ∷ []
unfolding ports_of keys parse_u16 digits
parsed = refl

not_a_port : parse_u16 "65536" ≡ none
unfolding parse_u16 digits
not_a_port = refl

abbrev assigned : BTreeMap ℕ
assigned = (a.raw_domain, 2145320969) ∷ (b.raw_domain, 2145320970) ∷ []

route_to_b :
    routes_for same_hash assigned (b ∷ [])
    ≡ record { virtual_ip = 2145320970; container_port = 5432; host_port = 4101 } ∷ []
unfolding routes_for resolve get parse_u16 digits
route_to_b = refl

differ : a.raw_domain ≢ b.raw_domain
differ q = ground (arith, (eq_iff a.raw_domain b.raw_domain).1 q)

distinct : IsDistinct (a ∷ b ∷ [])
unfolding IsDistinct
distinct = (
  λ x m q. elim m [
    | Memᴰ.head e ↦ differ (sym q ∙ ap (λ (z : RawEndpoint). z.raw_domain) e)
    | Memᴰ.tail k ↦ elim k [ ]
  ],
  ((λ x m q. elim m [ ]), tt),
)

few : port_count (a ∷ b ∷ []) + length held ≤ span
unfolding port_count ports_of keys parse_u16 digits
few = omega arith

in_a : Memᴰ 5432 (ports_of a)
unfolding ports_of keys parse_u16 digits
in_a = Memᴰ.head refl

in_b : Memᴰ 5432 (ports_of b)
unfolding ports_of keys parse_u16 digits
in_b = Memᴰ.head refl

assign-IsExclusive_example :
    (ip : ℕ) × (get a.raw_domain (assign same_hash [] (a ∷ b ∷ []) held) ≡ some ip)
    × (claims held (ip, 5432) ≡ false)
    × ((x : RawEndpoint)
        → Memᴰ x (a ∷ b ∷ [])
        → a.raw_domain ≢ x.raw_domain
        → Memᴰ 5432 (ports_of x)
        → (other : ℕ) × (get x.raw_domain (assign same_hash [] (a ∷ b ∷ []) held) ≡ some other)
          × (ip ≢ other))
assign-IsExclusive_example =
    assign-IsExclusive same_hash [] (a ∷ b ∷ []) held a 5432 distinct few (Memᴰ.head refl) in_a

-- `b` has the address that the hash of `a`, a new name, leads to next.
abbrev before : BTreeMap ℕ
before = (b.raw_domain, 2145320969) ∷ []

for_both : (P : RawEndpoint → Type 0) → P a → P b → (e : RawEndpoint) → Memᴰ e (a ∷ b ∷ []) → P e
for_both P at_a at_b e (Memᴰ.head q) = subst P (sym q) at_a
for_both P at_a at_b e (Memᴰ.tail (Memᴰ.head q)) = subst P (sym q) at_b
for_both P at_a at_b e (Memᴰ.tail (Memᴰ.tail m)) = elim m [ ]

a_is_new : (ip : ℕ) → get a.raw_domain before ≡ some ip → ⊥
unfolding get
a_is_new ip h = absurd (ground arith)

b_was_at : (ip : ℕ) → get b.raw_domain before ≡ some ip → 2145320969 ≡ ip
unfolding get
b_was_at ip h = ground arith

settled : IsSettled before (a ∷ b ∷ []) held
unfolding claims
settled = record {
  free = λ e ip p m h k.
      for_both (λ x. get x.raw_domain before ≡ some ip → claims held (ip, p) ≡ false)
        (λ g. absurd (a_is_new ip g))
        (λ g. subst (λ i. claims held (i, p) ≡ false) (b_was_at ip g) refl) e m h;
  apart = λ x y ip other p m n ne g h k j.
      for_both (λ z. z.raw_domain ≢ y.raw_domain → get z.raw_domain before ≡ some ip → ip ≢ other)
        (λ w v. absurd (a_is_new ip v))
        (λ w v.
          for_both
            (λ z. b.raw_domain ≢ z.raw_domain → get z.raw_domain before ≡ some other → ip ≢ other)
            (λ u t. absurd (a_is_new other t)) (λ u t. absurd (u refl)) y n w h)
        x m ne g;
}

assign_stable_example :
    get b.raw_domain (assign same_hash before (a ∷ b ∷ []) held) ≡ some 2145320969
unfolding get
assign_stable_example =
    assign_stable same_hash before (a ∷ b ∷ []) held b 2145320969 distinct settled
      (Memᴰ.tail (Memᴰ.head refl)) refl
