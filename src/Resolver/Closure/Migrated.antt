-- ===== src/Resolver/Closure/Migrated.antt =====
-- What `add_migrations` returns: nothing of a store's is left without the store's migration.
use mathlib.Core.List.{Memᴰ}
use mathlib.Core.Path.{subst}
use fghj.Prelude.{
  ℕ, zero, suc, ◌<◌, ◌||◌, not, String, Bool, true, some, List, [], ◌∷◌, ◌≡◌, ◌⊎◌, refl, sym, ap,
  ◌∙◌, arith, length, inl, inr, filter, map, eq_iff, Bool-cases, Option-cases,
}
use fghj.Prelude.Sets.{contains, contains_iff, contains-add}
use fghj.Prelude.Search.{mem-filter, mem_of_mem-filter, mem-map, mem_of_mem-map}
use fghj.Resolver.Graph.{Edge, Node}
use fghj.Resolver.Search.{arcs_of, forward}
use fghj.Resolver.Search.Reach.{Reaches, length-filter_lt}
use fghj.Resolver.Search.Whole.{length-filter_le}
use fghj.Resolver.Closure.{
  required_closure, extend, is_missing, is_migration_of, missing, extended, migrate, add_migrations,
}
use fghj.Resolver.Closure.Required.{required_closure_lem}

contains-extend :
    (set l : List String) (x : String)
    → contains (extend set l) x ≡ (contains set x || contains l x)
unfolding extend contains
contains-extend set [] x = ground arith
contains-extend set (y ∷ l) x = elim (Bool-cases (contains (extend set l) y)) [
  | inl e ↦ rw e (
      ground (
        arith,
        contains-extend set l x,
        contains-extend set l y,
        eq_iff y x,
        ap (contains (extend set l)),
      ))
  | inr e ↦ rw e (ground (arith, contains-extend set l x, contains-add y x (extend set l)))
]

List-cases : (l : List String) → (l ≡ []) ⊎ ((x : String) × (k : List String) × (l ≡ x ∷ k))
List-cases [] = inl refl
List-cases (x ∷ k) = inr (x, k, refl)

-- What a set of nodes pulls in: itself, the migrations of the stores in it, and what they need.
pub data Pulled (nodes : List Node) (edges : List Edge) (set : List String) : String → Type 0 where
  given : {x : String} → Memᴰ x set → Pulled nodes edges set x
  migration :
      {store : String} (n : Node)
      → Memᴰ n nodes
      → n.migrates ≡ some store
      → Pulled nodes edges set store
      → Pulled nodes edges set n.id
  needed :
      {y x : String}
      → Pulled nodes edges set y
      → Memᴰ (y, x) (arcs_of forward edges)
      → Pulled nodes edges set x

module _ (nodes : List Node) (edges : List Edge) where
  -- Every migration of a store in the set is in the set.
  pub IsMigrated : List String → Type 0
  IsMigrated set =
      (n : Node) (store : String)
      → Memᴰ n nodes
      → n.migrates ≡ some store
      → Memᴰ store set
      → Memᴰ n.id set

  missing_member :
      (set : List String) (x : String)
      → contains (missing nodes set) x ≡ true
      → (n : Node) × Memᴰ n nodes × (is_missing set n ≡ true) × (x ≡ n.id)
  unfolding missing contains
  missing_member set x h =
      let ids = map (λ (n : Node). n.id) (filter (is_missing set) nodes) in
      let m = (contains_iff ids x).0 (ground (arith, contains-extend [] ids x)) in
      let (n, k, q) = mem_of_mem-map (λ (n : Node). n.id) (filter (is_missing set) nodes) x m in
      let (there, e) = mem_of_mem-filter (is_missing set) nodes n k in (n, there, e, q)

  none_missing : (set : List String) → missing nodes set ≡ [] → IsMigrated set
  unfolding missing contains IsMigrated
  none_missing set h n store m e k = elim (Bool-cases (contains set n.id)) [
    | inl f ↦ (contains_iff set n.id).0 f
    | inr f ↦
        let ids = map (λ (n : Node). n.id) (filter (is_missing set) nodes) in
        let lacks : is_missing set n ≡ true = ground (arith, (contains_iff set store).1 k) in
        let there = (contains_iff ids n.id).1 (
          mem-map (λ (n : Node). n.id) (filter (is_missing set) nodes) n
            (mem-filter (is_missing set) nodes n m lacks)) in
        absurd (ground (arith, contains-extend [] ids n.id, ap (λ l. contains l n.id) h))
  ]

  abbrev absent : List String → Node → Bool
  absent set n = not (contains set n.id)

  Pulled-of_reached :
      (set seeds : List String)
      → ((y : String) → contains seeds y ≡ true → Pulled nodes edges set y)
      → (x : String) → Reaches (arcs_of forward edges) (contains seeds) x
      → Pulled nodes edges set x
  Pulled-of_reached set seeds h x (Reaches.start e) = h x e
  Pulled-of_reached set seeds h x (Reaches.step {y} r m) =
      Pulled.needed (Pulled-of_reached set seeds h y r) m

  Pulled-trans :
      (set larger : List String)
      → ((y : String) → Memᴰ y larger → Pulled nodes edges set y)
      → (x : String) → Pulled nodes edges larger x
      → Pulled nodes edges set x
  Pulled-trans set larger h x (Pulled.given m) = h x m
  Pulled-trans set larger h x (Pulled.migration {store} n m e p) =
      Pulled.migration n m e (Pulled-trans set larger h store p)
  Pulled-trans set larger h x (Pulled.needed {y} p m) =
      Pulled.needed (Pulled-trans set larger h y p) m

  absent_before :
      (set l : List String) (z : Node) → absent (extend set l) z ≡ true → absent set z ≡ true
  absent_before set l z h = ground (arith, contains-extend set l z.id)

  -- One round: the missing migrations and what they need, added to the set.
  record IsRound (set next : List String) : Type 0 where
    kept : (y : String) → contains set y ≡ true → contains next y ≡ true
    pulled : (y : String) → Memᴰ y next → Pulled nodes edges set y
    fewer : length (filter (absent next) nodes) < length (filter (absent set) nodes)

  Pulled-missing :
      (set : List String) (y : String)
      → contains (missing nodes set) y ≡ true
      → Pulled nodes edges set y
  Pulled-missing set y h =
      let (n, m, e, q) = missing_member set y h in
      elim (Option-cases n.migrates) [
        | inl f ↦ absurd (ground (arith, ap (is_migration_of set) f))
        | inr (store, f) ↦
            let k = (contains_iff set store).0 (ground (arith, ap (is_migration_of set) f)) in
            subst (Pulled nodes edges set) (sym q) (Pulled.migration n m f (Pulled.given k))
      ]

  round :
      (set : List String) (x : String) (l : List String)
      → missing nodes set ≡ x ∷ l
      → (next : List String) × (extended set (required_closure edges (x ∷ l)) ≡ some next)
        × IsRound set next
  unfolding contains
  round set x l h =
      let (c, e, all) = required_closure_lem edges (x ∷ l) in
      let (n, m, lacks, q) =
        missing_member set x (ground (arith, ap (λ k. contains k x) h, eq_iff x x)) in
      let found = (contains_iff c x).1 ((all x).1 (Reaches.start (ground (arith, eq_iff x x)))) in
      (
        extend set c,
        ap (extended set) e,
        record {
          kept = λ y k. ground (arith, contains-extend set c y);
          pulled = λ y k. elim (Bool-cases (contains set y)) [
            | inl f ↦ Pulled.given ((contains_iff set y).0 f)
            | inr f ↦
                let g =
                  (contains_iff c y).0 (
                    ground (arith, contains-extend set c y, (contains_iff (extend set c) y).1 k)) in
                Pulled-of_reached set (x ∷ l)
                  (λ z w. Pulled-missing set z (ap (λ k. contains k z) h ∙ w)) y ((all y).0 g)
          ];
          fewer =
              length-filter_lt (absent set) (absent (extend set c)) nodes n (absent_before set c) m
                (ground arith)
                (ground (arith, contains-extend set c n.id, ap (contains c) (sym q) ∙ found));
        },
      )

  -- What an addition of migrations makes of a set.
  pub record IsAdded (set out : List String) : Type 0 where
    pub kept : (y : String) → Memᴰ y set → Memᴰ y out
    pub migrated : IsMigrated out
    pub pulled : (y : String) → Memᴰ y out → Pulled nodes edges set y

  migrate-IsAdded :
      (fuel : ℕ) (set : List String)
      → length (filter (absent set) nodes) < fuel
      → (out : List String) × (migrate nodes edges fuel set ≡ some out) × IsAdded set out
  unfolding migrate
  migrate-IsAdded zero set h = absurd (omega arith)
  migrate-IsAdded (suc fuel) set h = elim (List-cases (missing nodes set)) [
    | inl e ↦ (
      set,
      rw (e, migrate) refl,
      record { kept = λ y m. m; migrated = none_missing set e; pulled = λ y m. Pulled.given m },
    )
    | inr (x, l, e) ↦
        let (next, f, r) = round set x l e in
        let fewer = r.fewer in
        let (out, g, a) = migrate-IsAdded fuel next (omega arith) in
        (
          out,
          rw (e, f, migrate) g,
          record {
            kept = λ y m. a.kept y ((contains_iff next y).0 (r.kept y ((contains_iff set y).1 m)));
            migrated = a.migrated;
            pulled = λ y m. Pulled-trans set next r.pulled y (a.pulled y m);
          },
        )
  ]

-- `add_migrations` always ends. It keeps the set, and what it returns has the migration of every
-- store in it; whatever it adds is pulled in: a migration of a store that is given or pulled in, or
-- something that such a node needs to start.
pub add_migrations_lem :
    (nodes : List Node) (edges : List Edge) (set : List String)
    → (out : List String) × (add_migrations nodes edges set ≡ some out)
      × IsAdded nodes edges set out
unfolding add_migrations
add_migrations_lem nodes edges set =
    let few = length-filter_le (absent nodes edges set) nodes in
    migrate-IsAdded nodes edges (suc (length nodes)) set (omega arith)
