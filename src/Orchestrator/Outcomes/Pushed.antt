-- ===== src/Orchestrator/Outcomes/Pushed.antt =====
-- src/orchestrator/order.rs: the requirements that a run's outcomes hold, as its edges list them.
use mathlib.Core.List.{Memᴰ}
use mathlib.Core.Path.{subst}
use fghj.Prelude.{
  String, List, [], ◌∷◌, ◌++◌, ◌≡◌, ◌⊎◌, inl, inr, Bool-cases, str_eq, eq_iff, eq_refl, arith, refl,
  sym, if◌then◌else◌,
}
use fghj.Prelude.Search.{mem_of_mem-append, mem-append_left, mem-append_right}
use fghj.Prelude.BTreeMap.{BTreeMap, get, get-insert}
use fghj.Resolver.Graph.{Edge}
use fghj.Orchestrator.Outcomes.{or_default, push_at, push_all}

-- What `entry(k).or_default()` holds after a push.
get-push_at :
    (k v j : String) (m : BTreeMap (List String))
    → or_default (get j (push_at k v m))
      ≡ (if str_eq k j then or_default (get k m) ++ v ∷ [] else or_default (get j m))
unfolding push_at
get-push_at k v j m = ground (arith, get-insert k j (or_default (get k m) ++ v ∷ []) m)

pub mem-push_all :
    (edges : List Edge) (m : BTreeMap (List String)) (id dep : String)
    → Memᴰ dep (or_default (get id (push_all edges m)))
    → Memᴰ dep (or_default (get id m)) ⊎ ((e : Edge) × Memᴰ e edges × (e.from ≡ id) × (e.to ≡ dep))
unfolding push_all
mem-push_all [] m id dep k = inl k
mem-push_all (e ∷ edges) m id dep k = elim (mem-push_all edges (push_at e.from e.to m) id dep k) [
  | inr (x, there, p, q) ↦ inr (x, Memᴰ.tail there, p, q)
  | inl j ↦ elim (Bool-cases (str_eq e.from id)) [
    | inr f ↦ inl (rw (get-push_at e.from e.to id m, f) at j)
    | inl f ↦ here ((eq_iff e.from id).0 f) (rw (get-push_at e.from e.to id m, f) at j)
  ]
]
  where
    here :
        e.from ≡ id
        → Memᴰ dep (or_default (get e.from m) ++ e.to ∷ [])
        → Memᴰ dep (or_default (get id m))
          ⊎ ((x : Edge) × Memᴰ x (e ∷ edges) × (x.from ≡ id) × (x.to ≡ dep))
    here f k = elim (mem_of_mem-append (or_default (get e.from m)) (e.to ∷ []) dep k) [
      | inl j ↦ inl (subst (λ x. Memᴰ dep (or_default (get x m))) f j)
      | inr (Memᴰ.head q) ↦ inr (e, Memᴰ.head refl, f, sym q)
      | inr (Memᴰ.tail j) ↦ elim j [ ]
    ]

mem-push_all_old :
    (edges : List Edge) (m : BTreeMap (List String)) (id dep : String)
    → Memᴰ dep (or_default (get id m))
    → Memᴰ dep (or_default (get id (push_all edges m)))
unfolding push_all
mem-push_all_old [] m id dep k = k
mem-push_all_old (e ∷ edges) m id dep k =
    mem-push_all_old edges (push_at e.from e.to m) id dep (elim (Bool-cases (str_eq e.from id)) [
      | inl f ↦
          rw (get-push_at e.from e.to id m, f)
            (mem-append_left (or_default (get e.from m)) (e.to ∷ []) dep
              (subst (λ x. Memᴰ dep (or_default (get x m))) (sym ((eq_iff e.from id).0 f)) k))
      | inr f ↦ rw (get-push_at e.from e.to id m, f) k
    ])

pub mem-push_all_new :
    (edges : List Edge) (m : BTreeMap (List String)) (e : Edge)
    → Memᴰ e edges
    → Memᴰ e.to (or_default (get e.from (push_all edges m)))
unfolding push_all
mem-push_all_new [] m e k = elim k [ ]
mem-push_all_new (x ∷ edges) m e (Memᴰ.tail k) = mem-push_all_new edges (push_at x.from x.to m) e k
mem-push_all_new (x ∷ edges) m e (Memᴰ.head q) =
    subst
      (λ (z : Edge). Memᴰ z.to (or_default (get z.from (push_all edges (push_at x.from x.to m)))))
      (sym q) (mem-push_all_old edges (push_at x.from x.to m) x.from x.to pushed)
  where
    pushed : Memᴰ x.to (or_default (get x.from (push_at x.from x.to m)))
    pushed =
        rw (get-push_at x.from x.to x.from m, eq_refl x.from)
          (mem-append_right (or_default (get x.from m)) (x.to ∷ []) x.to (Memᴰ.head refl))
