-- ===== src/Resolver/Graph/Starts.antt =====
-- Which nodes a run starts, and when it is refused.
use mathlib.Core.List.{Memᴰ}
use mathlib.Core.Path.{subst}
use fghj.Prelude.{
  String, true, false, some, List, [], ◌∷◌, map, str_eq, eq_iff, filter, ◌≡◌, ◌↔◌, ◌⊎◌, refl, sym,
  ap, arith, Bool-cases, inl, inr, Result,
}
use fghj.Prelude.Search.{mem-filter, mem_of_mem-filter, mem-map, mem_of_mem-map}
use fghj.Resolver.Warning.{Warning, Severity, is_blocking}
use fghj.Resolver.Graph.{
  Node, Graph, has_flow, unknown_flow, refusal, start_ids, blocking_warnings, refuse_if_blocked,
}

has_flow_iff :
    (flow : String) (flows : List String) → (has_flow flow flows ≡ true) ↔ Memᴰ flow flows
has_flow_iff flow flows = (there flows, back flows)
  where
    there : (l : List String) → has_flow flow l ≡ true → Memᴰ flow l
    there [] h = absurd (ground arith)
    there (f ∷ l) h = elim (Bool-cases (str_eq f flow)) [
      | inl e ↦ Memᴰ.head (sym ((eq_iff f flow).0 e))
      | inr e ↦ Memᴰ.tail (there l (ground arith))
    ]

    back : (l : List String) → Memᴰ flow l → has_flow flow l ≡ true
    back [] m = elim m [ ]
    back (f ∷ l) (Memᴰ.head q) = ground (arith, eq_iff f flow, q)
    back (f ∷ l) (Memᴰ.tail m) = ground (arith, back l m)

module _ (g : Graph) (flow : String) where
  -- A flow that the workspace does not have is refused, and no other; of a flow that it has, a run
  -- starts exactly the nodes that carry the flow's name.
  pub start_ids-flow :
      ((message : String) × (start_ids g (some flow) ≡ Result.err message)
        × (Memᴰ flow g.flows → ⊥))
      ⊎ ((ids : List String) × (start_ids g (some flow) ≡ Result.ok ids)
          × Memᴰ flow g.flows
          × ((id : String)
              → Memᴰ id ids ↔ ((n : Node) × Memᴰ n g.nodes × Memᴰ flow n.flows × (id ≡ n.id))))
  unfolding start_ids
  start_ids-flow = elim (Bool-cases (has_flow flow g.flows)) [
    | inl e ↦ inr (
      map (λ n. n.id) (filter (λ n. has_flow flow n.flows) g.nodes),
      rw (e, start_ids) refl,
      (has_flow_iff flow g.flows).0 e,
      λ id. (member id, carrier id),
    )
    | inr e ↦ inl (
      unknown_flow flow g.flows,
      rw (e, start_ids) refl,
      λ m. ground (arith, (has_flow_iff flow g.flows).1 m),
    )
  ]
    where
      member :
          (id : String)
          → Memᴰ id (map (λ (n : Node). n.id) (filter (λ n. has_flow flow n.flows) g.nodes))
          → (n : Node) × Memᴰ n g.nodes × Memᴰ flow n.flows × (id ≡ n.id)
      member id m =
          let (n, k, q) =
            mem_of_mem-map (λ (n : Node). n.id) (filter (λ n. has_flow flow n.flows) g.nodes) id
              m in
          let (there, carries) =
            mem_of_mem-filter (λ (n : Node). has_flow flow n.flows) g.nodes n k in
          (n, there, (has_flow_iff flow n.flows).0 carries, q)

      carrier :
          (id : String)
          → ((n : Node) × Memᴰ n g.nodes × Memᴰ flow n.flows × (id ≡ n.id))
          → Memᴰ id (map (λ (n : Node). n.id) (filter (λ n. has_flow flow n.flows) g.nodes))
      carrier id (n, there, carries, q) =
          subst
            (λ z. Memᴰ z (map (λ (n : Node). n.id) (filter (λ n. has_flow flow n.flows) g.nodes)))
            (sym q)
            (mem-map (λ (n : Node). n.id) (filter (λ n. has_flow flow n.flows) g.nodes) n
              (mem-filter (λ (n : Node). has_flow flow n.flows) g.nodes n there
                ((has_flow_iff flow n.flows).1 carries)))

refusal_nothing : (l : List Warning) → refusal l ≡ Result.ok tt → l ≡ []
refusal_nothing [] h = refl
refusal_nothing (w ∷ l) h = absurd (ground arith)

no_blocking :
    (l : List Warning)
    → ((w : Warning) → Memᴰ w l → w.severity ≡ Severity.advisory)
    → filter is_blocking l ≡ []
unfolding is_blocking
no_blocking [] h = refl
no_blocking (w ∷ l) h =
    let e : is_blocking w ≡ false = ground (arith, h w (Memᴰ.head refl)) in
    rw e (no_blocking l (λ x m. h x (Memᴰ.tail m)))

-- A run is let through just when no warning of the workspace is blocking.
refuse_if_blocked_iff :
    (g : Graph)
    → (refuse_if_blocked g ≡ Result.ok tt)
      ↔ ((w : Warning) → Memᴰ w g.warnings → w.severity ≡ Severity.advisory)
unfolding refuse_if_blocked blocking_warnings is_blocking
refuse_if_blocked_iff g = (there, back)
  where
    there :
        refuse_if_blocked g ≡ Result.ok tt
        → (w : Warning) → Memᴰ w g.warnings
        → w.severity ≡ Severity.advisory
    there h w m = elim (Bool-cases (is_blocking w)) [
      | inr e ↦ ground arith
      | inl e ↦
          elim (subst (Memᴰ w) (refusal_nothing (filter is_blocking g.warnings) h)
            (mem-filter is_blocking g.warnings w m e)) [ ]
    ]

    back :
        ((w : Warning) → Memᴰ w g.warnings → w.severity ≡ Severity.advisory)
        → refuse_if_blocked g ≡ Result.ok tt
    back h = ap refusal (no_blocking g.warnings h)
