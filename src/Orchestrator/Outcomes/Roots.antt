-- ===== src/Orchestrator/Outcomes/Roots.antt =====
-- Why a node is blocked: always for a failure that its requirements lead to.
use mathlib.Core.List.{Memᴰ}
use mathlib.Core.Path.{subst}
use mathlib.Core.Option.{some-injective}
use fghj.Prelude.{
  String, true, none, some, List, [], ◌∷◌, ◌≡◌, ◌↔◌, inl, inr, filter, filter_map, is_some,
  Bool-cases, Option-cases, str_eq, eq_iff, arith, refl, sym, ap, ◌∙◌,
}
use fghj.Prelude.Search.{mem_of_mem-filter, mem-filter, mem-filter_map, mem_of_mem-filter_map}
use fghj.Prelude.Sorting.{sort, mem-sort, mem_of_mem-sort}
use fghj.Prelude.BTreeMap.{BTreeMap, get, get-nil, get-insert}
use fghj.Resolver.Graph.{Edge}
use fghj.Orchestrator.Outcomes.{
  StartOutcomes, or_default, push_all, within, new, cause, least, blocked_by, fail, block,
}
use fghj.Orchestrator.Outcomes.Pushed.{mem-push_all, mem-push_all_new}

-- A node cannot start without another: a chain of edges that order a start, inside the set.
pub data Needs (ids : List String) (edges : List Edge) : String → String → Type 0 where
  one :
      {a b : String} (e : Edge)
      → Memᴰ e edges
      → within ids e ≡ true
      → e.from ≡ a
      → e.to ≡ b
      → Needs ids edges a b
  more : {a b c : String} → Needs ids edges a b → Needs ids edges b c → Needs ids edges a c

-- The outcomes of a run as its loop records them: a node fails, or it is blocked by what
-- `blocked_by` answers for it.
pub data Records (ids : List String) (edges : List Edge) : StartOutcomes → Type 0 where
  start : Records ids edges (new ids edges)
  failed :
      {o : StartOutcomes} (id error : String)
      → Records ids edges o
      → Records ids edges (fail o id error)
  blocked :
      {o : StartOutcomes} (id by : String)
      → blocked_by o id ≡ some by
      → Records ids edges o
      → Records ids edges (block o id by)

cause-eq-none :
    (o : StartOutcomes) (dep : String)
    → (cause o dep ≡ none) ↔ ((get dep o.failed ≡ none) × (get dep o.blocked ≡ none))
unfolding cause
cause-eq-none o dep = ground arith

mem-least : (l : List String) (c : String) → least l ≡ some c → Memᴰ c l
mem-least [] c h = absurd (ground arith)
mem-least (x ∷ l) c h = Memᴰ.head (sym (some-injective x c h))

least-eq-none : (l : List String) → least l ≡ none → l ≡ []
least-eq-none [] h = refl
least-eq-none (x ∷ l) h = absurd (ground arith)

module _ (ids : List String) (edges : List Edge) where
  record IsRooted (o : StartOutcomes) : Type 0 where
    same : o.requirements ≡ push_all (filter (within ids) edges) []
    rooted :
        (id by : String)
        → get id o.blocked ≡ some by
        → (is_some (get by o.failed) ≡ true) × Needs ids edges id by

  needs_of_requirement :
      (id dep : String)
      → Memᴰ dep (or_default (get id (push_all (filter (within ids) edges) [])))
      → Needs ids edges id dep
  unfolding get
  needs_of_requirement id dep m = elim (mem-push_all (filter (within ids) edges) [] id dep m) [
    | inl k ↦ elim k [ ]
    | inr (e, k, p, q) ↦
        let (there, w) = mem_of_mem-filter (within ids) edges e k in Needs.one e there w p q
  ]

  cause-root :
      (o : StartOutcomes) (id dep by : String)
      → IsRooted o
      → Needs ids edges id dep
      → cause o dep ≡ some by
      → (is_some (get by o.failed) ≡ true) × Needs ids edges id by
  unfolding cause
  cause-root o id dep by r n e = elim (Option-cases (get dep o.failed)) [
    | inr (x, f) ↦
        let q : dep ≡ by = some-injective dep by (rw (f, cause) at e) in
        subst (λ z. (is_some (get z o.failed) ≡ true) × Needs ids edges id z) q (ground arith, n)
    | inl f ↦ let (g, k) = r.rooted dep by (rw (f, cause) at e) in (g, Needs.more n k)
  ]

  blocked_by-root :
      (o : StartOutcomes) (id by : String)
      → IsRooted o
      → blocked_by o id ≡ some by
      → (is_some (get by o.failed) ≡ true) × Needs ids edges id by
  unfolding blocked_by
  blocked_by-root o id by r h =
      let deps = or_default (get id o.requirements) in
      let found = filter_map (cause o) deps in
      let (dep, k, e) =
        mem_of_mem-filter_map (cause o) deps by
          (mem_of_mem-sort by found (mem-least (sort found) by h)) in
      cause-root o id dep by r
        (needs_of_requirement id dep
          (subst (λ (l : BTreeMap (List String)). Memᴰ dep (or_default (get id l))) r.same k))
        e

  Records-IsRooted : (o : StartOutcomes) → Records ids edges o → IsRooted o
  unfolding new get
  Records-IsRooted o Records.start = record {
    same = refl;
    rooted = λ id by h. absurd (ground arith);
  }
  Records-IsRooted o (Records.failed {o = p} id error r) =
      let i = Records-IsRooted p r in
      record {
        same = i.same;
        rooted = λ x y h.
            let (f, n) = i.rooted x y h in (ground (arith, get-insert id y error p.failed), n);
      }
  Records-IsRooted o (Records.blocked {o = p} id by h r) =
      let i = Records-IsRooted p r in
      let root = blocked_by-root p id by i h in
      record {
        same = i.same;
        rooted = λ x y e. elim (Bool-cases (str_eq id x)) [
          | inl f ↦
              let q : by ≡ y = some-injective by y (rw (get-insert id x by p.blocked, f) at e) in
              subst (λ z. (is_some (get z p.failed) ≡ true) × Needs ids edges x z) q
                (subst (λ z. (is_some (get by p.failed) ≡ true) × Needs ids edges z by)
                  ((eq_iff id x).0 f) root)
          | inr f ↦ i.rooted x y (rw (get-insert id x by p.blocked, f) at e)
        ];
      }

-- Of a run's outcomes, recorded as its loop does: whatever a node was blocked by is a node that
-- failed, and the blocked node needs it to start, through edges between nodes of the run.
pub blocked_for_root :
    (ids : List String) (edges : List Edge) (o : StartOutcomes) (id by : String)
    → Records ids edges o
    → get id o.blocked ≡ some by
    → (is_some (get by o.failed) ≡ true) × Needs ids edges id by
blocked_for_root ids edges o id by r h = (Records-IsRooted ids edges o r).rooted id by h

-- Of a run's outcomes, recorded as its loop does: `blocked_by` lets a node start just when none of
-- its requirements among the nodes of the run has failed or was blocked.
pub blocked_by-eq-none_iff :
    (ids : List String) (edges : List Edge) (o : StartOutcomes) (id : String)
    → Records ids edges o
    → (blocked_by o id ≡ none) ↔ (
        (e : Edge)
        → Memᴰ e edges
        → within ids e ≡ true
        → e.from ≡ id
        → (get e.to o.failed ≡ none) × (get e.to o.blocked ≡ none))
unfolding blocked_by cause
blocked_by-eq-none_iff ids edges o id r = (there, back)
  where
    same : o.requirements ≡ push_all (filter (within ids) edges) []
    same = (Records-IsRooted ids edges o r).same

    deps : List String
    deps = or_default (get id o.requirements)

    requirement : (e : Edge) → Memᴰ e edges → within ids e ≡ true → e.from ≡ id → Memᴰ e.to deps
    requirement e m w q =
        subst (λ (l : BTreeMap (List String)). Memᴰ e.to (or_default (get id l))) (sym same)
          (subst (λ z. Memᴰ e.to (or_default (get z (push_all (filter (within ids) edges) [])))) q
            (mem-push_all_new (filter (within ids) edges) [] e
              (mem-filter (within ids) edges e m w)))

    there :
        blocked_by o id ≡ none
        → (e : Edge) → Memᴰ e edges
        → within ids e ≡ true
        → e.from ≡ id
        → (get e.to o.failed ≡ none) × (get e.to o.blocked ≡ none)
    there h e m w q = elim (Option-cases (cause o e.to)) [
      | inl f ↦ (cause-eq-none o e.to).0 f
      | inr (c, f) ↦
          let k =
            mem-sort c (filter_map (cause o) deps)
              (mem-filter_map (cause o) deps e.to c (requirement e m w q) f) in
          elim (subst (Memᴰ c) (least-eq-none (sort (filter_map (cause o) deps)) h) k) [ ]
    ]

    free :
        ((e : Edge)
          → Memᴰ e edges
          → within ids e ≡ true
          → e.from ≡ id
          → (get e.to o.failed ≡ none) × (get e.to o.blocked ≡ none))
        → (dep : String) → Memᴰ dep deps
        → cause o dep ≡ none
    free h dep m =
        let m' = subst (λ (l : BTreeMap (List String)). Memᴰ dep (or_default (get id l))) same m in
        elim (mem-push_all (filter (within ids) edges) [] id dep m') [
          | inl k ↦ elim (subst (λ l. Memᴰ dep (or_default l)) (get-nil {V = List String} id) k) [ ]
          | inr (e, k, p, q) ↦
              let (there, w) = mem_of_mem-filter (within ids) edges e k in
              ap (cause o) (sym q) ∙ (cause-eq-none o e.to).1 (h e there w p)
        ]

    back :
        ((e : Edge)
          → Memᴰ e edges
          → within ids e ≡ true
          → e.from ≡ id
          → (get e.to o.failed ≡ none) × (get e.to o.blocked ≡ none))
        → blocked_by o id ≡ none
    back h = elim (Option-cases (blocked_by o id)) [
      | inl e ↦ e
      | inr (c, e) ↦
          let found = filter_map (cause o) deps in
          let (dep, m, q) =
            mem_of_mem-filter_map (cause o) deps c
              (mem_of_mem-sort c found (mem-least (sort found) c e)) in
          absurd (ground (arith, q, free h dep m))
    ]
