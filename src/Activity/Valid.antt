-- ===== src/Activity/Valid.antt =====
-- src/activity.rs: what holds of the log between any two of its operations.
use mathlib.Core.List.{Memᴰ}
use mathlib.Core.Path.{subst}
use fghj.Prelude.{
  ℕ, ◌+◌, ◌≤◌, ◌<◌, String, true, false, Option, none, some, List, [], ◌∷◌, ◌++◌, ◌≡◌, ◌≢◌, ◌↔◌,
  ◌⊎◌, inl, inr, arith, sym, ap, ◌∙◌, nat_eq, nat_eq_iff, Bool-cases, Option-cases, equal_iff, find,
  eq_Option, eq_String,
}
use fghj.Prelude.Pairwise.{Pairwise, Pairwise-at, Pairwise-snoc}
use fghj.Prelude.Search.{mem_of_mem-append, mem-append_left, mem-find, find-eq-none}
use fghj.Activity.Job.{Activity, Inner, ActivityKind, eq_ActivityKind}
use fghj.Activity.Tree.{IsOlder}
use fghj.Activity.{find_top, has, is_top, job, push, pushed}

-- Ids are given out in order from 1; a parent is older than its child and still there; no two
-- top-level jobs share workspace, kind and key.
pub record IsValid (inner : Inner) : Type 0 where
  pub ascending : Pairwise (λ (a b : Activity). a.id < b.id) inner.items
  pub given : (a : Activity) → Memᴰ a inner.items → (0 < a.id) × (a.id ≤ inner.next_id)
  pub older : (a : Activity) (p : ℕ) → Memᴰ a inner.items → a.parent ≡ some p → p < a.id
  pub rooted :
      (a : Activity) (p : ℕ)
      → Memᴰ a inner.items
      → a.parent ≡ some p
      → (b : Activity) × Memᴰ b inner.items × (b.id ≡ p)
  pub named :
      Pairwise
        (λ (a b : Activity). a.parent ≡ none → is_top a.workspace_id a.kind a.key b ≡ false)
        inner.items

abbrev pub IsTop : Option String → ActivityKind → String → Activity → Type 0
IsTop workspace_id kind key a =
    (a.parent ≡ none) × (a.workspace_id ≡ workspace_id) × (a.kind ≡ kind) × (a.key ≡ key)

pub is_top_iff :
    (workspace_id : Option String) (kind : ActivityKind) (key : String) (a : Activity)
    → (is_top workspace_id kind key a ≡ true) ↔ IsTop workspace_id kind key a
is_top_iff workspace_id kind key a =
    ground
      (arith, equal_iff a.workspace_id workspace_id, equal_iff a.kind kind, equal_iff a.key key)

pub has_iff : (ids : List ℕ) (x : ℕ) → (has ids x ≡ true) ↔ Memᴰ x ids
has_iff ids x = (there ids, back ids)
  where
    there : (l : List ℕ) → has l x ≡ true → Memᴰ x l
    there [] h = absurd (ground arith)
    there (y ∷ l) h = elim (Bool-cases (nat_eq y x)) [
      | inl e ↦ Memᴰ.head (sym ((nat_eq_iff y x).0 e))
      | inr e ↦ Memᴰ.tail (there l (ground arith))
    ]

    back : (l : List ℕ) → Memᴰ x l → has l x ≡ true
    back [] m = elim m [ ]
    back (y ∷ l) (Memᴰ.head q) = ground (arith, nat_eq_iff y x)
    back (y ∷ l) (Memᴰ.tail m) = ground (arith, back l m)

module _ (inner : Inner) (valid : IsValid inner) where
  pub IsValid-IsOlder : IsOlder inner
  IsValid-IsOlder = record { older = valid.older; given = λ a m. (valid.given a m).1 }

  pub same_of_id : (a b : Activity) → Memᴰ a inner.items → Memᴰ b inner.items → a.id ≡ b.id → a ≡ b
  same_of_id a b m n e = elim (Pairwise-at _ inner.items a b valid.ascending m n) [
    | inl q ↦ q
    | inr (inl lt) ↦ absurd (omega arith)
    | inr (inr lt) ↦ absurd (omega arith)
  ]

  -- There is at most one top-level job of a name.
  pub same_top :
      (workspace_id : Option String) (kind : ActivityKind) (key : String) (a b : Activity)
      → Memᴰ a inner.items
      → Memᴰ b inner.items
      → IsTop workspace_id kind key a
      → IsTop workspace_id kind key b
      → a ≡ b
  same_top workspace_id kind key a b m n s t =
      elim (Pairwise-at _ inner.items a b valid.named m n) [
        | inl q ↦ q
        | inr (inl f) ↦ absurd (ground (arith, is_top_iff a.workspace_id a.kind a.key b, f s.0))
        | inr (inr f) ↦ absurd (ground (arith, is_top_iff b.workspace_id b.kind b.key a, f t.0))
      ]

  pub push-IsValid :
      (now : ℕ) (workspace_id : Option String) (parent : Option ℕ) (kind : ActivityKind)
      (key : String)
      → ((p : ℕ) → parent ≡ some p → (b : Activity) × Memᴰ b inner.items × (b.id ≡ p))
      → (parent ≡ none
          → (a : Activity) → Memᴰ a inner.items
          → is_top workspace_id kind key a ≡ false)
      → IsValid (push now workspace_id parent kind key inner)
  unfolding push
  push-IsValid now workspace_id parent kind key rooted fresh =
      let a = pushed now (inner.next_id + 1) workspace_id parent kind key in
      record {
        ascending =
            Pairwise-snoc _ inner.items a valid.ascending
              (λ b m. omega (arith, (valid.given b m).1));
        given = λ b m. elim (mem_of_mem-append inner.items (a ∷ []) b m) [
          | inl n ↦ omega (arith, valid.given b n)
          | inr (Memᴰ.head q) ↦
              subst (λ (z : Activity). (0 < z.id) × (z.id ≤ inner.next_id + 1)) (sym q)
                (omega arith)
          | inr (Memᴰ.tail n) ↦ elim n [ ]
        ];
        older = λ b p m e. elim (mem_of_mem-append inner.items (a ∷ []) b m) [
          | inl n ↦ valid.older b p n e
          | inr (Memᴰ.head q) ↦ last b p q e (rooted p)
          | inr (Memᴰ.tail n) ↦ elim n [ ]
        ];
        rooted = λ b p m e. elim (mem_of_mem-append inner.items (a ∷ []) b m) [
          | inl n ↦ kept (valid.rooted b p n e)
          | inr (Memᴰ.head q) ↦ kept (rooted p (ap (λ (z : Activity). z.parent) (sym q) ∙ e))
          | inr (Memᴰ.tail n) ↦ elim n [ ]
        ];
        named =
            Pairwise-snoc _ inner.items a valid.named (λ b m e. apart b m e (Option-cases parent));
      }
    where
      last :
          (b : Activity) (p : ℕ)
          → b ≡ pushed now (inner.next_id + 1) workspace_id parent kind key
          → b.parent ≡ some p
          → (parent ≡ some p → (c : Activity) × Memᴰ c inner.items × (c.id ≡ p))
          → p < b.id
      last b p q e r =
          let (c, m, h) = r (ap (λ (z : Activity). z.parent) (sym q) ∙ e) in
          let i : b.id ≡ inner.next_id + 1 = ap (λ (z : Activity). z.id) q in
          omega (arith, (valid.given c m).1)

      kept :
          {p : ℕ}
          → (c : Activity) × Memᴰ c inner.items × (c.id ≡ p)
          → (c : Activity) × Memᴰ c
              (inner.items ++ pushed now (inner.next_id + 1) workspace_id parent kind key ∷ [])
            × (c.id ≡ p)
      kept (c, m, e) = (c, mem-append_left inner.items _ c m, e)

      apart :
          (b : Activity)
          → Memᴰ b inner.items
          → b.parent ≡ none
          → (parent ≡ none) ⊎ ((p : ℕ) × (parent ≡ some p))
          → is_top b.workspace_id b.kind b.key
              (pushed now (inner.next_id + 1) workspace_id parent kind key)
            ≡ false
      apart b m e (inr (p, q)) = ground arith
      apart b m e (inl q) =
          let c = pushed now (inner.next_id + 1) workspace_id parent kind key in
          elim (Bool-cases (is_top b.workspace_id b.kind b.key c)) [
            | inr f ↦ f
            | inl f ↦
                let t = (is_top_iff b.workspace_id b.kind b.key c).0 f in
                absurd (ground (arith, is_top_iff workspace_id kind key b, fresh q b m))
          ]

  pub job_of_mem : (a : Activity) → Memᴰ a inner.items → job a.id inner.items ≡ some a
  unfolding job
  job_of_mem a m = elim (Option-cases (find (λ b. nat_eq b.id a.id) inner.items)) [
    | inl e ↦ absurd (ground (arith, find-eq-none _ inner.items a e m, nat_eq_iff a.id a.id))
    | inr (b, e) ↦
        let (n, q) = mem-find _ inner.items b e in
        e ∙ ap some (same_of_id b a n m ((nat_eq_iff b.id a.id).0 q))
  ]

pub mem_of_job :
    (x : ℕ) (items : List Activity) (a : Activity)
    → job x items ≡ some a
    → Memᴰ a items × (a.id ≡ x)
unfolding job
mem_of_job x items a e = let (m, q) = mem-find _ items a e in (m, (nat_eq_iff a.id x).0 q)

module _ (inner : Inner) (workspace_id : Option String) (kind : ActivityKind) (key : String) where
  pub mem-find_top :
      (a : Activity)
      → find_top inner workspace_id kind key ≡ some a
      → Memᴰ a inner.items × IsTop workspace_id kind key a
  unfolding find_top
  mem-find_top a e =
      let (m, q) = mem-find _ inner.items a e in (m, (is_top_iff workspace_id kind key a).0 q)

  pub find_top-absent :
      find_top inner workspace_id kind key ≡ none
      → (a : Activity) → Memᴰ a inner.items
      → is_top workspace_id kind key a ≡ false
  unfolding find_top
  find_top-absent e a m = find-eq-none _ inner.items a e m

pub job-eq-none :
    (x : ℕ) (items : List Activity) (a : Activity) → job x items ≡ none → Memᴰ a items → a.id ≢ x
unfolding job
job-eq-none x items a e m q = ground (arith, find-eq-none _ items a e m, nat_eq_iff a.id x)
