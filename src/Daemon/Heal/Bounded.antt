-- ===== src/Daemon/Heal/Bounded.antt =====
-- src/daemon/heal.rs: how often a node that stays down is started again.
use mathlib.Core.List.{Memᴰ}
use mathlib.Core.Path.{subst}
use fghj.Prelude.{
  ℕ, ◌+◌, ◌≤◌, String, true, false, ◌&&◌, Option, none, some, List, [], ◌∷◌, ◌≡◌, refl, sym, inl,
  inr, arith, Bool-cases, Option-cases, str_eq, eq_iff, eq_refl, if◌then◌else◌,
}
use fghj.Prelude.BTreeMap.{get}
use fghj.State.Container.{ContainerInfo, NodeCondition}
use fghj.Prelude.Search.{mem_of_mem-filter}
use fghj.Daemon.Heal.Picked.{min_by_key_lem}
use fghj.State.Workspace.{EnvState}
use fghj.Daemon.Heal.{
  Tries, TriesMap, Heal, restart, give_up, pick, choose, attempt, retain_tries, put, keeps, busy,
  fresh, max_attempts, is_up_now, or_insert, eligible, candidates, last_tried, down_nodes,
}

-- The container of the node is meant to run, and does not.
abbrev pub StaysDown : String → EnvState → Type 0
StaysDown node env =
    (c : ContainerInfo) × (get node env.containers ≡ some c)
    × (c.desired.running ≡ true)
    × (is_up_now c ≡ false)

-- One call of `pick` for a workspace.
pub record Check : Type 0 where
  pub workspace : String
  pub env : EnvState
  pub now : ℕ

abbrev pub result : String → Option Heal → List (String × Heal) → List (String × Heal)
result ws none rest = rest
result ws (some heal) rest = (ws, heal) ∷ rest

-- What a sequence of calls picks, each with its workspace.
unfoldable pub run : List Check → TriesMap → List (String × Heal)
run [] m = []
run (c ∷ l) m =
    let (heal, m') = pick c.workspace c.env c.now m in result c.workspace heal (run l m')

abbrev is_restart : String → Heal → ℕ
is_restart node (restart n condition attempt) = if str_eq n node then 1 else 0
is_restart node (give_up n) = 0

abbrev is_give_up : String → Heal → ℕ
is_give_up node (restart n condition attempt) = 0
is_give_up node (give_up n) = if str_eq n node then 1 else 0

module _ (ws node : String) where
  abbrev count_by : (Heal → ℕ) → List (String × Heal) → ℕ
  count_by f [] = 0
  count_by f ((w, heal) ∷ l) = (if str_eq w ws then f heal else 0) + count_by f l

  unfoldable pub restarts : List (String × Heal) → ℕ
  restarts = count_by (is_restart node)

  unfoldable pub give_ups : List (String × Heal) → ℕ
  give_ups = count_by (is_give_up node)

  -- What an entry says has been done.
  abbrev spent : Option Tries → ℕ
  spent none = 0
  spent (some t) = t.count

  abbrev quit : Option Tries → ℕ
  quit none = 0
  quit (some t) = if t.given_up then 1 else 0

  kept :
      (w : String) (env : EnvState) (now : ℕ) (m : TriesMap)
      → (w ≡ ws → StaysDown node env)
      → retain_tries w env now m ws node ≡ m ws node
  unfolding retain_tries keeps
  kept w env now m down = elim (Option-cases (m ws node)) [
    | inl e ↦ rw (e, retain_tries) refl
    | inr (t, e) ↦ elim (Bool-cases (str_eq ws w)) [
      | inr f ↦ rw (e, f, retain_tries) refl
      | inl f ↦
          let (c, there, wanted, off) = down (sym ((eq_iff ws w).0 f)) in
          rw (e, f, there, off, wanted, retain_tries) refl
    ]
  ]

  abbrev here : String → ℕ → ℕ
  here w n = if str_eq w ws then n else 0

  -- What one attempt adds to the entry of the node is what it does to the node.
  -- Between the entries of the node before and after a pick.
  abbrev Accounts : String → Option Heal → Option Tries → Option Tries → Type 0
  Accounts w none o o' = (spent o' ≡ spent o) × (quit o' ≡ quit o)
  Accounts w (some heal) o o' =
      (spent o' ≡ here w (is_restart node heal) + spent o)
      × (quit o' ≡ here w (is_give_up node heal) + quit o)

  abbrev Attempted : ℕ → NodeCondition → TriesMap → String → String → Type 0
  Attempted now c m w n =
      eligible now (m w n) ≡ true
      → Accounts w (some (attempt w now (n, c) m).0) (m ws node)
          ((attempt w now (n, c) m).1 ws node)
        × (spent ((attempt w now (n, c) m).1 ws node) ≤ 8)

  attempt_own :
      (now : ℕ) (c : NodeCondition) (m : TriesMap)
      → spent (m ws node) ≤ 8
      → Attempted now c m ws node
  unfolding attempt put or_insert eligible
  attempt_own now c m few ok = elim (Option-cases (m ws node)) [
    | inl e ↦ rw (e, eq_refl ws, eq_refl node) ((refl, refl), omega arith)
    | inr (t, e) ↦ known t e
  ]
    where
      known :
          (t : Tries)
          → m ws node ≡ some t
          → Accounts ws
              (some (attempt ws now (node, c) m).0)
              (m ws node)
              ((attempt ws now (node, c) m).1 ws node)
            × (spent ((attempt ws now (node, c) m).1 ws node) ≤ 8)
      known t e = ground (arith, eq_refl ws, eq_refl node)

  attempt_lem :
      (now : ℕ) (c : NodeCondition) (m : TriesMap) (w n : String)
      → spent (m ws node) ≤ 8
      → Attempted now c m w n
  unfolding attempt put or_insert eligible
  attempt_lem now c m w n few ok = elim (Bool-cases (str_eq w ws && str_eq n node)) [
    | inl e ↦
        let p : w ≡ ws = (eq_iff w ws).0 (ground arith) in
        let q : n ≡ node = (eq_iff n node).0 (ground arith) in
        subst (λ v. Attempted now c m v n) (sym p)
          (subst (λ v. Attempted now c m ws v) (sym q) (attempt_own now c m few)) ok
    | inr e ↦ ground arith
  ]

  choose_lem :
      (w : String) (env : EnvState) (now : ℕ) (m : TriesMap)
      → spent (m ws node) ≤ 8
      → Accounts w (choose w env now m).0 (m ws node) ((choose w env now m).1 ws node)
        × (spent ((choose w env now m).1 ws node) ≤ 8)
  unfolding choose candidates
  choose_lem w env now m few =
      elim (min_by_key_lem (λ (e : String × NodeCondition). last_tried (m w e.0))
        (candidates w env now m)) [
          | inl (e, none_there) ↦ rw (e, choose) ((refl, refl), few)
          | inr ((n, c), e, (there, least)) ↦
              let (k, ok) =
                mem_of_mem-filter (λ (x : String × NodeCondition). eligible now (m w x.0))
                  (down_nodes env) (n, c) there in
              rw (e, choose) (attempt_lem now c m w n few ok)
        ]

  pick_lem :
      (w : String) (env : EnvState) (now : ℕ) (m : TriesMap)
      → (w ≡ ws → StaysDown node env)
      → spent (m ws node) ≤ 8
      → Accounts w (pick w env now m).0 (m ws node) ((pick w env now m).1 ws node)
        × (spent ((pick w env now m).1 ws node) ≤ 8)
  unfolding pick
  pick_lem w env now m down few = elim (Bool-cases (busy env)) [
    | inl e ↦ rw (e, pick) ((refl, refl), few)
    | inr e ↦
        let same = kept w env now m down in
        let (a, b) = choose_lem w env now (retain_tries w env now m) (rw same few) in
        let chosen = choose w env now (retain_tries w env now m) in
        rw (e, pick) (subst (λ o. Accounts w chosen.0 o (chosen.1 ws node)) same a, b)
  ]

  tally :
      (w : String) (heal : Option Heal) (rest : List (String × Heal)) (o o' : Option Tries)
      → Accounts w heal o o'
      → restarts rest + spent o' ≤ 8
      → give_ups rest + quit o' ≤ 1
      → (restarts (result w heal rest) + spent o ≤ 8) × (give_ups (result w heal rest) + quit o ≤ 1)
  unfolding restarts give_ups
  tally w none rest o o' (p, q) h k = (omega arith, omega arith)
  tally w (some heal) rest o o' (p, q) h k = (omega arith, omega arith)

  run_lem :
      (l : List Check) (m : TriesMap)
      → ((c : Check) → Memᴰ c l → c.workspace ≡ ws → StaysDown node c.env)
      → spent (m ws node) ≤ 8
      → (restarts (run l m) + spent (m ws node) ≤ 8) × (give_ups (run l m) + quit (m ws node) ≤ 1)
  unfolding run restarts give_ups
  run_lem [] m down few = (omega arith, ground arith)
  run_lem (c ∷ l) m down few =
      let (a, b) = pick_lem c.workspace c.env c.now m (down c (Memᴰ.head refl)) few in
      let picked = pick c.workspace c.env c.now m in
      let (h, k) = run_lem l picked.1 (λ d i. down d (Memᴰ.tail i)) b in
      tally c.workspace picked.0 (run l picked.1) (m ws node) (picked.1 ws node) a h k

  -- In any sequence of checks of any workspaces, at any times, a node that is meant to run and is not
  -- running at any check of its workspace is started again at most eight times, and given up at most
  -- once.
  pub run-bounded :
      (l : List Check)
      → ((c : Check) → Memᴰ c l → c.workspace ≡ ws → StaysDown node c.env)
      → (restarts (run l fresh) ≤ max_attempts) × (give_ups (run l fresh) ≤ 1)
  unfolding fresh
  run-bounded l down = let (h, k) = run_lem l fresh down (omega arith) in (omega arith, omega arith)
