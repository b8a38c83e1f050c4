-- ===== src/Web/Traffic/Store/Modes.antt =====
-- src/web/traffic.rs (TrafficStore::apply_modes): which nodes record afterwards.
use mathlib.Core.Path.{subst}
use fghj.Prelude.{
  Option-cases, ℕ, String, Bool, true, false, Option, ◌==◌, none, some, List, [], ◌∷◌, ◌≡◌, ◌∙◌,
  arith, refl, inl, inr, is_some, ap, str_eq, eq_iff, if◌then◌else◌, Bool-cases, equal_iff,
  eq_Option,
}
use fghj.Prelude.BTreeMap.{BTreeMap, IsSorted, get, get_of_IsAbove}
use fghj.Web.Traffic.Body.{BodyMode, eq_BodyMode}
use fghj.Web.Traffic.{Shared, TrafficLog, clear, drain, amend, out_of_ring, set_mode, new}
use fghj.Web.Traffic.Store.{
  Key, TrafficStore, apply_modes, is_key, is_other, on_log, silence_others, silenced, switch_all,
  switched,
}

-- The log of a node, if it was ever used.
unfoldable pub log_of : String → String → List (Key × TrafficLog) → Option TrafficLog
log_of workspace node [] = none
log_of workspace node ((k, log) ∷ logs) =
    if is_key workspace node k then some log else log_of workspace node logs

abbrev pub or_new : Option TrafficLog → TrafficLog
or_new none = new
or_new (some log) = log

-- A log after it stopped and was cleared: it records nothing and holds nothing, knows when it was
-- cleared, and gives no id twice.
pub record IsCleared (now : ℕ) (old log : TrafficLog) : Type 0 where
  pub mode : log.mode ≡ none
  pub entries : log.entries ≡ []
  pub bytes : log.bytes ≡ 0
  pub cleared_at_ms : log.cleared_at_ms ≡ now
  pub next_id : log.next_id ≡ old.next_id

abbrev pub AreCleared : ℕ → Option TrafficLog → Option TrafficLog → Type 0
AreCleared now none after = after ≡ none
AreCleared now (some old) after = (log : TrafficLog) × (after ≡ some log) × IsCleared now old log

-- What becomes of a node's log: of one of another workspace, of one in the set, and of one not in it.
abbrev pub IsApplied : ℕ → Bool → Option BodyMode → Option TrafficLog → Option TrafficLog → Type 0
IsApplied now false mode before after = after ≡ before
IsApplied now true (some mode) before after = after ≡ some (set_mode (some mode) (or_new before))
IsApplied now true none before after = AreCleared now before after

switched-log : (mode : BodyMode) (s : Shared) → (switched mode s).log ≡ set_mode (some mode) s.log
unfolding set_mode
switched-log mode s = elim (Bool-cases (s.log.mode == some mode)) [
  | inl e ↦
      let q = (equal_iff s.log.mode (some mode)).0 e in
      rw (e, if◌then◌else◌) (λ i. record s.log { mode = q i })
  | inr e ↦ rw (e, if◌then◌else◌) refl
]

drain-mode : (ids : List ℕ) (log : TrafficLog) → (drain ids log).mode ≡ log.mode
unfolding drain amend
drain-mode [] log = refl
drain-mode (id ∷ ids) log = drain-mode ids (amend id out_of_ring log)

drain-next_id : (ids : List ℕ) (log : TrafficLog) → (drain ids log).next_id ≡ log.next_id
unfolding drain amend
drain-next_id [] log = refl
drain-next_id (id ∷ ids) log = drain-next_id ids (amend id out_of_ring log)

clear-IsCleared : (now : ℕ) (s : Shared) → s.log.mode ≡ none → IsCleared now s.log (clear now s).log
unfolding clear
clear-IsCleared now s h = record {
  mode = drain-mode s.log.entries s.log ∙ h;
  entries = refl;
  bytes = refl;
  cleared_at_ms = refl;
  next_id = drain-next_id s.log.entries s.log;
}

silenced-IsCleared : (now : ℕ) (s : Shared) → IsCleared now s.log (silenced now s).log
unfolding set_mode
silenced-IsCleared now s = elim (Bool-cases (is_some s.log.mode)) [
  | inl e ↦
      let c = clear-IsCleared now (record s { log = set_mode none s.log }) refl in
      rw (e, if◌then◌else◌)
        (record {
          mode = c.mode;
          entries = c.entries;
          bytes = c.bytes;
          cleared_at_ms = c.cleared_at_ms;
          next_id = c.next_id;
        })
  | inr e ↦ rw (e, if◌then◌else◌) (clear-IsCleared now s (ground arith))
]

log_of-on_log :
    (ws node ws' node' : String) (mode : BodyMode) (total : ℕ) (logs : List (Key × TrafficLog))
    → log_of ws' node' (on_log ws node (switched mode) total logs).logs ≡ (
        if is_key ws' node' (ws, node)
        then some (set_mode (some mode) (or_new (log_of ws' node' logs)))
        else log_of ws' node' logs)
unfolding log_of on_log
log_of-on_log ws node ws' node' mode total [] =
    ap (λ l. if is_key ws' node' (ws, node) then some l else none)
      (switched-log mode (record { log = new; total = total }))
log_of-on_log ws node ws' node' mode total ((k, log) ∷ logs) = ground (
  arith,
  log_of-on_log ws node ws' node' mode total logs,
  switched-log mode (record { log = log; total = total }),
  eq_iff k.0 ws,
  eq_iff k.1 node,
  eq_iff k.0 ws',
  eq_iff k.1 node',
  eq_iff ws ws',
  eq_iff node node',
)

abbrev pub over : Option BodyMode → Option TrafficLog → Option TrafficLog
over none old = old
over (some mode) old = some (set_mode (some mode) (or_new old))

log_of-switch_all :
    (ws ws' node' : String) (modes : BTreeMap BodyMode) (store : TrafficStore)
    → IsSorted modes
    → log_of ws' node' (switch_all ws modes store).logs ≡ (
        if str_eq ws ws'
        then over (get node' modes) (log_of ws' node' store.logs)
        else log_of ws' node' store.logs)
unfolding switch_all get
log_of-switch_all ws ws' node' [] store h = ground arith
log_of-switch_all ws ws' node' ((node, mode) ∷ modes) store h =
    let next = on_log ws node (switched mode) store.total store.logs in
    ground (
      arith,
      log_of-switch_all ws ws' node' modes next h.1,
      log_of-on_log ws node ws' node' mode store.total store.logs,
      eq_iff node node',
      get_of_IsAbove node modes h.0 h.1,
    )

is_other-key :
    (ws ws' node' : String) (modes : BTreeMap BodyMode) (k : Key)
    → is_key ws' node' k ≡ true
    → is_other ws modes k ≡ is_other ws modes (ws', node')
is_other-key ws ws' node' modes k h =
    let p : k.0 ≡ ws' = ground (arith, eq_iff k.0 ws') in
    let q : k.1 ≡ node' = ground (arith, eq_iff k.1 node') in
    ap (λ x. is_other ws modes (x, k.1)) p ∙ ap (λ y. is_other ws modes (ws', y)) q

log_of-silence_others_kept :
    (now : ℕ) (ws ws' node' : String) (modes : BTreeMap BodyMode) (total : ℕ)
    (logs : List (Key × TrafficLog))
    → is_other ws modes (ws', node') ≡ false
    → log_of ws' node' (silence_others now ws modes total logs).logs ≡ log_of ws' node' logs
unfolding silence_others log_of
log_of-silence_others_kept now ws ws' node' modes total [] h = refl
log_of-silence_others_kept now ws ws' node' modes total ((k, log) ∷ logs) h =
    let s : Shared = record { log = log; total = total } in
    elim (Bool-cases (is_key ws' node' k)) [
      | inl e ↦ rw (e, is_other-key ws ws' node' modes k e, h) refl
      | inr e ↦ rw e (
          log_of-silence_others_kept now ws ws' node' modes
            (if is_other ws modes k then silenced now s else s).total logs h)
    ]

log_of-silence_others :
    (now : ℕ) (ws ws' node' : String) (modes : BTreeMap BodyMode) (total : ℕ)
    (logs : List (Key × TrafficLog))
    → is_other ws modes (ws', node') ≡ true
    → AreCleared now
        (log_of ws' node' logs)
        (log_of ws' node' (silence_others now ws modes total logs).logs)
unfolding silence_others log_of
log_of-silence_others now ws ws' node' modes total [] h = refl
log_of-silence_others now ws ws' node' modes total ((k, log) ∷ logs) h =
    let s : Shared = record { log = log; total = total } in
    elim (Bool-cases (is_key ws' node' k)) [
      | inl e ↦
          rw (e, is_other-key ws ws' node' modes k e, h)
            ((silenced now s).log, refl, silenced-IsCleared now s)
      | inr e ↦ rw e (
          log_of-silence_others now ws ws' node' modes
            (if is_other ws modes k then silenced now s else s).total logs h)
    ]

-- Once a recording set is applied to a workspace, the logs of its nodes are just as the set says: one
-- in the set is in its mode and otherwise what it was, made new if it was not there; one that is not
-- in the set records nothing, and is emptied and knows it. The logs of other workspaces are what they
-- were.
pub apply_modes_lem :
    (now : ℕ) (ws ws' node : String) (modes : BTreeMap BodyMode) (store : TrafficStore)
    → IsSorted modes
    → IsApplied now
        (str_eq ws ws')
        (get node modes)
        (log_of ws' node store.logs)
        (log_of ws' node (apply_modes now ws modes store).logs)
unfolding apply_modes
apply_modes_lem now ws ws' node modes store h =
    let mid = switch_all ws modes store in
    let mine = log_of-switch_all ws ws' node modes store h in
    let kept = log_of-silence_others_kept now ws ws' node modes mid.total mid.logs in
    elim (Bool-cases (str_eq ws ws')) [
      | inr e ↦
          let other : is_other ws modes (ws', node) ≡ false =
            ground (arith, eq_iff ws ws', eq_iff ws' ws) in
          rw e (kept other ∙ mine ∙ rw e refl)
      | inl e ↦
          let same : str_eq ws' ws ≡ true = ground (arith, eq_iff ws ws', eq_iff ws' ws) in
          elim (Option-cases (get node modes)) [
            | inl f ↦
                let before : log_of ws' node mid.logs ≡ log_of ws' node store.logs =
                  mine ∙ rw (e, f) refl in
                rw (e, f)
                  (subst
                    (λ o.
                      AreCleared now o
                        (log_of ws' node (silence_others now ws modes mid.total mid.logs).logs))
                    before
                    (log_of-silence_others now ws ws' node modes mid.total mid.logs
                      (rw (same, f) refl)))
            | inr (mode, f) ↦ rw (e, f) (kept (rw (same, f) refl) ∙ mine ∙ rw (e, f) refl)
          ]
    ]
