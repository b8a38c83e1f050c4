-- ===== src/Reducer/Invariant/Good.antt =====
-- What holds of every state that is reached: the containers are keyed by their own ids, the keys
-- are in order, and a container that is marked as interrupted is down.
use mathlib.Core.Path.{subst}
use fghj.Reducer.Views.{containers_of}
use fghj.Prelude.{
  String, false, Option, none, some, ok, err, ◌≡◌, arith, eq_iff, not, ◌&&◌, [], eq_Option,
  Option-cases, inl, inr, sym,
}
use fghj.Prelude.BTreeMap.{
  BTreeMap, IsSorted, get, insert, remove, retain, get-insert, get-remove, get-map_values,
  get-retain_of, insert-IsSorted, remove-IsSorted, retain-IsSorted, map_values-IsSorted,
}
use fghj.State.Container.{ContainerInfo, is_up, is_placeholder, eq_PendingAction}
use fghj.State.Workspace.{WorkspaceState, EnvState}
use fghj.Action.{Action, container_action_settled, env_create_settled, env_create_progress}
use fghj.Reducer.Report.{clear_create_marks, clear_pending}

pub record IsGood (j : String) (c : ContainerInfo) : Type 0 where
  pub keyed : c.node_id ≡ j
  pub down : (c.observed.interrupted && is_up c.observed) ≡ false

pub record IsGoodMap (m : BTreeMap ContainerInfo) : Type 0 where
  pub sorted : IsSorted m
  pub entries : (j : String) (c : ContainerInfo) → get j m ≡ some c → IsGood j c

abbrev pub IsConsistent : WorkspaceState → Type 0
IsConsistent s = IsGoodMap (containers_of s)

abbrev pub containers_or_empty : Option EnvState → BTreeMap ContainerInfo
containers_or_empty o = elim o [ none ↦ [] | some run ↦ run.containers ]

-- What the effects report is consistent itself: the container of the node that it is about, and
-- the environment that a create returns.
abbrev pub IsHonest : Action → Type 0
IsHonest (container_action_settled n _ (ok (some info))) = IsGood n info
IsHonest (env_create_progress _ _ _ info) = IsGood info.node_id info
IsHonest (env_create_settled (ok run)) = IsGoodMap run.containers
IsHonest (env_create_settled (err e)) = IsGoodMap (containers_or_empty e.partial)
IsHonest _ = Unit

module _ {m : BTreeMap ContainerInfo} (h : IsGoodMap m) where
  pub insert-IsGoodMap : (n : String) (c : ContainerInfo) → IsGood n c → IsGoodMap (insert n c m)
  insert-IsGoodMap n c g = record {
    sorted = insert-IsSorted n c m h.sorted;
    entries = λ j d there. ground (arith, get-insert n j c m, eq_iff n j, h.entries j d);
  }

  pub remove-IsGoodMap : (n : String) → IsGoodMap (remove n m)
  remove-IsGoodMap n = record {
    sorted = remove-IsSorted n m h.sorted;
    entries = λ j d there. ground (arith, get-remove n j m, h.entries j d);
  }

pub clear_create_marks-IsGoodMap :
    (run : EnvState) → IsGoodMap run.containers → IsGoodMap (clear_create_marks run).containers
unfolding clear_create_marks
clear_create_marks-IsGoodMap run h =
    let kept = retain (λ (c : ContainerInfo). not (is_placeholder c)) run.containers in
    record {
      sorted = map_values-IsSorted clear_pending _ (retain-IsSorted _ run.containers h.sorted);
      entries = λ j d there. elim (Option-cases (get j kept)) [
        | inl gone ↦ absurd (ground (arith, get-map_values clear_pending j kept))
        | inr (c, here) ↦ ground (
          arith,
          get-map_values clear_pending j kept,
          h.entries j c (get-retain_of _ j run.containers c h.sorted here),
        )
      ];
    }

-- What an action about node `n` does to the containers.
pub data Effect (s t : WorkspaceState) (n : String) : Type 0 where
  same : containers_of t ≡ containers_of s → Effect s t n
  put :
      (c : ContainerInfo)
      → IsGood n c
      → containers_of t ≡ insert n c (containers_of s)
      → Effect s t n
  drop : containers_of t ≡ remove n (containers_of s) → Effect s t n

pub Effect-IsConsistent :
    {s t : WorkspaceState} {n : String} → Effect s t n → IsConsistent s → IsConsistent t
Effect-IsConsistent {s} {t} {n} (same e) h = subst IsGoodMap (sym e) h
Effect-IsConsistent {s} {t} {n} (put c g e) h = subst IsGoodMap (sym e) (insert-IsGoodMap h n c g)
Effect-IsConsistent {s} {t} {n} (drop e) h = subst IsGoodMap (sym e) (remove-IsGoodMap h n)
