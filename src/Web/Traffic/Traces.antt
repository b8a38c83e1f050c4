-- ===== src/Web/Traffic/Traces.antt =====
-- src/web/traffic.rs: any sequence of operations on a log.
use mathlib.Core.List.{Memᴰ, reverse}
use mathlib.Core.Path.{subst}
use mathlib.Core.Option.{some-injective}
use fghj.Prelude.{
  ℕ, String, Bool, Option, none, some, List, [], ◌∷◌, ◌≡◌, inl, inr, arith, refl, if◌then◌else◌,
  is_some, Bool-cases, Option-cases, ltb, ◌==◌, eq_ℕ, eq_pair, eq_Option,
}
use fghj.Prelude.Search.{mem-find_map, mem_of_mem-reverse}
use fghj.Web.Traffic.Body.{BodyMode, Captured, Side}
use fghj.Web.Traffic.Step.{Step}
use fghj.Web.Traffic.Ring.{IsHeld, amend-IsHeld_out}
use fghj.Web.Traffic.Steps.{
  IsSound, account-IsSound, push-IsSound, recounted-IsSound, set_mode-IsSound, write-IsSound,
}
use fghj.Web.Traffic.{
  Exchange, Shared, Shipped, TrafficLog, amend, Request, begun, begin, begin_in, shipped_as, chunk,
  clear, closed, drain, fail, finish, ingest, known, new, out_of_ring, response, set_mode,
  shipped_data, weight,
}

module _ (others : ℕ) (s : Shared) (i : IsSound others s) where
  drain-IsHeld :
      (entries : List ℕ) (log : TrafficLog) → IsHeld entries log → IsHeld [] (drain entries log)
  unfolding drain
  drain-IsHeld [] log h = h
  drain-IsHeld (id ∷ rest) log h =
      drain-IsHeld rest (amend id out_of_ring log) (amend-IsHeld_out log id rest h)

  drain-bytes : (entries : List ℕ) (log : TrafficLog) → (drain entries log).bytes ≡ log.bytes
  unfolding drain amend
  drain-bytes [] log = refl
  drain-bytes (id ∷ rest) log = drain-bytes rest (amend id out_of_ring log)

  clear-IsSound : (now : ℕ) → IsSound others (clear now s)
  unfolding clear
  clear-IsSound now =
      let h = drain-IsHeld s.log.entries s.log i.ring.held in
      record {
        ring = record {
          held = record { live = h.live; gone = h.gone; ascending = h.ascending; made = h.made };
          bytes = refl;
          total = omega (arith, drain-bytes s.log.entries s.log, i.ring.total);
        };
        within = inl (omega arith);
      }

  begin_in-IsSound :
      (now clock : ℕ) (req : Request) (source scheme : String) (mode : Option BodyMode)
      → IsSound others (begin_in now clock req source scheme mode s).0
  unfolding begun
  begin_in-IsSound now clock req source scheme none = i
  begin_in-IsSound now clock req source scheme (some mode) = push-IsSound others _ none s refl i

  begin-IsSound :
      (now clock : ℕ) (req : Request) (source scheme : String)
      → IsSound others (begin now clock req source scheme s).0
  unfolding begin
  begin-IsSound now clock req source scheme =
      begin_in-IsSound now clock req source scheme s.log.mode

  mem-known : (key : Option (ℕ × ℕ)) (id : ℕ) → known key s.log ≡ some id → Memᴰ id s.log.entries
  unfolding known
  mem-known key id e =
      let (x, m, q) =
        mem-find_map (λ y. shipped_as key y (s.log.exchanges y)) (reverse s.log.entries) id e in
      subst (λ y. Memᴰ y s.log.entries) (named x (s.log.exchanges x) q)
        (mem_of_mem-reverse s.log.entries x m)
    where
      named : (x : ℕ) (o : Option Exchange) → shipped_as key x o ≡ some id → x ≡ id
      named x none q = absurd (ground arith)
      named x (some ex) q = elim (Bool-cases (ex.remote == key)) [
        | inl r ↦ some-injective x id (rw (r, if◌then◌else◌) at q)
        | inr r ↦ absurd (ground (arith, rw (r, if◌then◌else◌) at q))
      ]

  ingest-IsSound : (origin : ℕ) (shipped : Shipped) → IsSound others (ingest origin shipped s)
  unfolding ingest
  ingest-IsSound origin shipped = elim (Bool-cases (is_some s.log.mode)) [
    | inr e ↦ rw (e, if◌then◌else◌) i
    | inl e ↦ elim (Option-cases (known (some (origin, shipped.id)) s.log)) [
      | inr (id, f) ↦
          rw (e, if◌then◌else◌, f)
            (recounted-IsSound others s id (weight shipped.contents) (λ d. shipped_data shipped) i
              (mem-known (some (origin, shipped.id)) id f) (λ d q. refl) (λ d. refl))
      | inl f ↦ elim (Bool-cases (ltb shipped.contents.started_at_ms s.log.cleared_at_ms)) [
        | inl g ↦ rw (e, if◌then◌else◌, f, g) i
        | inr g ↦
            rw (e, if◌then◌else◌, f, g)
              (push-IsSound others (shipped_data shipped) (some (origin, shipped.id)) s refl i)
      ]
    ]
  ]

  response-IsSound :
      (elapsed status : ℕ) (headers : List (String × String))
      (content_type content_encoding : Option String) (upgraded : Bool) (id : ℕ)
      → IsSound others (response elapsed status headers content_type content_encoding upgraded id s)
  unfolding response
  response-IsSound elapsed status headers content_type content_encoding upgraded id =
      account-IsSound others _ id (write-IsSound others s id _ (λ d. refl) (λ d. refl) i)

  fail-IsSound : (elapsed : ℕ) (error : String) (id : ℕ) → IsSound others (fail elapsed error id s)
  unfolding fail
  fail-IsSound elapsed error id = write-IsSound others s id _ (λ d. refl) (λ d. refl) i

  closed-IsSound : (elapsed id : ℕ) → IsSound others (closed elapsed id s)
  unfolding closed
  closed-IsSound elapsed id = write-IsSound others s id _ (λ d. refl) (λ d. refl) i

  chunk-IsSound : (side : Side) (bytes : List ℕ) (id : ℕ) → IsSound others (chunk side bytes id s)
  unfolding chunk
  chunk-IsSound Side.request bytes id = write-IsSound others s id _ (λ d. refl) (λ d. refl) i
  chunk-IsSound Side.response bytes id = write-IsSound others s id _ (λ d. refl) (λ d. refl) i

  finish-IsSound :
      (elapsed : ℕ) (side : Side) (finished : BodyMode → Captured → Captured) (id : ℕ)
      → IsSound others (finish elapsed side finished id s)
  unfolding finish
  finish-IsSound elapsed Side.request finished id =
      account-IsSound others _ id (write-IsSound others s id _ (λ d. refl) (λ d. refl) i)
  finish-IsSound elapsed Side.response finished id =
      account-IsSound others _ id (write-IsSound others s id _ (λ d. refl) (λ d. refl) i)

unfoldable pub step : Step → Shared → Shared
step (Step.set_mode mode) s = record s { log = set_mode mode s.log }
step (Step.clear now) s = clear now s
step (Step.begin now clock req source scheme) s = (begin now clock req source scheme s).0
step (Step.ingest origin shipped) s = ingest origin shipped s
step (Step.response elapsed status headers content_type content_encoding upgraded id) s =
    response elapsed status headers content_type content_encoding upgraded id s
step (Step.fail elapsed error id) s = fail elapsed error id s
step (Step.closed elapsed id) s = closed elapsed id s
step (Step.chunk side bytes id) s = chunk side bytes id s
step (Step.finish elapsed side finished id) s = finish elapsed side finished id s

unfoldable pub steps : List Step → Shared → Shared
steps [] s = s
steps (a ∷ l) s = steps l (step a s)

step-IsSound : (others : ℕ) (a : Step) (s : Shared) → IsSound others s → IsSound others (step a s)
unfolding step
step-IsSound others (Step.set_mode mode) s i = set_mode-IsSound others s mode i
step-IsSound others (Step.clear now) s i = clear-IsSound others s i now
step-IsSound others (Step.begin now clock req source scheme) s i =
    begin-IsSound others s i now clock req source scheme
step-IsSound others (Step.ingest origin shipped) s i = ingest-IsSound others s i origin shipped
step-IsSound others (Step.response elapsed status headers content_type content_encoding upgraded id)
      s i =
    response-IsSound others s i elapsed status headers content_type content_encoding upgraded id
step-IsSound others (Step.fail elapsed error id) s i = fail-IsSound others s i elapsed error id
step-IsSound others (Step.closed elapsed id) s i = closed-IsSound others s i elapsed id
step-IsSound others (Step.chunk side bytes id) s i = chunk-IsSound others s i side bytes id
step-IsSound others (Step.finish elapsed side finished id) s i =
    finish-IsSound others s i elapsed side finished id

pub new-IsSound : (others : ℕ) → IsSound others (record { log = new; total = others })
unfolding new
new-IsSound others = record {
  ring = record {
    held = record {
      live = λ id m. elim m [ ];
      gone = λ id ex e q. absurd (ground arith);
      ascending = tt;
      made = λ id ex e. absurd (ground arith);
    };
    bytes = refl;
    total = omega arith;
  };
  within = inl (omega arith);
}

-- Whatever is recorded, and in whatever order: the ring's bytes are what its exchanges are
-- accounted for, the shared total is off by nothing, just the exchanges of the ring are marked as
-- in it, and the ring is in its limits, or holds one exchange at most.
pub steps-IsSound :
    (others : ℕ) (l : List Step) (s : Shared) → IsSound others s → IsSound others (steps l s)
unfolding steps
steps-IsSound others [] s i = i
steps-IsSound others (a ∷ l) s i = steps-IsSound others l (step a s) (step-IsSound others a s i)
