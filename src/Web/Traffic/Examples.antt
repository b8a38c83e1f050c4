-- ===== src/Web/Traffic/Examples.antt =====
-- A request with a small answer: the statements about src/web/traffic.rs at a concrete input.
use fghj.Prelude.{false, none, some, List, [], ◌∷◌, ◌≡◌, refl, arith, str_eq}
use fghj.Prelude.BTreeMap.{BTreeMap, get}
use fghj.Web.Traffic.Body.{BodyMode, BodyState, Captured, Keep, Omitted, Side, push_all}
use fghj.Web.Traffic.Body.Push.{Holds, concat, push_all_lem}
use fghj.Web.Traffic.Step.{Step}
use fghj.Web.Traffic.Steps.{IsSound}
use fghj.Web.Traffic.Traces.{new-IsSound, steps, steps-IsSound}
use fghj.Web.Traffic.Cleared.{ingest_all, ingest_all-clear}
use fghj.Web.Traffic.Store.{TrafficStore, apply_modes}
use fghj.Web.Traffic.Store.Modes.{apply_modes_lem, IsApplied, log_of}
use fghj.Web.Traffic.Classify.{classify}
use fghj.Web.Traffic.{Request, begun, Shared, Shipped, clear, new}

abbrev kept : Captured
kept = record {
  keep = Keep.full;
  bytes = [];
  size = 0;
  truncated = false;
  state = BodyState.pending;
  content_type = some "application/json";
  content_encoding = none;
  parts = [];
}

abbrev get_cart : Request
get_cart = record {
  method = "GET";
  path_and_query = some "/cart";
  uri_host = none;
  host = some "api.shop.fghj.internal";
  headers = ("accept", "application/json") ∷ [];
  content_type = none;
  content_encoding = none;
}

abbrev session : List Step
session =
    Step.set_mode (some BodyMode.text)
    ∷ Step.begin 40 0 get_cart "host" "https"
    ∷ Step.response 7 200 (("content-type", "application/json") ∷ []) (some "application/json") none
        false 1
    ∷ Step.chunk Side.response (123 ∷ 125 ∷ []) 1
    ∷ Step.finish 9 Side.response (λ mode c. c) 1
    ∷ []

steps-IsSound_example : IsSound 500 (steps session (record { log = new; total = 500 }))
steps-IsSound_example =
    steps-IsSound 500 session (record { log = new; total = 500 }) (new-IsSound 500)

push_all_lem_example :
    Holds
      (concat ((123 ∷ []) ∷ (34 ∷ 97 ∷ []) ∷ (125 ∷ []) ∷ []))
      (push_all ((123 ∷ []) ∷ (34 ∷ 97 ∷ []) ∷ (125 ∷ []) ∷ []) kept)
push_all_lem_example =
    push_all_lem ((123 ∷ []) ∷ (34 ∷ 97 ∷ []) ∷ (125 ∷ []) ∷ []) kept refl refl refl refl

abbrev late : Shipped
late = record { id = 3; contents = begun 40 0 get_cart "host" "https" BodyMode.text }

abbrev busy : Shared
busy = steps session (record { log = new; total = 0 })

ingest_all-clear_example :
    (ingest_all 8 (late ∷ []) (clear 50 busy) ≡ clear 50 busy) × ((clear 50 busy).log.entries ≡ [])
unfolding begun
ingest_all-clear_example = ingest_all-clear 8 50 (late ∷ []) busy (omega arith)

abbrev recorded : TrafficStore
recorded = record {
  logs =
      (("", "api"), record new { mode = some BodyMode.all })
      ∷ (("", "web"), record new { mode = some BodyMode.text })
      ∷ [];
  total = 0;
}

abbrev only_api : BTreeMap BodyMode
only_api = ("api", BodyMode.text) ∷ []

apply_modes_lem_example :
    IsApplied 60
      (str_eq "" "")
      (get "web" only_api)
      (log_of "" "web" recorded.logs)
      (log_of "" "web" (apply_modes 60 "" only_api recorded).logs)
apply_modes_lem_example = apply_modes_lem 60 "" "" "web" only_api recorded (tt, tt)

json_with_charset : classify BodyMode.text (some " Application/JSON; charset=utf-8") ≡ Keep.full
unfolding classify
json_with_charset = refl

picture : classify BodyMode.text (some "image/png") ≡ Keep.drop Omitted.binary
unfolding classify
picture = refl
