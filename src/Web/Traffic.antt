-- ===== src/Web/Traffic.antt =====
-- src/web/traffic.rs: the traffic that the proxy records, in one ring for each node. Each operation
-- is one step under its locks. What subscribers are sent says no more than the state, and is left
-- out. A duration is in nanoseconds.
pub mod Body
pub mod Classify
mod Ring
mod Evict
mod Recount
mod Steps
pub mod Step
pub mod Traces
pub mod Store
pub mod Cleared
mod Examples
use fghj.Prelude.{
  ℕ, ◌+◌, ◌-◌, String, Bool, true, false, ◌||◌, ◌&&◌, Option, none, some, List, [], ◌∷◌, ◌++◌,
  length, ltb, nat_eq, is_some, if◌then◌else◌, ◌==◌, eq_ℕ, eq_pair, eq_Option, find_map,
}
use mathlib.Core.List.{reverse}
use fghj.Prelude.Split.{str_len}
use fghj.Web.Traffic.Classify.{captured, pending}
use fghj.Web.Traffic.Body.{BodyMode, Captured, BodyState, Part, Side, part_weight}

unfoldable pub max_exchanges : ℕ
max_exchanges = 1000

-- 64 MiB
unfoldable pub node_budget : ℕ
node_budget = 67108864

-- 128 MiB
unfoldable pub global_budget : ℕ
global_budget = 134217728

pub record Data : Type 0 where
  pub started_at_ms : ℕ
  pub started : ℕ
  pub mode : BodyMode
  pub method : String
  pub url : String
  pub host : String
  pub scheme : String
  pub source : String
  pub request_headers : List (String × String)
  pub response_headers : List (String × String)
  pub status : Option ℕ
  pub ttfb : Option ℕ
  pub duration : Option ℕ
  pub error : Option String
  pub upgraded : Bool
  pub request : Captured
  pub response : Captured
  pub accounted : ℕ
  pub in_ring : Bool

pub record Exchange : Type 0 where
  pub remote : Option (ℕ × ℕ)
  pub contents : Data

abbrev pub headers_weight : List (String × String) → ℕ
headers_weight [] = 0
headers_weight ((k, v) ∷ l) = (str_len k + str_len v + 4) + headers_weight l

abbrev pub parts_weight : List Part → ℕ
parts_weight [] = 0
parts_weight (p ∷ l) = part_weight p + parts_weight l

unfoldable pub weight : Data → ℕ
weight d =
    headers_weight d.request_headers
    + headers_weight d.response_headers
    + length d.request.bytes
    + length d.response.bytes
    + parts_weight d.request.parts
    + parts_weight d.response.parts

-- The exchanges are shared with those that record them, and stay when they leave the ring: here by
-- their ids, all that were ever made. The ring's entries are ids, the oldest first.
pub record TrafficLog : Type 0 where
  pub mode : Option BodyMode
  pub next_id : ℕ
  pub cleared_at_ms : ℕ
  pub exchanges : ℕ → Option Exchange
  pub entries : List ℕ
  pub bytes : ℕ

-- A log, with the count of bytes that all logs share.
pub record Shared : Type 0 where
  pub log : TrafficLog
  pub total : ℕ

unfoldable pub new : TrafficLog
new = record {
  mode = none;
  next_id = 1;
  cleared_at_ms = 0;
  exchanges = λ id. none;
  entries = [];
  bytes = 0;
}

-- A write to an exchange's data.
abbrev pub amended : (Data → Data) → Option Exchange → Option Exchange
amended f none = none
amended f (some ex) = some (record ex { contents = f ex.contents })

unfoldable pub amend : ℕ → (Data → Data) → TrafficLog → TrafficLog
amend id f log = record log {
  exchanges = λ x. if nat_eq x id then amended f (log.exchanges x) else log.exchanges x;
}

unfoldable pub accounted_of : TrafficLog → ℕ → ℕ
accounted_of log id = elim (log.exchanges id) [ none ↦ 0 | some ex ↦ ex.contents.accounted ]

abbrev pub out_of_ring : Data → Data
out_of_ring d = record d { in_ring = false }

unfoldable pub set_mode : Option BodyMode → TrafficLog → TrafficLog
set_mode mode log = record log { mode = mode }

unfoldable pub drain : List ℕ → TrafficLog → TrafficLog
drain [] log = log
drain (id ∷ ids) log = drain ids (amend id out_of_ring log)

unfoldable pub clear : ℕ → Shared → Shared
clear now s =
    let log = drain s.log.entries s.log in
    record {
      log = record log { entries = []; bytes = 0; cleared_at_ms = now };
      total = s.total - log.bytes;
    }

-- The loop's condition.
unfoldable pub is_over : List ℕ → Shared → Bool
is_over entries s =
    ltb 1 (length entries)
    && (ltb max_exchanges (length entries)
        || ltb node_budget s.log.bytes
        || ltb global_budget s.total)

unfoldable pub evict_one : ℕ → Shared → Shared
evict_one id s =
    let accounted = accounted_of s.log id in
    record {
      log = record (amend id out_of_ring s.log) { bytes = s.log.bytes - accounted };
      total = s.total - accounted;
    }

unfoldable pub evict_from : List ℕ → Shared → Shared
evict_from [] s = record s { log = record s.log { entries = [] } }
evict_from (id ∷ rest) s =
    let next = evict_from rest (evict_one id s) in
    if is_over (id ∷ rest) s then next else record s { log = record s.log { entries = id ∷ rest } }

unfoldable pub evict : Shared → Shared
unfolding evict_from
evict s = evict_from s.log.entries s

unfoldable pub push : Data → Option (ℕ × ℕ) → Shared → Shared × ℕ
push d remote s =
    let id = s.log.next_id in
    let log = record s.log {
      next_id = id + 1;
      exchanges = λ x.
          if nat_eq x id
          then some (record { remote = remote; contents = d })
          else s.log.exchanges x;
      entries = s.log.entries ++ id ∷ [];
      bytes = s.log.bytes + d.accounted;
    } in
    (evict (record { log = log; total = s.total + d.accounted }), id)

-- What the proxy's HTTP library gives of a request: `host` is the header, where it is a text, and
-- the other two are the body's headers.
pub record Request : Type 0 where
  pub method : String
  pub path_and_query : Option String
  pub uri_host : Option String
  pub host : Option String
  pub headers : List (String × String)
  pub content_type : Option String
  pub content_encoding : Option String

abbrev pub host_of : Option String → Option String → String
host_of (some h) uri_host = h
host_of none (some h) = h
host_of none none = ""

abbrev pub url_of : Option String → String
url_of none = "/"
url_of (some p) = p

unfoldable pub begun : ℕ → ℕ → Request → String → String → BodyMode → Data
begun now clock req source scheme mode = record {
  started_at_ms = now;
  started = clock;
  mode = mode;
  method = req.method;
  url = url_of req.path_and_query;
  host = host_of req.host req.uri_host;
  scheme = scheme;
  source = source;
  request_headers = req.headers;
  response_headers = [];
  status = none;
  ttfb = none;
  duration = none;
  error = none;
  upgraded = false;
  request = captured mode req.content_type req.content_encoding;
  response = pending;
  accounted = headers_weight req.headers;
  in_ring = true;
}

abbrev pub begin_in :
    ℕ → ℕ → Request → String → String → Option BodyMode → Shared → Shared × Option ℕ
begin_in now clock req source scheme none s = (s, none)
begin_in now clock req source scheme (some mode) s =
    let (next, id) = push (begun now clock req source scheme mode) none s in (next, some id)

unfoldable pub begin : ℕ → ℕ → Request → String → String → Shared → Shared × Option ℕ
begin now clock req source scheme s = begin_in now clock req source scheme s.log.mode s

-- A write to an exchange of the ring that leaves it accounted as `w`.
unfoldable pub recount : ℕ → ℕ → (Data → Data) → Shared → Shared
recount id w f s = record {
  log = record (amend id f s.log) { bytes = s.log.bytes + w - accounted_of s.log id };
  total = s.total + w - accounted_of s.log id;
}

abbrev pub as_accounted : ℕ → Data → Data
as_accounted w d = record d { accounted = w }

-- Brings the counts in line with what the exchange now holds.
unfoldable pub account : ℕ → Shared → Shared
account id s = elim (s.log.exchanges id) [
  | none ↦ s
  | some ex ↦
      let w = weight ex.contents in
      let next = evict (recount id w (as_accounted w) s) in if ex.contents.in_ring then next else s
]

abbrev pub shipped_as : Option (ℕ × ℕ) → ℕ → Option Exchange → Option ℕ
shipped_as key id none = none
shipped_as key id (some ex) = if ex.remote == key then some id else none

-- The newest exchange of the ring that another proxy shipped under that key.
unfoldable pub known : Option (ℕ × ℕ) → TrafficLog → Option ℕ
known key log = find_map (λ id. shipped_as key id (log.exchanges id)) (reverse log.entries)

pub record Shipped : Type 0 where
  pub id : ℕ
  pub contents : Data

abbrev pub shipped_data : Shipped → Data
shipped_data shipped = record shipped.contents {
  in_ring = true;
  accounted = weight shipped.contents;
}

unfoldable pub ingest : ℕ → Shipped → Shared → Shared
ingest origin shipped s =
    let key = some (origin, shipped.id) in
    if is_some s.log.mode
    then elim (known key s.log) [
      | some id ↦ evict (recount id (weight shipped.contents) (λ d. shipped_data shipped) s)
      | none ↦
          if ltb shipped.contents.started_at_ms s.log.cleared_at_ms
          then s
          else (push (shipped_data shipped) key s).0
    ]
    else s

-- What a `Recording` does to its exchange, which may have left the ring. `elapsed` is what its
-- clock reads.
unfoldable pub response :
    ℕ → ℕ → List (String × String) → Option String → Option String → Bool → ℕ → Shared → Shared
response elapsed status headers content_type content_encoding upgraded id s = account id (record s {
  log =
      amend id
        (λ d. record d {
          status = some status;
          ttfb = some elapsed;
          response_headers = headers;
          response = captured d.mode content_type content_encoding;
          upgraded = upgraded;
        })
        s.log;
})

unfoldable pub fail : ℕ → String → ℕ → Shared → Shared
fail elapsed error id s = record s {
  log =
      amend id (λ d. record d { status = some 502; error = some error; duration = some elapsed })
        s.log;
}

unfoldable pub closed : ℕ → ℕ → Shared → Shared
closed elapsed id s = record s { log = amend id (λ d. record d { duration = some elapsed }) s.log }

abbrev pub chunked : Side → List ℕ → Data → Data
chunked Side.request bytes d = record d { request = Body.push bytes d.request }
chunked Side.response bytes d = record d { response = Body.push bytes d.response }

unfoldable pub chunk : Side → List ℕ → ℕ → Shared → Shared
chunk side bytes id s = record s { log = amend id (chunked side bytes) s.log }

-- `finished` is the end of one body, as `Body.finish` reads it.
abbrev pub ended : ℕ → Side → (BodyMode → Captured → Captured) → Data → Data
ended elapsed Side.request finished d = record d { request = finished d.mode d.request }
ended elapsed Side.response finished d = record d {
  response = finished d.mode d.response;
  duration = some elapsed;
}

unfoldable pub finish : ℕ → Side → (BodyMode → Captured → Captured) → ℕ → Shared → Shared
finish elapsed side finished id s =
    account id (record s { log = amend id (ended elapsed side finished) s.log })
