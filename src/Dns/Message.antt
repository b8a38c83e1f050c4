-- ===== src/Dns/Message.antt =====
-- src/dns/mod.rs: reading a query and writing its response. A message is its bytes; the place in
-- it is the rest that is still to be read. A name is the code points of its labels, dots between.
pub mod Echo
pub mod Encode
pub mod Names
use fghj.Prelude.{
  ℕ, zero, suc, ◌+◌, ◌-◌, ◌*◌, ◌/◌, ◌%◌, Bool, true, false, not, Option, none, some, List, [], ◌∷◌,
  ◌++◌, map, length, take, leb, nat_eq, ◌&&◌, is_some, if◌then◌else◌,
}
use fghj.Dns.Utf8.{decode, lower}

pub record Query : Type 0 where
  pub id : ℕ
  pub opcode : ℕ
  pub rd : Bool
  pub qname : List ℕ
  pub qtype : ℕ
  pub qclass : ℕ
  pub question_bytes : List ℕ

-- `u16::from_be_bytes` and `to_be_bytes`
abbrev pub from_be : ℕ → ℕ → ℕ
from_be high low = 256 * high + low

abbrev pub to_be : ℕ → List ℕ
to_be n = (n / 256) % 256 ∷ n % 256 ∷ []

-- `buf.get(pos..pos + len)`, and what follows; `none` if the message is too short.
unfoldable pub split_at : ℕ → List ℕ → Option (List ℕ × List ℕ)
split_at zero buf = some ([], buf)
split_at (suc n) [] = none
split_at (suc n) (b ∷ buf) = elim (split_at n buf) [ none ↦ none | some (l, r) ↦ some (b ∷ l, r) ]

abbrev pub cons_label : List ℕ → Option (List (List ℕ) × List ℕ) → Option (List (List ℕ) × List ℕ)
cons_label label none = none
cons_label label (some (labels, rest)) = some (label ∷ labels, rest)

-- The loop over the labels; the fuel bounds their number.
unfoldable pub read_labels : ℕ → List ℕ → Option (List (List ℕ) × List ℕ)
read_labels zero buf = none
read_labels (suc fuel) [] = none
read_labels (suc fuel) (len ∷ buf) =
    let more : Option (List (List ℕ) × List ℕ) = elim (split_at len buf) [
      | none ↦ none
      | some (label, rest) ↦ cons_label label (read_labels fuel rest)
    ] in
    if nat_eq len 0 then some ([], buf) else if leb 64 len then none else more

-- `labels.join(".")`
unfoldable pub join_labels : List (List ℕ) → List ℕ
join_labels [] = []
join_labels (label ∷ []) = label
join_labels (label ∷ l ∷ labels) = label ++ (46 ∷ join_labels (l ∷ labels))

module _ (id opcode : ℕ) (rd : Bool) (question : List ℕ) where
  -- What follows the labels: the type and the class.
  abbrev pub fixed_part : List (List ℕ) → List ℕ → Option Query
  fixed_part labels (t1 ∷ t0 ∷ c1 ∷ c0 ∷ rest) = some (record {
    id = id;
    opcode = opcode;
    rd = rd;
    qname = join_labels (map (decode none) labels);
    qtype = from_be t1 t0;
    qclass = from_be c1 c0;
    question_bytes = take (length question - length rest) question;
  })
  fixed_part labels rest = none

  unfoldable pub read_question : Option (List (List ℕ) × List ℕ) → Option Query
  read_question none = none
  read_question (some (labels, rest)) = fixed_part labels rest

unfoldable pub parse_query : List ℕ → Option Query
parse_query (i1 ∷ i0 ∷ f0 ∷ f1 ∷ q1 ∷ q0 ∷ _ ∷ _ ∷ _ ∷ _ ∷ _ ∷ _ ∷ question) =
    let labels = read_labels (suc (length question)) question in
    let query =
      read_question (from_be i1 i0) ((f0 / 8) % 16) (not (nat_eq (f0 % 2) 0)) question labels in
    if nat_eq (from_be q1 q0) 1 then query else none
parse_query buf = none

-- An IPv4 address: its octets.
pub record Ipv4 : Type 0 where
  pub a : ℕ
  pub b : ℕ
  pub c : ℕ
  pub d : ℕ

unfoldable pub rcode : Query → Bool → ℕ
rcode q zone_hit = if not (nat_eq q.opcode 0) then 4 else if zone_hit then 0 else 3

unfoldable pub answer_hit : Query → Option Ipv4 → Bool
answer_hit q answer = is_some answer && (nat_eq q.qtype 1 && nat_eq q.qclass 1)

-- The bits are apart, so that `|` is a sum.
unfoldable pub flags0 : Query → Bool → ℕ
flags0 q zone_hit =
    128 + (8 * (q.opcode % 16) + ((if zone_hit then 4 else 0) + (if q.rd then 1 else 0)))

-- The answer's record: a pointer to the question's name, the type A, the class IN, five seconds to
-- live, and four octets.
abbrev pub record_of : Option Ipv4 → List ℕ
record_of none = []
record_of (some ip) =
    192 ∷ 12 ∷ 0 ∷ 1 ∷ 0 ∷ 1 ∷ 0 ∷ 0 ∷ 0 ∷ 5 ∷ 0 ∷ 4 ∷ ip.a ∷ ip.b ∷ ip.c ∷ ip.d ∷ []

unfoldable pub build_response : Query → Option Ipv4 → List ℕ
build_response q answer =
    let zone_hit = is_some answer in
    let hit = answer_hit q answer in
    (q.id / 256) % 256
    ∷ q.id % 256
    ∷ flags0 q zone_hit
    ∷ rcode q zone_hit % 16
    ∷ 0
    ∷ 1
    ∷ 0
    ∷ (if hit then 1 else 0)
    ∷ 0
    ∷ 0
    ∷ 0
    ∷ 0
    ∷ (q.question_bytes ++ (if hit then record_of answer else []))

-- What one turn of `serve` does with a datagram.
pub data Reply : Type 0 where
  dropped : Reply
  forwarded : ℕ → Reply
  responded : List ℕ → Reply

-- The buffer for a datagram; what is longer is cut off.
abbrev pub buf_len : ℕ
buf_len = 512

module _ (answer_for : List ℕ → Option Ipv4) where
  abbrev pub respond : Option ℕ → Query → Option Ipv4 → Reply
  respond (some upstream) q none = Reply.forwarded upstream
  respond none q none = Reply.responded (build_response q none)
  respond upstream q (some ip) = Reply.responded (build_response q (some ip))

  unfoldable pub serve : Option ℕ → List ℕ → Reply
  serve upstream datagram = reply (parse_query (take buf_len datagram))
    where
      reply : Option Query → Reply
      reply none = Reply.dropped
      reply (some q) = respond upstream q (answer_for (map lower q.qname))
