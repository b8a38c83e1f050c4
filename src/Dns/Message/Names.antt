-- ===== src/Dns/Message/Names.antt =====
-- The round trip: a well-formed query for a name, written by an independent encoder, is read back.
use fghj.Prelude.{
  ℕ, ◌<◌, Bool, true, none, some, List, [], ◌∷◌, ◌++◌, map, nat_eq, if◌then◌else◌, ◌≡◌, refl, sym,
  ap, ◌∙◌, arith, All, inl, inr, Bool-cases, ltb,
}
use fghj.Dns.Utf8.{decode, next, first}
use fghj.Dns.Message.{join_labels, parse_query}
use fghj.Dns.Message.Encode.{IsLabel, encode_query, encode_question, parse_query_lem}

abbrev pub on_first : ℕ → List (List ℕ) → List (List ℕ)
on_first c [] = (c ∷ []) ∷ []
on_first c (label ∷ labels) = (c ∷ label) ∷ labels

-- The labels of a name: what stands between its dots.
unfoldable pub split_dots : List ℕ → List (List ℕ)
split_dots [] = [] ∷ []
split_dots (c ∷ name) =
    let rest = split_dots name in if nat_eq c 46 then [] ∷ rest else on_first c rest

-- A name in ASCII whose labels have between 1 and 63 bytes.
pub record IsName (name : List ℕ) : Type 0 where
  pub ascii : All (λ c. c < 128) name
  pub labels : All IsLabel (split_dots name)

some_label :
    (name : List ℕ)
    → (label : List ℕ) × (labels : List (List ℕ)) × (split_dots name ≡ label ∷ labels)
unfolding split_dots
some_label [] = ([], [], refl)
some_label (c ∷ name) = elim (Bool-cases (nat_eq c 46)) [
  | inl e ↦ ([], split_dots name, rw e refl)
  | inr e ↦ let (label, labels, q) = some_label name in (c ∷ label, labels, rw (e, q) refl)
]

join_labels-on_first :
    (c : ℕ) (label : List ℕ) (labels : List (List ℕ))
    → join_labels (on_first c (label ∷ labels)) ≡ c ∷ join_labels (label ∷ labels)
unfolding join_labels
join_labels-on_first c label [] = refl
join_labels-on_first c label (l ∷ labels) = refl

join_labels-split_dots : (name : List ℕ) → join_labels (split_dots name) ≡ name
unfolding split_dots join_labels
join_labels-split_dots [] = refl
join_labels-split_dots (c ∷ name) =
    let (label, labels, q) = some_label name in
    let ih : join_labels (label ∷ labels) ≡ name =
      ap join_labels (sym q) ∙ join_labels-split_dots name in
    elim (Bool-cases (nat_eq c 46)) [
      | inl e ↦ let dot : 46 ≡ c = ground arith in rw (e, q) (λ i. dot i ∷ ih i)
      | inr e ↦ rw (e, q) (join_labels-on_first c label labels ∙ ap (◌∷◌ c) ih)
    ]

decode-ascii : (label : List ℕ) → All (λ c. c < 128) label → decode none label ≡ label
unfolding decode next first
decode-ascii [] h = refl
decode-ascii (c ∷ label) h =
    let e : ltb c 128 ≡ true = ground arith in rw (e, decode-ascii label h.1) refl

on_first-ascii :
    (c : ℕ) (labels : List (List ℕ))
    → c < 128
    → All (All (λ c. c < 128)) labels
    → All (All (λ c. c < 128)) (on_first c labels)
on_first-ascii c [] h k = ((h, tt), tt)
on_first-ascii c (label ∷ labels) h k = ((h, k.0), k.1)

split_dots-ascii :
    (name : List ℕ) → All (λ c. c < 128) name → All (All (λ c. c < 128)) (split_dots name)
unfolding split_dots
split_dots-ascii [] h = (tt, tt)
split_dots-ascii (c ∷ name) h = elim (Bool-cases (nat_eq c 46)) [
  | inl e ↦ rw e (tt, split_dots-ascii name h.1)
  | inr e ↦ rw e (on_first-ascii c (split_dots name) h.0 (split_dots-ascii name h.1))
]

decode_labels :
    (labels : List (List ℕ)) → All (All (λ c. c < 128)) labels → map (decode none) labels ≡ labels
decode_labels [] h = refl
decode_labels (label ∷ labels) h = λ i. decode-ascii label h.0 i ∷ decode_labels labels h.1 i

pub read_name :
    (name : List ℕ) → IsName name → join_labels (map (decode none) (split_dots name)) ≡ name
read_name name h =
    ap join_labels (decode_labels (split_dots name) (split_dots-ascii name h.ascii))
    ∙ join_labels-split_dots name

-- A well-formed query for a name, written by an encoder of its own and followed by any bytes, is read
-- back: the id, the operation, whether recursion is wanted, the name itself, dots and all, the type
-- and the class, and the bytes of the question as they were sent. Numbers fit their fields; the name
-- is in ASCII, and its labels have between 1 and 63 bytes.
pub parse_query-encode_query :
    (id opcode qtype qclass : ℕ) (rd : Bool) (name rest : List ℕ)
    → id < 65536
    → opcode < 16
    → qtype < 65536
    → qclass < 65536
    → IsName name
    → parse_query (encode_query id opcode rd (split_dots name) qtype qclass ++ rest)
      ≡ some (record {
        id = id;
        opcode = opcode;
        rd = rd;
        qname = name;
        qtype = qtype;
        qclass = qclass;
        question_bytes = encode_question (split_dots name) qtype qclass;
      })
parse_query-encode_query id opcode qtype qclass rd name rest i o t c h =
    parse_query_lem id opcode qtype qclass rd (split_dots name) rest i o t c h.labels
    ∙ ap
        (λ n. some (record {
          id = id;
          opcode = opcode;
          rd = rd;
          qname = n;
          qtype = qtype;
          qclass = qclass;
          question_bytes = encode_question (split_dots name) qtype qclass;
        }))
        (read_name name h)
