-- ===== src/Dns/Message/Encode.antt =====
-- The round trip: a well-formed query, written by an independent encoder, is read back.
use mathlib.Core.List.{append_assoc}
use fghj.Prelude.{
  ℕ, zero, suc, ◌+◌, ◌-◌, ◌*◌, ◌/◌, ◌%◌, ◌<◌, ◌≤◌, Bool, true, false, not, none, some, List, [],
  ◌∷◌, ◌++◌, map, length, take, leb, nat_eq, if◌then◌else◌, ◌≡◌, refl, ap, ◌∙◌, arith, All,
  length-append,
}
use fghj.Dns.Utf8.{decode}
use fghj.Dns.Message.{
  from_be, to_be, split_at, read_labels, join_labels, read_question, parse_query,
}

-- A label that a name may hold: neither empty nor above 63 bytes.
pub record IsLabel (label : List ℕ) : Type 0 where
  pub some_byte : 0 < length label
  pub short : length label < 64

unfoldable pub encode_labels : List (List ℕ) → List ℕ
encode_labels [] = 0 ∷ []
encode_labels (label ∷ labels) = length label ∷ (label ++ encode_labels labels)

abbrev pub encode_question : List (List ℕ) → ℕ → ℕ → List ℕ
encode_question labels qtype qclass = encode_labels labels ++ (to_be qtype ++ to_be qclass)

unfoldable pub encode_query : ℕ → ℕ → Bool → List (List ℕ) → ℕ → ℕ → List ℕ
encode_query id opcode rd labels qtype qclass =
    (id / 256) % 256
    ∷ id % 256
    ∷ (8 * opcode + (if rd then 1 else 0))
    ∷ 0
    ∷ 0
    ∷ 1
    ∷ 0
    ∷ 0
    ∷ 0
    ∷ 0
    ∷ 0
    ∷ 0
    ∷ encode_question labels qtype qclass

split_at-append : (l r : List ℕ) → split_at (length l) (l ++ r) ≡ some (l, r)
unfolding split_at
split_at-append [] r = refl
split_at-append (b ∷ l) r = rw (split_at-append l r, split_at) refl

take-append : (l r : List ℕ) → take (length l) (l ++ r) ≡ l
take-append [] r = refl
take-append (x ∷ l) r = ap (◌∷◌ x) (take-append l r)

read_labels-encode_labels :
    (labels : List (List ℕ)) (rest : List ℕ) (fuel : ℕ)
    → All IsLabel labels
    → length (encode_labels labels) ≤ fuel
    → read_labels fuel (encode_labels labels ++ rest) ≡ some (labels, rest)
unfolding read_labels encode_labels
read_labels-encode_labels [] rest zero h f = absurd (omega arith)
read_labels-encode_labels [] rest (suc fuel) h f = refl
read_labels-encode_labels (label ∷ labels) rest zero h f = absurd (omega arith)
read_labels-encode_labels (label ∷ labels) rest (suc fuel) (h, hs) f =
    let ok = h.some_byte in
    let short = h.short in
    let e1 : nat_eq (length label) 0 ≡ false = ground arith in
    let e2 : leb 64 (length label) ≡ false = ground arith in
    let fits : length (encode_labels labels) ≤ fuel =
      omega (arith, length-append label (encode_labels labels)) in
    let ih = read_labels-encode_labels labels rest fuel hs fits in
    let at =
      ap (split_at (length label)) (append_assoc label (encode_labels labels) rest)
      ∙ split_at-append label (encode_labels labels ++ rest) in
    rw (e1, e2, at, ih) refl

be_bytes : (n : ℕ) → n < 65536 → from_be ((n / 256) % 256) (n % 256) ≡ n
be_bytes n h = omega arith

opcode_bits :
    (opcode : ℕ) (rd : Bool)
    → opcode < 16
    → ((8 * opcode + (if rd then 1 else 0)) / 8) % 16 ≡ opcode
opcode_bits opcode true h = omega arith
opcode_bits opcode false h = omega arith

rd_bit : (opcode : ℕ) (rd : Bool) → not (nat_eq ((8 * opcode + (if rd then 1 else 0)) % 2) 0) ≡ rd
rd_bit opcode true = let e : (8 * opcode + 1) % 2 ≡ 1 = omega arith in rw e refl
rd_bit opcode false = let e : (8 * opcode + 0) % 2 ≡ 0 = omega arith in rw e refl

take_question : (l r : List ℕ) → take (length (l ++ r) - length r) (l ++ r) ≡ l
take_question l r =
    let e : length (l ++ r) - length r ≡ length l = omega (arith, length-append l r) in
    ap (λ n. take n (l ++ r)) e ∙ take-append l r

pub parse_query_lem :
    (id opcode qtype qclass : ℕ) (rd : Bool) (labels : List (List ℕ)) (rest : List ℕ)
    → id < 65536
    → opcode < 16
    → qtype < 65536
    → qclass < 65536
    → All IsLabel labels
    → parse_query (encode_query id opcode rd labels qtype qclass ++ rest)
      ≡ some (record {
        id = id;
        opcode = opcode;
        rd = rd;
        qname = join_labels (map (decode none) labels);
        qtype = qtype;
        qclass = qclass;
        question_bytes = encode_question labels qtype qclass;
      })
unfolding parse_query encode_query read_question
parse_query_lem id opcode qtype qclass rd labels rest i o t c h =
    let tail = to_be qtype ++ (to_be qclass ++ rest) in
    let sent = encode_question labels qtype qclass in
    let joined : sent ++ rest ≡ encode_labels labels ++ tail =
      append_assoc (encode_labels labels) (to_be qtype ++ to_be qclass) rest in
    let longer = length-append (encode_labels labels) tail in
    let enough : length (encode_labels labels) ≤ suc (length (sent ++ rest)) =
      omega (arith, ap length joined) in
    let read = read_labels-encode_labels labels tail (suc (length (sent ++ rest))) h enough in
    let whole = ap (read_labels (suc (length (sent ++ rest)))) joined ∙ read in
    let taken = take_question sent rest in
    ap
      (λ r.
        read_question (from_be ((id / 256) % 256) (id % 256))
          (((8 * opcode + (if rd then 1 else 0)) / 8) % 16) r (sent ++ rest)
          (read_labels (suc (length (sent ++ rest))) (sent ++ rest)))
      (rd_bit opcode rd)
    ∙ rw (be_bytes id i, opcode_bits opcode rd o, whole, be_bytes qtype t, be_bytes qclass c, taken)
        refl
