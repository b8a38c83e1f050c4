-- ===== src/Dns/Message/Echo.antt =====
-- What a client reads in the response to its query: the header, by a reader of its own, then its
-- question, then the answer.
use fghj.Prelude.{
  ℕ, ◌+◌, ◌*◌, ◌/◌, ◌%◌, ◌<◌, Bool, true, false, Option, none, some, List, [], ◌∷◌, ◌++◌, map, drop,
  take, length, zero, suc, ◌-◌, ◌≤◌, leb, ap, ◌∙◌, nat_eq, ◌&&◌, is_some, if◌then◌else◌, ◌≡◌, ◌⊎◌,
  refl, arith, inl, inr, Bool-cases,
}
use fghj.Dns.Utf8.{lower}
use fghj.Dns.Message.{
  Query, Ipv4, Reply, buf_len, from_be, parse_query, build_response, flags0, rcode, answer_hit,
  record_of, respond, serve,
}
use fghj.Dns.Message.Encode.{encode_query, encode_question}
use fghj.Dns.Message.Names.{split_dots, IsName, parse_query-encode_query}

-- RFC 1035, 4.1.1.
pub record Header : Type 0 where
  pub id : ℕ
  pub is_response : Bool
  pub opcode : ℕ
  pub authoritative : Bool
  pub recursion_desired : Bool
  pub rcode : ℕ
  pub questions : ℕ
  pub answers : ℕ
  pub others : ℕ

abbrev bit : ℕ → Bool
bit n = nat_eq (n % 2) 1

unfoldable pub read_header : List ℕ → Option Header
read_header (i1 ∷ i0 ∷ f0 ∷ f1 ∷ q1 ∷ q0 ∷ a1 ∷ a0 ∷ n1 ∷ n0 ∷ r1 ∷ r0 ∷ rest) = some (record {
  id = from_be i1 i0;
  is_response = bit (f0 / 128);
  opcode = (f0 / 8) % 16;
  authoritative = bit (f0 / 4);
  recursion_desired = bit f0;
  rcode = f1 % 16;
  questions = from_be q1 q0;
  answers = from_be a1 a0;
  others = from_be n1 n0 + from_be r1 r0;
})
read_header message = none

bit_on : (n : ℕ) → n % 2 ≡ 1 → bit n ≡ true
bit_on n h = rw h refl

bit_off : (n : ℕ) → n % 2 ≡ 0 → bit n ≡ false
bit_off n h = rw h refl

abbrev flags : ℕ → Bool → Bool → ℕ
flags opcode aa rd = 128 + (8 * (opcode % 16) + ((if aa then 4 else 0) + (if rd then 1 else 0)))

module _ (opcode : ℕ) (h : opcode < 16) where
  flags_response : (aa rd : Bool) → bit (flags opcode aa rd / 128) ≡ true
  flags_response true true = bit_on (flags opcode true true / 128) (omega arith)
  flags_response true false = bit_on (flags opcode true false / 128) (omega arith)
  flags_response false true = bit_on (flags opcode false true / 128) (omega arith)
  flags_response false false = bit_on (flags opcode false false / 128) (omega arith)

  flags_opcode : (aa rd : Bool) → (flags opcode aa rd / 8) % 16 ≡ opcode
  flags_opcode true true = omega arith
  flags_opcode true false = omega arith
  flags_opcode false true = omega arith
  flags_opcode false false = omega arith

  flags_authoritative : (aa rd : Bool) → bit (flags opcode aa rd / 4) ≡ aa
  flags_authoritative true true = bit_on (flags opcode true true / 4) (omega arith)
  flags_authoritative true false = bit_on (flags opcode true false / 4) (omega arith)
  flags_authoritative false true = bit_off (flags opcode false true / 4) (omega arith)
  flags_authoritative false false = bit_off (flags opcode false false / 4) (omega arith)

  flags_rd : (aa rd : Bool) → bit (flags opcode aa rd) ≡ rd
  flags_rd true true = bit_on (flags opcode true true) (omega arith)
  flags_rd true false = bit_off (flags opcode true false) (omega arith)
  flags_rd false true = bit_on (flags opcode false true) (omega arith)
  flags_rd false false = bit_off (flags opcode false false) (omega arith)

abbrev pub expected_rcode : ℕ → Bool → ℕ
expected_rcode opcode known = if nat_eq opcode 0 then (if known then 0 else 3) else 4

abbrev pub expected_header : ℕ → ℕ → Bool → Bool → Bool → Header
expected_header id opcode rd known hit = record {
  id = id;
  is_response = true;
  opcode = opcode;
  authoritative = known;
  recursion_desired = rd;
  rcode = expected_rcode opcode known;
  questions = 1;
  answers = if hit then 1 else 0;
  others = 0;
}

rcode_bits : (q : Query) (aa : Bool) → (rcode q aa % 16) % 16 ≡ expected_rcode q.opcode aa
unfolding rcode
rcode_bits q true = elim (Bool-cases (nat_eq q.opcode 0)) [ inl e ↦ rw e refl | inr e ↦ rw e refl ]
rcode_bits q false = elim (Bool-cases (nat_eq q.opcode 0)) [ inl e ↦ rw e refl | inr e ↦ rw e refl ]

count_bits : (hit : Bool) → from_be 0 (if hit then 1 else 0) ≡ (if hit then 1 else 0)
count_bits true = refl
count_bits false = refl

build_response-header :
    (q : Query) (answer : Option Ipv4)
    → q.id < 65536
    → q.opcode < 16
    → read_header (build_response q answer)
      ≡ some (expected_header q.id q.opcode q.rd (is_some answer) (answer_hit q answer))
unfolding read_header build_response flags0
build_response-header q answer i o =
    let aa = is_some answer in
    let e_id : from_be ((q.id / 256) % 256) (q.id % 256) ≡ q.id = omega arith in
    λ j. some (record {
      id = e_id j;
      is_response = flags_response q.opcode o aa q.rd j;
      opcode = flags_opcode q.opcode o aa q.rd j;
      authoritative = flags_authoritative q.opcode o aa q.rd j;
      recursion_desired = flags_rd q.opcode o aa q.rd j;
      rcode = rcode_bits q aa j;
      questions = 1;
      answers = count_bits (answer_hit q answer) j;
      others = 0;
    })

-- RFC 1035, 4.1.3, for an address: the name is the offset of a compressed one, and the address is its
-- 32 bits.
pub record Answer : Type 0 where
  pub name_at : ℕ
  pub kind : ℕ
  pub class : ℕ
  pub ttl : ℕ
  pub address : ℕ

-- The answers at the end of a message; `none` if they are no records of addresses.
unfoldable pub read_answers : List ℕ → Option (List Answer)
read_answers [] = some []
read_answers
      (n1 ∷ n0 ∷ t1 ∷ t0 ∷ c1 ∷ c0 ∷ l3 ∷ l2 ∷ l1 ∷ l0 ∷ s1 ∷ s0 ∷ a3 ∷ a2 ∷ a1 ∷ a0 ∷ rest) =
    let answer : Answer = record {
      name_at = 256 * (n1 - 192) + n0;
      kind = 256 * t1 + t0;
      class = 256 * c1 + c0;
      ttl = 16777216 * l3 + (65536 * l2 + (256 * l1 + l0));
      address = 16777216 * a3 + (65536 * a2 + (256 * a1 + a0));
    } in
    let more = read_answers rest in
    if leb 192 n1 && nat_eq (256 * s1 + s0) 4
    then elim more [ none ↦ none | some answers ↦ some (answer ∷ answers) ]
    else none
read_answers message = none

-- The 32 bits of an address.
abbrev pub to_bits : Ipv4 → ℕ
to_bits ip = 16777216 * ip.a + (65536 * ip.b + (256 * ip.c + ip.d))

-- An address of the question's name, which stands behind the header; it may be kept five seconds.
abbrev pub expected_answers : Bool → Option Ipv4 → List Answer
expected_answers hit none = []
expected_answers hit (some ip) =
    if hit
    then record { name_at = 12; kind = 1; class = 1; ttl = 5; address = to_bits ip } ∷ []
    else []

answers_read :
    (hit : Bool) (answer : Option Ipv4)
    → (hit ≡ true → is_some answer ≡ true)
    → read_answers (if hit then record_of answer else []) ≡ some (expected_answers hit answer)
unfolding read_answers
answers_read true none h = absurd (ground (arith, h refl))
answers_read true (some ip) h = refl
answers_read false none h = refl
answers_read false (some ip) h = refl

take_all :
    (l rest : List ℕ) (n : ℕ) → length l ≤ n → (more : List ℕ) × (take n (l ++ rest) ≡ l ++ more)
take_all [] rest n h = (take n rest, refl)
take_all (x ∷ l) rest zero h = absurd (omega arith)
take_all (x ∷ l) rest (suc n) h =
    let (more, q) = take_all l rest n (omega arith) in (more, ap (◌∷◌ x) q)

module _ (answer_for : List ℕ → Option Ipv4) (id opcode qtype qclass : ℕ) (rd : Bool)
    (name : List ℕ) where
  -- What the zones answer for the name of a query, its letters in lower case.
  abbrev pub looked_up : Option Ipv4
  looked_up = answer_for (map lower name)

  abbrev pub is_hit : Bool
  is_hit = is_some looked_up && (nat_eq qtype 1 && nat_eq qclass 1)

  abbrev pub query : List ℕ
  query = encode_query id opcode rd (split_dots name) qtype qclass

  -- A response that its client accepts: the header says what was asked and what is known, and the
  -- question comes back as it was sent, followed by the answers.
  pub record IsResponse (message : List ℕ) : Type 0 where
    pub header :
        read_header message ≡ some (expected_header id opcode rd (is_some looked_up) is_hit)
    pub answers : List ℕ
    pub body : drop 12 message ≡ encode_question (split_dots name) qtype qclass ++ answers
    pub answers_read : read_answers answers ≡ some (expected_answers is_hit looked_up)

  respond_known :
      (upstream : Option ℕ) (q : Query) (a : Option Ipv4)
      → (is_some upstream ≡ false) ⊎ (is_some a ≡ true)
      → respond answer_for upstream q a ≡ Reply.responded (build_response q a)
  respond_known none q none h = refl
  respond_known none q (some ip) h = refl
  respond_known (some u) q (some ip) h = refl
  respond_known (some u) q none (inl h) = absurd (ground arith)
  respond_known (some u) q none (inr h) = absurd (ground arith)

  -- A well-formed query of at most 512 bytes is answered, whatever follows it in its datagram, unless
  -- nothing is known of its name and there is a server to ask instead. The client reads a response
  -- to its own query: its id and its wish for recursion, authority just when the name is known, no
  -- error, a wrong operation or an unknown name, and its question. Just when the name is known and an
  -- address was asked for, one record follows, with the address that is known, for the name of the
  -- question, for five seconds; else nothing does.
  pub serve-IsResponse :
      (rest : List ℕ) (upstream : Option ℕ)
      → id < 65536
      → opcode < 16
      → qtype < 65536
      → qclass < 65536
      → IsName name
      → length query ≤ buf_len
      → (is_some upstream ≡ false) ⊎ (is_some looked_up ≡ true)
      → (message : List ℕ) × (serve answer_for upstream (query ++ rest) ≡ Reply.responded message)
        × IsResponse message
  unfolding serve build_response answer_hit
  serve-IsResponse rest upstream i o t c h fits known =
      let (more, cut) = take_all query rest buf_len fits in
      let parsed =
        ap parse_query cut
        ∙ parse_query-encode_query id opcode qtype qclass rd name more i o t c h in
      let q : Query = record {
        id = id;
        opcode = opcode;
        rd = rd;
        qname = name;
        qtype = qtype;
        qclass = qclass;
        question_bytes = encode_question (split_dots name) qtype qclass;
      } in
      (
        build_response q looked_up,
        rw parsed (respond_known upstream q looked_up known),
        record {
          header = build_response-header q looked_up i o;
          answers = if is_hit then record_of looked_up else [];
          body = refl;
          answers_read = answers_read is_hit looked_up (λ e. ground arith);
        },
      )
