-- ===== src/Dns/Examples.antt =====
-- A query for `db` and its response: tests, and the statements about them at a concrete input.
use fghj.Prelude.{
  ℕ, ◌≤◌, length, ◌++◌, true, false, Option, none, some, [], ◌∷◌, List, ◌≡◌, refl, inl, arith, ◌==◌,
  eq_List, eq_ℕ, if◌then◌else◌,
}
use fghj.Prelude.Text.{ends_with}
use fghj.Dns.Utf8.{decode, next, first}
use fghj.Dns.Message.{Ipv4, Reply, parse_query, read_labels, read_question, serve}
use fghj.Dns.Message.Encode.{encode_query, encode_question, encode_labels}
use fghj.Dns.Message.Names.{split_dots, IsName, parse_query-encode_query}
use fghj.Dns.Message.Echo.{IsResponse, serve-IsResponse}
use fghj.Dns.Zone.{in_zone, is_reserved_alias, cert_eligible}

-- é, an overlong slash, and a sequence that is cut off.
decoded : decode none (195 ∷ 169 ∷ 192 ∷ 175 ∷ 226 ∷ 130 ∷ []) ≡ 233 ∷ 65533 ∷ 65533 ∷ 65533 ∷ []
unfolding decode next first
decoded = refl

own_zone : in_zone "cart.fghj.internal" ≡ true
unfolding in_zone ends_with
own_zone = refl

evil_zone : in_zone "fghj.internal.evil.com" ≡ false
unfolding in_zone ends_with
evil_zone = refl

unrouted_alias : cert_eligible "demo.test" false ≡ false
unfolding cert_eligible in_zone is_reserved_alias ends_with
unrouted_alias = refl

-- `Db.x`
abbrev name : List ℕ
name = 68 ∷ 98 ∷ 46 ∷ 120 ∷ []

abbrev localhost : Ipv4
localhost = record { a = 127; b = 0; c = 0; d = 1 }

-- The zone has one name, `db.x`.
abbrev answer_for : List ℕ → Option Ipv4
answer_for queried = if queried == 100 ∷ 98 ∷ 46 ∷ 120 ∷ [] then some localhost else none

compressed :
    parse_query (0 ∷ 7 ∷ 1 ∷ 0 ∷ 0 ∷ 1 ∷ 0 ∷ 0 ∷ 0 ∷ 0 ∷ 0 ∷ 0 ∷ 192 ∷ 12 ∷ 0 ∷ 1 ∷ 0 ∷ 1 ∷ [])
    ≡ none
unfolding parse_query read_labels read_question
compressed = refl

name_IsName : IsName name
unfolding split_dots
name_IsName = record {
  ascii = omega arith;
  labels = (
    record { some_byte = omega arith; short = omega arith },
    (record { some_byte = omega arith; short = omega arith }, tt),
  );
}

fits : length (encode_query 7 0 true (split_dots name) 1 1) ≤ 512
unfolding encode_query encode_labels split_dots
fits = omega arith

parse_query-encode_query_example :
    parse_query (encode_query 7 0 true (split_dots name) 1 1 ++ [])
    ≡ some (record {
      id = 7;
      opcode = 0;
      rd = true;
      qname = name;
      qtype = 1;
      qclass = 1;
      question_bytes = encode_question (split_dots name) 1 1;
    })
parse_query-encode_query_example =
    parse_query-encode_query 7 0 1 1 true name [] (omega arith) (omega arith) (omega arith)
      (omega arith) name_IsName

serve-IsResponse_example :
    (message : List ℕ) × (serve answer_for none (encode_query 7 0 true (split_dots name) 1 1 ++ [])
      ≡ Reply.responded message)
    × IsResponse answer_for 7 0 1 1 true name message
serve-IsResponse_example =
    serve-IsResponse answer_for 7 0 1 1 true name [] none (omega arith) (omega arith) (omega arith)
      (omega arith) name_IsName fits (inl refl)
