-- ===== src/Web/Traffic/Classify.antt =====
-- src/web/traffic.rs: which bodies are kept, by their content type.
use Prim.Native.Char.{code}
use Prim.Native.String.{slice}
use fghj.Prelude.{
  suc, ◌-◌, String, Bool, false, ◌||◌, ◌&&◌, Option, none, some, [], List, ◌∷◌, leb, any, str_eq,
  if◌then◌else◌,
}
use fghj.Prelude.Split.{before, split_once, trim}
use text.Mathlib.Text.{starts_with}
use fghj.Prelude.Text.{ends_with, ◌+ₛ◌}
use fghj.Web.Traffic.Body.{BodyMode, BodyState, Captured, Keep, Omitted}

-- `to_ascii_lowercase`
unfoldable pub lower : String → String
lower String.[] = String.[]
lower (String.◌∷◌ c s) =
    let rest = lower s in
    let n = code c - 65 in
    if leb 65 (code c) && leb (code c) 90
    then slice "abcdefghijklmnopqrstuvwxyz" n (suc n) +ₛ rest
    else String.◌∷◌ c rest

unfoldable pub essence : String → String
unfolding lower trim split_once
essence content_type = lower (trim (before b';' content_type))

abbrev pub one_of : List String → String → Bool
one_of l s = any (λ t. str_eq t s) l

-- A type without a slash is all type, with no subtype.
abbrev pub type_of : String → String × String
type_of ct = elim (split_once b'/' ct) [ none ↦ (ct, "") | some p ↦ p ]

unfoldable pub is_textual : String → Bool
is_textual ct =
    let (ty, sub) = type_of ct in
    str_eq ty "text"
    || one_of
        ("json" ∷ "x-ndjson" ∷ "xml" ∷ "x-www-form-urlencoded" ∷ "javascript" ∷ "x-javascript"
          ∷ "ecmascript" ∷ "graphql" ∷ "problem+json" ∷ [])
        sub
    || ends_with sub "+json"
    || ends_with sub "+xml"

unfoldable pub is_binary : String → Bool
is_binary ct =
    let (ty, sub) = type_of ct in
    one_of ("image" ∷ "video" ∷ "audio" ∷ "font" ∷ []) ty
    || one_of
        ("octet-stream" ∷ "zip" ∷ "gzip" ∷ "x-tar" ∷ "pdf" ∷ "wasm" ∷ "x-protobuf" ∷ "protobuf"
          ∷ "grpc" ∷ "vnd.ms-fontobject" ∷ [])
        sub

abbrev pub classify_text : String → Keep
classify_text ct =
    if str_eq ct ""
    then Keep.sniff
    else if is_textual ct || starts_with ct "multipart/"
    then Keep.full
    else if is_binary ct
    then Keep.drop Omitted.binary
    else Keep.sniff

unfoldable pub classify : BodyMode → Option String → Keep
unfolding essence is_textual is_binary split_once ends_with
classify BodyMode.headers content_type = Keep.drop Omitted.headers_only
classify BodyMode.all content_type = Keep.full
classify BodyMode.text none = Keep.sniff
classify BodyMode.text (some content_type) = classify_text (essence content_type)

-- An encoding named `identity` is none.
abbrev pub encoding : Option String → Option String
encoding none = none
encoding (some e) = if str_eq (lower e) "identity" then none else some e

abbrev trimmed : Option String → Option String
trimmed none = none
trimmed (some s) = some (trim s)

-- From the headers of that name, where they are readable texts.
unfoldable pub captured : BodyMode → Option String → Option String → Captured
captured mode content_type content_encoding = record {
  keep = classify mode (trimmed content_type);
  bytes = [];
  size = 0;
  truncated = false;
  state = BodyState.pending;
  content_type = trimmed content_type;
  content_encoding = encoding (trimmed content_encoding);
  parts = [];
}

unfoldable pub pending : Captured
unfolding captured
pending = captured BodyMode.headers none none
