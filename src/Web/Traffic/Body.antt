-- ===== src/Web/Traffic/Body.antt =====
-- src/web/traffic.rs: one recorded body. A body is its bytes, as numbers. What the decoding
-- libraries make of a body, and which parts a multipart body has, are parameters.
pub mod Push
use fghj.Prelude.{
  PartialEq, ◌≡◌, ◌↔◌, arith, ℕ, ◌+◌, ◌-◌, String, Bool, true, false, ◌||◌, ◌&&◌, not, Option, none,
  some, List, [], ◌∷◌, ◌++◌, length, take, ltb, is_some, if◌then◌else◌, any, str_eq,
}
use fghj.Prelude.Split.{before, split_once, str_len, trim}
use fghj.Prelude.Text.{ends_with}

-- 8 MiB
unfoldable pub body_cap : ℕ
body_cap = 8388608

pub data BodyMode : Type 0 where
  headers : BodyMode
  text : BodyMode
  all : BodyMode

abbrev pub same_mode : BodyMode → BodyMode → Bool
same_mode BodyMode.headers BodyMode.headers = true
same_mode BodyMode.text BodyMode.text = true
same_mode BodyMode.all BodyMode.all = true
same_mode _ _ = false

pub same_mode_iff : (a b : BodyMode) → (same_mode a b ≡ true) ↔ (a ≡ b)
same_mode_iff a b = ground arith

instance abbrev pub eq_BodyMode : PartialEq BodyMode
eq_BodyMode = record { agrees = same_mode; agrees_iff = same_mode_iff }

pub data Omitted : Type 0 where
  headers_only : Omitted
  binary : Omitted

pub data Keep : Type 0 where
  full : Keep
  sniff : Keep
  drop : Omitted → Keep

pub data BodyState : Type 0 where
  pending : BodyState
  streaming : BodyState
  done : BodyState
  aborted : BodyState
  error : BodyState

pub data Side : Type 0 where
  request : Side
  response : Side

pub record Part : Type 0 where
  pub name : Option String
  pub filename : Option String
  pub content_type : Option String
  pub size : ℕ
  pub text : Option String

abbrev pub part_weight : Part → ℕ
part_weight p = elim p.text [ none ↦ 0 | some t ↦ str_len t ] + 64

pub record Captured : Type 0 where
  pub keep : Keep
  pub bytes : List ℕ
  pub size : ℕ
  pub truncated : Bool
  pub state : BodyState
  pub content_type : Option String
  pub content_encoding : Option String
  pub parts : List Part

abbrev pub is_dropped : Keep → Bool
is_dropped Keep.full = false
is_dropped Keep.sniff = false
is_dropped (Keep.drop why) = true

abbrev pub is_sniff : Keep → Bool
is_sniff Keep.sniff = true
is_sniff Keep.full = false
is_sniff (Keep.drop why) = false

abbrev pub is_text : BodyMode → Bool
is_text BodyMode.text = true
is_text BodyMode.headers = false
is_text BodyMode.all = false

-- `&chunk[..chunk.len().min(room)]` behind the data, where `room` is what the cap leaves.
unfoldable pub push : List ℕ → Captured → Captured
push chunk c =
    let room = body_cap - length c.bytes in
    if is_dropped c.keep
    then record c { state = BodyState.streaming; size = c.size + length chunk }
    else record c {
      state = BodyState.streaming;
      size = c.size + length chunk;
      truncated = if ltb room (length chunk) then true else c.truncated;
      bytes = c.bytes ++ take room chunk;
    }

unfoldable pub push_all : List (List ℕ) → Captured → Captured
push_all [] c = c
push_all (chunk ∷ chunks) c = push_all chunks (push chunk c)

-- The reading of a finished body: whether it decodes to text, and its multipart parts, with none
-- where its type names no boundary.
module _ (looks_like_text : List ℕ → Option String → Bool)
    (multipart : Option String → List ℕ → Option (List Part)) where
  abbrev pub sniffed : Captured → Captured
  sniffed c =
      if is_sniff c.keep && not (looks_like_text c.bytes c.content_encoding)
      then record c { keep = Keep.drop Omitted.binary; bytes = [] }
      else c

  abbrev pub with_parts : Captured → Option (List Part) → Captured
  with_parts c none = c
  with_parts c (some []) = record c { parts = [] }
  with_parts c (some (p ∷ l)) = record c { parts = p ∷ l; bytes = [] }

  abbrev pub split_parts : BodyMode → Captured → Captured
  split_parts mode c =
      if is_text mode && not (is_some c.content_encoding)
      then with_parts c (multipart c.content_type c.bytes)
      else c

  unfoldable pub finish : BodyState → BodyMode → Captured → Captured
  finish state mode c = split_parts mode (sniffed (record c { state = state }))
