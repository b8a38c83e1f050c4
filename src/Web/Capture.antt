-- ===== src/Web/Capture.antt =====
-- src/web/capture.rs: the lines of a stream of bytes.
pub mod Chunks
pub mod Examples
use fghj.Prelude.{
  ℕ, zero, suc, Option, none, some, List, [], ◌∷◌, ◌++◌, length, nat_eq, if◌then◌else◌,
}

abbrev pub newline : ℕ
newline = 10

-- The bytes that no newline has ended yet.
pub record Lines : Type 0 where
  pub buf : List ℕ

-- What stands before the first newline, and what behind it.
unfoldable pub cut : List ℕ → Option (List ℕ × List ℕ)
cut [] = none
cut (b ∷ l) =
    let rest = cut l in
    if nat_eq b newline
    then some ([], l)
    else elim rest [ none ↦ none | some (line, left) ↦ some (b ∷ line, left) ]

-- The loop of `push`.
unfoldable pub take_lines : ℕ → List ℕ → Option (List (List ℕ) × List ℕ)
take_lines zero buf = none
take_lines (suc fuel) buf = elim (cut buf) [
  | none ↦ some ([], buf)
  | some (line, left) ↦ elim (take_lines fuel left) [
    | none ↦ none
    | some (lines, rest) ↦ some (line ∷ lines, rest)
  ]
]

abbrev kept : Option (List (List ℕ) × List ℕ) → Option (List (List ℕ) × Lines)
kept none = none
kept (some (lines, rest)) = some (lines, record { buf = rest })

unfoldable pub push : List ℕ → Lines → Option (List (List ℕ) × Lines)
push bytes s = let buf = s.buf ++ bytes in kept (take_lines (suc (length buf)) buf)

-- All the lines of the chunks of a body, one push for each chunk.
unfoldable pub push_each : List (List ℕ) → Lines → Option (List (List ℕ) × Lines)
push_each [] s = some ([], s)
push_each (chunk ∷ chunks) s = elim (push chunk s) [
  | none ↦ none
  | some (lines, t) ↦ elim (push_each chunks t) [
    | none ↦ none
    | some (more, u) ↦ some (lines ++ more, u)
  ]
]

unfoldable pub concat : List (List ℕ) → List ℕ
concat [] = []
concat (chunk ∷ chunks) = chunk ++ concat chunks
