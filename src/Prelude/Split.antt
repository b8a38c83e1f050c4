-- ===== src/Prelude/Split.antt =====
-- Rust's `split_once`, `trim` and `len` on texts.
use Prim.Native.Char.{code}
use Prim.Native.String.{String}
use fghj.Prelude.Tests.{leb, ltb, nat_eq, if◌then◌else◌}
use Prim.Native.Nat.{ℕ, ◌+◌}
use mathlib.Core.Bool.{Bool, ◌||◌, ◌&&◌}
use mathlib.Core.Option.{Option, none, some}
use text.Mathlib.Text.{◌==◌ as str_eq}

-- At the first character of that code: what stands before it, and what behind.
unfoldable pub split_once : ℕ → String → Option (String × String)
split_once sep String.[] = none
split_once sep (String.◌∷◌ c s) =
    let rest = split_once sep s in
    if nat_eq (code c) sep
    then some (String.[], s)
    else elim rest [ none ↦ none | some (front, back) ↦ some (String.◌∷◌ c front, back) ]

-- `split(sep).next()`
abbrev pub before : ℕ → String → String
before sep s = elim (split_once sep s) [ none ↦ s | some (front, back) ↦ front ]

-- `char::is_whitespace`
abbrev pub is_whitespace : ℕ → Bool
is_whitespace c =
    (leb 9 c && leb c 13)
    || nat_eq c 32
    || nat_eq c 133
    || nat_eq c 160
    || nat_eq c 5760
    || (leb 8192 c && leb c 8202)
    || nat_eq c 8232
    || nat_eq c 8233
    || nat_eq c 8239
    || nat_eq c 8287
    || nat_eq c 12288

unfoldable pub trim_start : String → String
trim_start String.[] = String.[]
trim_start (String.◌∷◌ c s) =
    let rest = trim_start s in if is_whitespace (code c) then rest else String.◌∷◌ c s

unfoldable pub trim_end : String → String
trim_end String.[] = String.[]
trim_end (String.◌∷◌ c s) =
    let rest = trim_end s in
    if is_whitespace (code c) && str_eq rest String.[] then String.[] else String.◌∷◌ c rest

unfoldable pub trim : String → String
unfolding trim_start trim_end
trim s = trim_start (trim_end s)

-- How many bytes UTF-8 gives a code point.
abbrev char_len : ℕ → ℕ
char_len c = if ltb c 128 then 1 else if ltb c 2048 then 2 else if ltb c 65536 then 3 else 4

unfoldable pub str_len : String → ℕ
str_len String.[] = 0
str_len (String.◌∷◌ c s) = char_len (code c) + str_len s
