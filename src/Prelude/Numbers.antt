-- ===== src/Prelude/Numbers.antt =====
-- Rust's `str::parse::<u16>`.
use Prim.Native.Nat.{ℕ, zero, suc, ◌+◌, ◌-◌, ◌*◌, ◌/◌, ◌%◌}
use Prim.Native.Char.{Char, code}
use Prim.Native.String.{String, [], ◌∷◌, ◌++◌, slice}
use mathlib.Core.Bool.{Bool, ◌&&◌}
use mathlib.Core.Option.{Option, none, some}
use fghj.Prelude.Tests.{leb, ltb, nat_eq, if◌then◌else◌}

abbrev is_digit : Char → Bool
is_digit c = leb 48 (code c) && leb (code c) 57

-- The digits left of a number that has none above 65535 so far; `none` at another sign or at an
-- overflow.
unfoldable pub digits : ℕ → String → Option ℕ
digits n [] = some n
digits n (c ∷ s) =
    let m = 10 * n + (code c - 48) in
    let rest = digits m s in if is_digit c && leb m 65535 then rest else none

-- No sign but a `+` before at least one digit.
unfoldable pub parse_u16 : String → Option ℕ
parse_u16 [] = none
parse_u16 (c ∷ []) = digits 0 (c ∷ [])
parse_u16 (c ∷ (d ∷ s)) = if nat_eq (code c) 43 then digits 0 (d ∷ s) else digits 0 (c ∷ (d ∷ s))

-- `Display` for numbers: the digits in base ten. A number has fewer digits than its successor
-- counts.
abbrev digit : ℕ → String
digit d = slice "0123456789" d (suc d)

abbrev show_digits : ℕ → ℕ → String
show_digits zero n = ""
show_digits (suc fuel) n =
    let front = show_digits fuel (n / 10) in if ltb n 10 then digit n else front ++ digit (n % 10)

unfoldable pub show : ℕ → String
show n = show_digits (suc n) n
