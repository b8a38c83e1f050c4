-- ===== src/Dns/Utf8.antt =====
-- Rust's `String::from_utf8_lossy` and `to_ascii_lowercase`, as the name server uses them.
use fghj.Prelude.{
  ℕ, ◌+◌, ◌-◌, ◌*◌, ◌&&◌, Option, none, some, List, [], ◌∷◌, ◌++◌, leb, ltb, nat_eq, if◌then◌else◌,
}

-- What a sequence still asks for: how many bytes, the value so far, and the bounds of the next byte.
pub record Pending : Type 0 where
  pub left : ℕ
  pub value : ℕ
  pub low : ℕ
  pub high : ℕ

abbrev pub sequence : ℕ → ℕ → ℕ → ℕ → Option Pending
sequence left value low high = some (record { left = left; value = value; low = low; high = high })

abbrev pub replacement : ℕ
replacement = 65533

-- A first byte: the code points it gives, and the sequence it starts.
unfoldable pub first : ℕ → List ℕ × Option Pending
first b =
    if ltb b 128
    then (b ∷ [], none)
    else if leb 194 b && leb b 223
    then ([], sequence 1 (b - 192) 128 191)
    else if nat_eq b 224
    then ([], sequence 2 0 160 191)
    else if nat_eq b 237
    then ([], sequence 2 13 128 159)
    else if leb 225 b && leb b 239
    then ([], sequence 2 (b - 224) 128 191)
    else if nat_eq b 240
    then ([], sequence 3 0 144 191)
    else if leb 241 b && leb b 243
    then ([], sequence 3 (b - 240) 128 191)
    else if nat_eq b 244
    then ([], sequence 3 4 128 143)
    else (replacement ∷ [], none)

unfoldable pub next : Option Pending → ℕ → List ℕ × Option Pending
next none b = first b
next (some p) b =
    let value = 64 * p.value + (b - 128) in
    let again = first b in
    if leb p.low b && leb b p.high
    then (if nat_eq p.left 1 then (value ∷ [], none) else ([], sequence (p.left - 1) value 128 191))
    else (replacement ∷ again.0, again.1)

unfoldable pub decode : Option Pending → List ℕ → List ℕ
decode none [] = []
decode (some p) [] = replacement ∷ []
decode p (b ∷ bytes) = let s = next p b in s.0 ++ decode s.1 bytes

unfoldable pub lower : ℕ → ℕ
lower n = if leb 65 n && leb n 90 then n + 32 else n
