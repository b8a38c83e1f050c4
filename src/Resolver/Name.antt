-- ===== src/Resolver/Name.antt =====
-- src/resolver/name.rs: the one shape of a name.
pub mod Pattern
use Prim.Native.Char.{Char, code}
use Prim.Native.String
use fghj.Prelude.{
  ℕ, String, Bool, true, false, ◌&&◌, ◌||◌, not, Option, none, some, leb, nat_eq, if◌then◌else◌,
  Result, ok, err,
}
use fghj.Prelude.Text.{◌+ₛ◌}

abbrev pub between : ℕ → ℕ → Char → Bool
between low high c = leb low (code c) && leb (code c) high

abbrev pub is_ascii_uppercase : Char → Bool
is_ascii_uppercase = between 65 90

abbrev pub is_ascii_lowercase : Char → Bool
is_ascii_lowercase = between 97 122

abbrev pub is_ascii_digit : Char → Bool
is_ascii_digit = between 48 57

abbrev pub is_dash : Char → Bool
is_dash c = nat_eq (code c) 45

abbrev pub is_allowed : Char → Bool
is_allowed c = is_ascii_lowercase c || (is_ascii_digit c || is_dash c)

-- `s.chars().find(p)`
unfoldable pub find_char : (Char → Bool) → String → Option Char
find_char p String.[] = none
find_char p (String.◌∷◌ c s) = let rest = find_char p s in if p c then some c else rest

abbrev pub starts_with_dash : String → Bool
starts_with_dash String.[] = false
starts_with_dash (String.◌∷◌ c s) = is_dash c

abbrev pub is_empty : String → Bool
is_empty String.[] = true
is_empty (String.◌∷◌ c s) = false

abbrev one : Char → String
one c = String.◌∷◌ c String.[]

module _ (s : String) where
  abbrev pub last_check : Option String
  last_check = if starts_with_dash s then some "a name cannot start with a dash" else none

  abbrev pub check_allowed : Option Char → Option String
  check_allowed none = last_check
  check_allowed (some c) = some (
      "'"
      +ₛ (one c +ₛ "' is not allowed; names may contain only lowercase letters, digits and dashes"))

  abbrev pub check_case : Option Char → Option String
  check_case none = check_allowed (find_char (λ c. not (is_allowed c)) s)
  check_case (some c) = some (
      "'"
      +ₛ (one c
          +ₛ "' is uppercase; names are lowercase because they become DNS labels, which are case-insensitive"))

  unfoldable pub why_invalid : Option String
  why_invalid =
      if is_empty s
      then some "a name cannot be empty"
      else check_case (find_char is_ascii_uppercase s)

pub record Name : Type 0 where
  pub text : String

abbrev pub parsed : String → Option String → Result Name String
parsed s none = Result.ok (record { text = s })
parsed s (some why) = Result.err ("invalid name '" +ₛ (s +ₛ ("': " +ₛ why)))

unfoldable pub parse : String → Result Name String
parse s = parsed s (why_invalid s)
