-- ===== src/Resolver/Name/Pattern.antt =====
-- What a name is, by the pattern of the configuration's schema: `^[a-z0-9][a-z0-9-]*$`.
use fghj.Prelude.{String, Bool, true, false, ◌&&◌, ◌||◌, not, none, ◌≡◌, ◌↔◌, refl, arith, Result}
use fghj.Resolver.Name.{
  is_ascii_uppercase, is_ascii_lowercase, is_ascii_digit, is_dash, is_allowed, find_char,
  why_invalid, parse, Name,
}

unfoldable pub matches_rest : String → Bool
matches_rest String.[] = true
matches_rest (String.◌∷◌ c s) =
    (is_ascii_lowercase c || (is_ascii_digit c || is_dash c)) && matches_rest s

-- The pattern, read from left to right.
unfoldable pub matches : String → Bool
matches String.[] = false
matches (String.◌∷◌ c s) = (is_ascii_lowercase c || is_ascii_digit c) && matches_rest s

none_found : (s : String) → (find_char (λ c. not (is_allowed c)) s ≡ none) ↔ (matches_rest s ≡ true)
unfolding find_char matches_rest
none_found String.[] = (λ h. refl, λ h. refl)
none_found (String.◌∷◌ c s) = ground (arith, none_found s)

no_uppercase : (s : String) → matches_rest s ≡ true → find_char is_ascii_uppercase s ≡ none
unfolding find_char matches_rest
no_uppercase String.[] h = refl
no_uppercase (String.◌∷◌ c s) h = ground (arith, no_uppercase s)

valid_iff : (s : String) → (why_invalid s ≡ none) ↔ (matches s ≡ true)
unfolding why_invalid matches matches_rest
valid_iff String.[] = ground arith
valid_iff (String.◌∷◌ c s) =
    ground (arith, none_found (String.◌∷◌ c s), no_uppercase (String.◌∷◌ c s))

-- `Name::parse` accepts exactly the texts that match the schema's pattern, and keeps them as they are.
pub parse_iff :
    (s : String) (n : Name) → (parse s ≡ Result.ok n) ↔ ((matches s ≡ true) × (n.text ≡ s))
unfolding parse
parse_iff s n = ground (arith, valid_iff s)
