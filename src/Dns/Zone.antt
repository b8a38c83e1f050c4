-- ===== src/Dns/Zone.antt =====
-- src/dns/mod.rs: which names the zones hold, and which may get a certificate.
use fghj.Prelude.{String, Bool, ◌||◌, ◌&&◌, List, [], ◌∷◌, str_eq, any}
use fghj.Prelude.Text.{ends_with, ◌+ₛ◌}

abbrev pub zone : String
zone = "fghj.internal"

unfoldable pub in_zone : String → Bool
in_zone qname = str_eq qname zone || ends_with qname ".fghj.internal"

unfoldable pub matches_zone : String → String → Bool
matches_zone qname zone = str_eq qname zone || ends_with qname ("." +ₛ zone)

abbrev pub reserved_alias_tlds : List String
reserved_alias_tlds = "local" ∷ "test" ∷ "internal" ∷ "localhost" ∷ []

unfoldable pub is_reserved_alias : String → Bool
is_reserved_alias host =
    any (λ tld. str_eq host tld || ends_with host ("." +ₛ tld)) reserved_alias_tlds

unfoldable pub cert_eligible : String → Bool → Bool
cert_eligible name routed = in_zone name || (is_reserved_alias name && routed)
