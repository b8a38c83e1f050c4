-- ===== src/Resolver/Warning.antt =====
-- src/resolver/warning.rs: what a finding of the resolver is worth.
use fghj.Prelude.{String, Bool, true, false}

pub data Severity : Type 0 where
  blocking advisory : Severity

pub record Warning : Type 0 where
  pub severity : Severity
  pub message : String

abbrev pub new_blocking : String → Warning
new_blocking message = record { severity = Severity.blocking; message = message }

abbrev pub new_advisory : String → Warning
new_advisory message = record { severity = Severity.advisory; message = message }

abbrev is_blocking_severity : Severity → Bool
is_blocking_severity Severity.blocking = true
is_blocking_severity Severity.advisory = false

unfoldable pub is_blocking : Warning → Bool
is_blocking w = is_blocking_severity w.severity
