-- ===== src/Gate/Severities.antt =====
-- Laws of the severity scale of internal/gate/gate.go.
use jo_ei.Prelude.{◌≤◌, ◌≡◌, refl, true, arith}
use jo_ei.Gate.{
  Severity, unknown, low, medium, high, critical, rank, parse_severity, severity_string, at_least,
}

-- The canonical word of every severity is read back as that severity.
pub parse_severity-severity_string : (s : Severity) → parse_severity (severity_string s) ≡ s
unfolding parse_severity severity_string
parse_severity-severity_string unknown = refl
parse_severity-severity_string low = refl
parse_severity-severity_string medium = refl
parse_severity-severity_string high = refl
parse_severity-severity_string critical = refl

-- What reaches a threshold reaches every lower one, and so does anything more severe.
pub at_least_mono :
    (s t u v : Severity)
    → at_least s t ≡ true
    → rank s ≤ rank u
    → rank v ≤ rank t
    → at_least u v ≡ true
unfolding at_least
at_least_mono s t unknown v h p q = ground arith
at_least_mono s t low v h p q = ground arith
at_least_mono s t medium v h p q = ground arith
at_least_mono s t high v h p q = ground arith
at_least_mono s t critical v h p q = ground arith

-- The lowest named threshold and the unknown one block the same findings: those of a known
-- severity.
pub at_least-low : (s : Severity) → at_least s low ≡ at_least s unknown
unfolding at_least
at_least-low unknown = refl
at_least-low low = refl
at_least-low medium = refl
at_least-low high = refl
at_least-low critical = refl
