-- ===== src/Probe/Result.antt =====
-- The outcome of one check: internal/probe/result.go. A status and a severity are texts, as in the
-- source, since configuration and database rows are read into them unchecked.
use certel.Prelude.{ℕ, String, Bool, Option, none, some, List, not, if◌then◌else◌}
use certel.Prelude.Int.{ℤ}
use certel.Clock.{Time, Duration, zero_time, is_zero}
use certel.Config.Target.{Target}

abbrev pub Status : Type 0
Status = String

abbrev pub status_ok : Status
status_ok = "ok"

abbrev pub status_expiring_soon : Status
status_expiring_soon = "expiring_soon"

abbrev pub status_expired : Status
status_expired = "expired"

abbrev pub status_invalid : Status
status_invalid = "invalid"

abbrev pub status_weak_signature : Status
status_weak_signature = "weak_signature"

abbrev pub status_tls_unavailable : Status
status_tls_unavailable = "tls_unavailable"

abbrev pub status_unreachable : Status
status_unreachable = "unreachable"

abbrev pub Severity : Type 0
Severity = String

abbrev pub severity_ok : Severity
severity_ok = "ok"

abbrev pub severity_warning : Severity
severity_warning = "warning"

abbrev pub severity_critical : Severity
severity_critical = "critical"

abbrev pub severity_emergency : Severity
severity_emergency = "emergency"

pub record CertInfo : Type 0 where
  pub subject : String
  pub cn : String
  pub issuer : String
  pub issuer_cn : String
  pub issuer_org : String
  pub signature_algorithm : String
  pub sans : List String
  pub serial : String
  pub not_before : Time
  pub not_after : Time
  pub earliest_not_after : Time
  pub earliest_subject : String

pub record Result : Type 0 where
  pub target : Target
  pub status : Status
  pub severity : Severity
  pub message : String
  pub checked_at : Time
  pub duration : Duration
  pub attempts : ℕ
  pub cert : Option CertInfo
  pub verify_ok : Bool
  pub verified_not_after : Time
  pub days_left : ℤ

abbrev earliest_of : Option CertInfo → Time
earliest_of none = zero_time
earliest_of (some c) = c.earliest_not_after

unfoldable pub effective_not_after : Result → Time
effective_not_after r =
    if not (is_zero r.verified_not_after) then r.verified_not_after else earliest_of r.cert
