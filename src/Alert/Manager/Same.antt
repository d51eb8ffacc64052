-- ===== src/Alert/Manager/Same.antt =====
-- States that differ at most in a candidate that was dropped: `Process` of
-- internal/alert/manager.go reads a candidate only where its count is over 0.
use certel.Prelude.{◌≡◌, ◌<◌}
use certel.Alert.Types.{TargetState}

-- All but a candidate of count 0 is equal.
pub record SameState (a b : TargetState) : Type 0 where
  pub severity : a.severity ≡ b.severity
  pub status : a.status ≡ b.status
  pub clock : a.last_alert_at ≡ b.last_alert_at
  pub count : a.pending_count ≡ b.pending_count
  pub candidate_status : 0 < a.pending_count → a.pending_status ≡ b.pending_status
  pub candidate_severity : 0 < a.pending_count → a.pending_severity ≡ b.pending_severity
