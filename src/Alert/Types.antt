-- ===== src/Alert/Types.antt =====
-- The records that the decision, the store and the dispatcher share: internal/alert/manager.go.
use certel.Prelude.{ℕ, String, Bool, Option, List}
use certel.Clock.{Time}
use certel.Config.Target.{AlertConfig}
use certel.Probe.Result.{Status, Severity, Result}

pub record StateRecord : Type 0 where
  pub status : Status
  pub severity : Severity
  pub last_alert_at : Time

pub record AlertEvent : Type 0 where
  pub target_key : String
  pub address : String
  pub at : Time

-- A rendered body: its bytes.
abbrev pub Bytes : Type 0
Bytes = List ℕ

pub record Delivery : Type 0 where
  pub notifier : String
  pub status : Status
  pub severity : Severity
  pub body : Bytes

pub record OutboxRow : Type 0 where
  pub id : ℕ
  pub target_key : String
  pub body : Bytes

pub record ProbeObservation : Type 0 where
  pub status : Status
  pub severity : Severity

-- A notifier at run time. `render r recovered` is the body compiled at startup, rendered on a
-- result; `none` is a render error.
pub record NotifierRuntime : Type 0 where
  pub config : AlertConfig
  pub render : Result → Bool → Option Bytes

pub record TargetState : Type 0 where
  pub severity : Severity
  pub status : Status
  pub last_alert_at : Time
  pub pending_severity : Severity
  pub pending_status : Status
  pub pending_count : ℕ
