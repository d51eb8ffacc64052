-- ===== src/Store/Tables.antt =====
-- The tables of internal/store/store.go, each a list of rows in the order of insertion, and the
-- SQLite engine under them as a parameter.
use certel.Prelude.{ℕ, suc, ◌<◌, String, Bool, false, List, [], All, if◌then◌else◌}
use certel.Prelude.Int.{ℤ}
use certel.Prelude.Assoc.{Assoc}
use certel.Probe.Result.{Status, Severity}
use certel.Alert.Types.{Bytes}

-- Times are unix seconds, 0 for "never".
pub record StateRow : Type 0 where
  pub status : Status
  pub severity : Severity
  pub last_alert_at : ℕ

pub record ProbeRow : Type 0 where
  pub id : ℕ
  pub target_key : String
  pub address : String
  pub protocol : String
  pub checked_at : ℕ
  pub status : Status
  pub severity : Severity
  pub message : String
  pub days_left : ℤ
  pub not_after : ℕ
  pub duration_ms : ℤ
  pub attempts : ℕ

pub record AlertRow : Type 0 where
  pub id : ℕ
  pub target_key : String
  pub notifier : String
  pub address : String
  pub logged_at : ℕ
  pub status : Status
  pub severity : Severity

pub record QueueRow : Type 0 where
  pub id : ℕ
  pub target_key : String
  pub notifier : String
  pub body : Bytes
  pub enqueued_at : ℕ
  pub attempts_count : ℕ
  pub last_error : String

-- `target_key` is the primary key of `alert_state`.
pub record Database : Type 0 where
  pub alert_state : Assoc StateRow
  pub probe_log : List ProbeRow
  pub alert_log : List AlertRow
  pub notification_outbox : List QueueRow

abbrev pub empty_database : Database
empty_database = record {
  alert_state = [];
  probe_log = [];
  alert_log = [];
  notification_outbox = [];
}

-- The key of an inserted row, from those in its table: above them all, as SQLite documents for an
-- INTEGER PRIMARY KEY.
pub record Engine : Type 0 where
  pub new_id : List ℕ → ℕ
  pub new_id_above : (ids : List ℕ) → All (λ i. i < new_id ids) ids

-- Which statements of a call fail, counted from 0. A statement that fails changes nothing.
abbrev pub Faults : Type 0
Faults = ℕ → Bool

abbrev pub no_faults : Faults
no_faults i = false

pub record Store : Type 0 where
  pub db : Database
  -- The calls of `OnWriteError`.
  pub write_errors : ℕ

unfoldable pub write_err : Bool → Store → Store
write_err failed s = if failed then record s { write_errors = suc s.write_errors } else s
