-- ===== src/Alert/Manager/Interface.antt =====
-- The interface `Store` of internal/alert/manager.go, with what the decision relies on. A write
-- returns the new store and whether an error came back.
use certel.Prelude.{String, Bool, Option, some, List, ◌++◌, ◌≡◌, str_eq, map, if◌then◌else◌}
use certel.Prelude.Int.{ℤ}
use certel.Clock.{zero_time}
use certel.Probe.Result.{Status, Severity}
use certel.Alert.Types.{StateRecord, AlertEvent, Delivery, Bytes, ProbeObservation}

pub record StoreOps (S : Type 0) : Type 0 where
  pub save_alert_state : String → StateRecord → S → S × Bool
  pub enqueue : StateRecord → AlertEvent → List Delivery → S → S × Bool
  pub recent_probe_statuses : String → ℤ → S → Option (List ProbeObservation)

-- A queued body, and the notifier and target that it is for.
pub record Queued : Type 0 where
  pub target_key : String
  pub notifier : String
  pub body : Bytes

-- An alert in the history.
pub record Logged : Type 0 where
  pub target_key : String
  pub notifier : String
  pub status : Status
  pub severity : Severity

abbrev pub as_queued : String → Delivery → Queued
as_queued target_key d = record { target_key = target_key; notifier = d.notifier; body = d.body }

abbrev pub as_logged : String → Delivery → Logged
as_logged target_key d = record {
  target_key = target_key;
  notifier = d.notifier;
  status = d.status;
  severity = d.severity;
}

-- What a store shows: the saved record of each key, and the queue and the history, oldest first.
pub record StoreView (S : Type 0) : Type 0 where
  pub saved : S → String → Option StateRecord
  pub queued : S → List Queued
  pub logged : S → List Logged
  -- What a record reads back as: a store may hold its clock less finely.
  pub rounded : StateRecord → StateRecord

-- A write that succeeds is seen whole, and one that fails is not seen at all.
pub record StoreLaws {S : Type 0} (ops : StoreOps S) (view : StoreView S) : Type 0 where
  pub rounded-unset : (rec : StateRecord) → rec.last_alert_at ≡ zero_time → view.rounded rec ≡ rec
  pub saved-save :
      (k j : String) (rec : StateRecord) (s : S)
      → view.saved (ops.save_alert_state k rec s).0 j ≡ (
          if (ops.save_alert_state k rec s).1
          then view.saved s j
          else if str_eq k j
          then some (view.rounded rec)
          else view.saved s j)
  pub queued-save :
      (k : String) (rec : StateRecord) (s : S)
      → view.queued (ops.save_alert_state k rec s).0 ≡ view.queued s
  pub logged-save :
      (k : String) (rec : StateRecord) (s : S)
      → view.logged (ops.save_alert_state k rec s).0 ≡ view.logged s
  pub saved-enqueue :
      (rec : StateRecord) (ev : AlertEvent) (ds : List Delivery) (j : String) (s : S)
      → view.saved (ops.enqueue rec ev ds s).0 j ≡ (
          if (ops.enqueue rec ev ds s).1
          then view.saved s j
          else if str_eq ev.target_key j
          then some (view.rounded rec)
          else view.saved s j)
  pub queued-enqueue :
      (rec : StateRecord) (ev : AlertEvent) (ds : List Delivery) (s : S)
      → view.queued (ops.enqueue rec ev ds s).0 ≡ (
          if (ops.enqueue rec ev ds s).1
          then view.queued s
          else view.queued s ++ map (as_queued ev.target_key) ds)
  pub logged-enqueue :
      (rec : StateRecord) (ev : AlertEvent) (ds : List Delivery) (s : S)
      → view.logged (ops.enqueue rec ev ds s).0 ≡ (
          if (ops.enqueue rec ev ds s).1
          then view.logged s
          else view.logged s ++ map (as_logged ev.target_key) ds)
