-- ===== src/Alert/Manager.antt =====
-- `Manager` of internal/alert/manager.go. The clock is an argument, and so is the store, behind the
-- interface that the source gives it. `Process` is one step: it returns the manager, the store and
-- the notifiers that it woke. Log lines are left out.
pub mod Interface
pub mod Restore
pub mod FanOut
pub mod Sends
pub mod Steps
pub mod Repeat
pub mod Saved
pub mod Fires
pub mod Same
pub mod Cycles
pub mod Restart
use certel.Prelude.{
  ℕ, String, Bool, true, false, Option, none, some, List, [], ◌∷◌, map, not, ◌&&◌, ◌||◌, str_eq,
  leb, if◌then◌else◌,
}
use certel.Prelude.Int.{ℤ, pos, pos_part, neg_part, leb_ℤ}
use certel.Prelude.Assoc.{Assoc, lookup, insert}
use certel.Clock.{Time, sub_time, zero_time}
use certel.Config.Repeat.{interval_for}
use certel.Config.Target.{Target, key}
use certel.Probe.Result.{Status, Severity, Result, status_ok, severity_ok}
use certel.Alert.Types.{
  StateRecord, AlertEvent, Delivery, ProbeObservation, NotifierRuntime, TargetState,
}
use certel.Alert.Channel.{channel}
pub use certel.Alert.Decision.{Decision, observation}
unfoldable pub use certel.Alert.Decision.{decide}
use certel.Alert.Debounce.{
  Verdict, held, trusted, streak_or_one, debounce, reconstruct_pending, Pending,
}
use Interface.{StoreOps}

pub record Manager : Type 0 where
  pub notifiers : Assoc NotifierRuntime
  pub states : Assoc TargetState

unfoldable pub new_manager : Assoc NotifierRuntime → Manager
new_manager notifiers = record { notifiers = notifiers; states = [] }

-- The state of a target that no record knows.
abbrev pub healthy : TargetState
healthy = record {
  severity = severity_ok;
  status = status_ok;
  last_alert_at = zero_time;
  pending_severity = "";
  pending_status = "";
  pending_count = 0;
}

abbrev pub state_or_healthy : Option TargetState → TargetState
state_or_healthy none = healthy
state_or_healthy (some st) = st

abbrev pub state_of : Manager → String → TargetState
state_of m k = state_or_healthy (lookup k m.states)

abbrev pub record_of : TargetState → StateRecord
record_of st = record {
  status = st.status;
  severity = st.severity;
  last_alert_at = st.last_alert_at;
}

abbrev pub with_delivery : Option Delivery → List Delivery → List Delivery
with_delivery none ds = ds
with_delivery (some d) ds = d ∷ ds

abbrev pub attached : Option NotifierRuntime → (NotifierRuntime → Option Delivery) → Option Delivery
attached none send = none
attached (some rt) send = send rt

-- The fan-out loop. A name that no notifier has is skipped, and so is a body that does not render.
unfoldable pub fan_out :
    Assoc NotifierRuntime → TargetState → Result → Bool → List String → List Delivery
fan_out runtimes prev r repeat_due [] = []
fan_out runtimes prev r repeat_due (name ∷ rest) =
    with_delivery
      (attached (lookup name runtimes) (channel prev.severity prev.status r repeat_due name))
      (fan_out runtimes prev r repeat_due rest)

pub record Outcome (S : Type 0) : Type 0 where
  pub manager : Manager
  pub store : S
  pub notified : List String

abbrev pub woken : List Delivery → List String
woken = map (λ d. d.notifier)

module _ {S : Type 0} where
  -- `persistState`: a failed write is only logged.
  unfoldable pub persist_state : Option (StoreOps S) → String → TargetState → S → S
  persist_state none target_key st s = s
  persist_state (some ops) target_key st s = (ops.save_alert_state target_key (record_of st) s).0

  enqueue : Option (StoreOps S) → StateRecord → AlertEvent → List Delivery → Manager → S → Outcome S
  enqueue none rec ev ds m s = record { manager = m; store = s; notified = woken ds }
  enqueue (some ops) rec ev ds m s =
      let (s', failed) = ops.enqueue rec ev ds s in
      record { manager = m; store = s'; notified = if failed then [] else woken ds }

  -- The end of `Process`, from the deliveries on.
  unfoldable pub commit :
      Option (StoreOps S) → AlertEvent → Decision → List Delivery → Manager → S → Outcome S
  unfolding persist_state enqueue
  commit store ev d [] m s = record {
    manager = m;
    store = if d.state_changed then persist_state store ev.target_key d.state s else s;
    notified = [];
  }
  commit store ev d (x ∷ ds) m s = enqueue store (record_of d.state) ev (x ∷ ds) m s

  -- `Process` behind the test on its notifiers.
  unfoldable pub process_target : Option (StoreOps S) → Time → Result → Manager → S → Outcome S
  process_target store now r m s =
      let target_key = key r.target in
      let st = state_of m target_key in
      elim (debounce (streak_or_one r.target.flap_streak) st (observation r)) [
        | held st' ↦ record {
          manager = record m { states = insert target_key st' m.states };
          store = s;
          notified = [];
        }
        | trusted st' ↦
            let d = decide now r st' in
            commit store (record { target_key = target_key; address = r.target.address; at = now })
              d (fan_out m.notifiers st' r d.repeat_due r.target.notifiers)
              (record m { states = insert target_key d.state m.states }) s
      ]

  unfoldable pub process : Option (StoreOps S) → Time → Result → Manager → S → Outcome S
  process store now r m s = elim r.target.notifiers [
    | [] ↦ record { manager = m; store = s; notified = [] }
    | name ∷ names ↦ process_target store now r m s
  ]
