-- ===== src/Alert/Decision.antt =====
-- What `Process` of internal/alert/manager.go settles on a reading that it trusts.
use certel.Prelude.{Bool, not, ◌&&◌, ◌||◌, str_eq, if◌then◌else◌}
use certel.Prelude.Int.{leb_ℤ}
use certel.Clock.{Time, sub_time}
use certel.Config.Repeat.{interval_for}
use certel.Probe.Result.{Result}
use certel.Alert.Types.{TargetState, ProbeObservation}
use certel.Alert.Channel.{is_bad}

abbrev pub observation : Result → ProbeObservation
observation r = record { status = r.status; severity = r.severity }

-- What `Process` settles on the unclamped severity, from the state before the reading.
pub record Decision : Type 0 where
  pub state : TargetState
  pub repeat_due : Bool
  pub state_changed : Bool

unfoldable pub decide : Time → Result → TargetState → Decision
decide now r st =
    let bad = is_bad r.severity in
    let was_bad = is_bad st.severity in
    let differs = not (str_eq r.status st.status) || not (str_eq r.severity st.severity) in
    let shape_change = bad && (not was_bad || differs) in
    let interval = interval_for r.target.alert_repeat_interval r.severity in
    let repeat_due = bad && leb_ℤ interval (sub_time now st.last_alert_at) in
    let fired = shape_change || repeat_due in
    record {
      state = record st {
        severity = r.severity;
        status = r.status;
        last_alert_at = if fired then now else st.last_alert_at;
      };
      repeat_due = repeat_due;
      state_changed = differs || fired;
    }
