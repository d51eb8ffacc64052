-- ===== src/Alert/Channel.antt =====
-- What one notifier sees of a target: the severity ladder, the delivery floor and the switch that
-- decides on a notice (internal/alert/manager.go).
pub mod Ladder
use certel.Prelude.{
  ℕ, String, Bool, true, false, Option, none, some, not, ◌&&◌, ◌||◌, str_eq, leb, if◌then◌else◌,
}
use certel.Config.Target.{AlertConfig, send_recovery_enabled}
use certel.Probe.Result.{
  Status, Severity, Result, status_ok, severity_ok, severity_warning, severity_critical,
  severity_emergency,
}
use certel.Alert.Types.{NotifierRuntime, Delivery, Bytes}

unfoldable pub severity_rank : Severity → ℕ
severity_rank s =
    if str_eq s severity_warning
    then 1
    else if str_eq s severity_critical
    then 2
    else if str_eq s severity_emergency
    then 3
    else 0

unfoldable pub clamp_view : Severity → Status → Severity → Severity × Status
clamp_view sev status floor =
    if leb (severity_rank floor) (severity_rank sev)
    then (sev, status)
    else (severity_ok, status_ok)

unfoldable pub notifier_floor : String → Severity
notifier_floor min_severity = if str_eq min_severity "" then severity_warning else min_severity

abbrev pub is_bad : Severity → Bool
is_bad s = not (str_eq s severity_ok)

-- The outcome of the switch of `Process`: no notice, a problem or a recovery.
pub data Notice : Type 0 where
  silent : Notice
  problem : Notice
  recovery : Notice

-- The switch on the clamped views before and after.
unfoldable pub notice : (prev cur : Severity × Status) → Bool → Bool → Notice
notice prev cur repeat_due send_recovery =
    let cbad = is_bad cur.0 in
    let cwas_bad = is_bad prev.0 in
    if cbad && (not cwas_bad || not (str_eq cur.1 prev.1) || not (str_eq cur.0 prev.0))
    then problem
    else if cbad && repeat_due
    then problem
    else if not cbad && cwas_bad && send_recovery
    then recovery
    else silent

-- A body that does not render is not sent.
abbrev pub rendered : String → Severity × Status → Option Bytes → Option Delivery
rendered name cur none = none
rendered name cur (some body) =
    some (record { notifier = name; status = cur.1; severity = cur.0; body = body })

abbrev pub deliver : String → Severity × Status → NotifierRuntime → Result → Bool → Option Delivery
deliver name cur rt r recovered =
    rendered name cur (rt.render (record r { severity = cur.0; status = cur.1 }) recovered)

abbrev pub on_notice : Notice → (Bool → Option Delivery) → Option Delivery
on_notice silent send = none
on_notice problem send = send false
on_notice recovery send = send true

-- One round of the fan-out loop, for a notifier that is defined.
unfoldable pub channel :
    (prev_severity : Severity)
    → (prev_status : Status) → Result
    → (repeat_due : Bool) → String
    → NotifierRuntime
    → Option Delivery
channel prev_severity prev_status r repeat_due name rt =
    let floor = notifier_floor rt.config.min_severity in
    let prev = clamp_view prev_severity prev_status floor in
    let cur = clamp_view r.severity r.status floor in
    on_notice (notice prev cur repeat_due (send_recovery_enabled rt.config)) (deliver name cur rt r)
