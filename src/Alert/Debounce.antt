-- ===== src/Alert/Debounce.antt =====
-- The flap debounce of internal/alert/manager.go: live, and rebuilt from the probe log.
pub mod Streak
pub mod Rebuild
use certel.Prelude.{
  ℕ, suc, String, Bool, true, false, Option, none, some, List, [], ◌∷◌, not, ◌&&◌, ◌||◌, ◌-◌,
  str_eq, ltb, if◌then◌else◌,
}
use certel.Prelude.Int.{ℤ, pos, pos_part, neg_part, ltb_ℤ}
use certel.Clock.{Time}
use certel.Alert.Decision.{observation, decide}
use certel.Probe.Result.{Status, Severity, Result, status_tls_unavailable, status_unreachable}
use certel.Alert.Types.{TargetState, ProbeObservation}

unfoldable pub unreliable_status : Status → Bool
unreliable_status s = str_eq s status_unreachable || str_eq s status_tls_unavailable

-- flap_streak, 1 where it is unset.
abbrev pub streak_or_one : Option ℤ → ℤ
streak_or_one none = pos 1
streak_or_one (some n) = n

-- The reading counts towards the candidate, or starts one.
unfoldable pub bump : TargetState → ProbeObservation → TargetState
bump st o =
    if ltb 0 st.pending_count
      && str_eq st.pending_status o.status
      && str_eq st.pending_severity o.severity
    then record st { pending_count = suc st.pending_count }
    else record st { pending_status = o.status; pending_severity = o.severity; pending_count = 1 }

-- Held: the confirmed pair stands. Trusted: the reading is adopted, and no candidate is left.
pub data Verdict : Type 0 where
  held : TargetState → Verdict
  trusted : TargetState → Verdict

-- Does the reading ask for confirmation?
unfoldable pub tentative : ℤ → TargetState → ProbeObservation → Bool
unfolding unreliable_status
tentative n st o =
    let changing = not (str_eq o.status st.status) || not (str_eq o.severity st.severity) in
    ltb_ℤ (pos 1) n && changing && (unreliable_status o.status || unreliable_status st.status)

unfoldable pub debounce : ℤ → TargetState → ProbeObservation → Verdict
debounce n st o =
    if tentative n st o
    then (let st' = bump st o in
        if ltb_ℤ (pos st'.pending_count) n
        then held st'
        else trusted (record st' { pending_count = 0 }))
    else trusted (record st { pending_count = 0 })

-- The length of the run of `newest` at the head of the history.
unfoldable pub run_length : ProbeObservation → List ProbeObservation → ℕ
run_length newest [] = 0
run_length newest (o ∷ rest) =
    let more = run_length newest rest in
    if not (str_eq o.status newest.status) || not (str_eq o.severity newest.severity)
    then 0
    else suc more

-- n - 1 where that is the smaller, for an n that is at least 2.
abbrev cap : ℕ → ℤ → ℕ
cap count n = if ltb_ℤ n (pos (suc count)) then pos_part n - 1 else count

pub record Pending : Type 0 where
  pub status : Status
  pub severity : Severity
  pub count : ℕ

-- The history is newest first.
unfoldable pub reconstruct_pending : Severity → Status → List ProbeObservation → ℤ → Option Pending
reconstruct_pending conf_severity conf_status [] n = none
reconstruct_pending conf_severity conf_status (newest ∷ older) n =
    let changing =
      not (str_eq newest.status conf_status) || not (str_eq newest.severity conf_severity) in
    let touches_unreliable = unreliable_status newest.status || unreliable_status conf_status in
    let count = run_length newest (newest ∷ older) in
    if not changing || not touches_unreliable
    then none
    else some (record { status = newest.status; severity = newest.severity; count = cap count n })

-- The state that one reading leaves in memory: the lines of `Process` up to its fan-out.
unfoldable pub advance : ℤ → TargetState → Time × Result → TargetState
unfolding decide
advance n st (now, r) = elim (debounce n st (observation r)) [
  | held st' ↦ st'
  | trusted st' ↦ (decide now r st').state
]

-- Readings in turn, newest first.
unfoldable pub replay : ℤ → TargetState → List (Time × Result) → TargetState
replay n st [] = st
replay n st (e ∷ older) = advance n (replay n st older) e

-- What the probe log keeps of a reading.
abbrev pub shown : Time × Result → ProbeObservation
shown e = observation e.1
