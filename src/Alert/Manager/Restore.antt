-- ===== src/Alert/Manager/Restore.antt =====
-- `Restore` of internal/alert/manager.go: the saved records, then each target's flap counter from
-- the probe log.
use certel.Prelude.{String, Option, none, some, List, [], ◌∷◌, if◌then◌else◌}
use certel.Prelude.Int.{ℤ, pos, leb_ℤ}
use certel.Prelude.Assoc.{Assoc, insert}
use certel.Config.Target.{Target, key}
use certel.Alert.Types.{StateRecord, ProbeObservation, TargetState}
use certel.Alert.Debounce.{Pending, streak_or_one, reconstruct_pending}
use certel.Alert.Manager.{Manager, healthy, state_of}
use certel.Alert.Manager.Interface.{StoreOps}

abbrev pub from_record : StateRecord → TargetState
from_record r = record healthy {
  severity = r.severity;
  status = r.status;
  last_alert_at = r.last_alert_at;
}

unfoldable pub seed : Assoc StateRecord → Manager → Manager
seed [] m = m
seed ((k, r) ∷ rest) m = seed rest (record m { states = insert k (from_record r) m.states })

abbrev pub with_pending : TargetState → Pending → TargetState
with_pending st p = record st {
  pending_status = p.status;
  pending_severity = p.severity;
  pending_count = p.count;
}

abbrev pub adopt_pending : String → TargetState → Option Pending → Manager → Manager
adopt_pending k st none m = m
adopt_pending k st (some p) m = record m { states = insert k (with_pending st p) m.states }

-- A log that cannot be read leaves the target without a counter.
abbrev pub adopt_history :
    String → TargetState → ℤ → Option (List ProbeObservation) → Manager → Manager
adopt_history k st n none m = m
adopt_history k st n (some obs) m =
    adopt_pending k st (reconstruct_pending st.severity st.status obs n) m

module _ {S : Type 0} where
  unfoldable pub rebuild_target : StoreOps S → S → Target → Manager → Manager
  rebuild_target ops s t m =
      let n = streak_or_one t.flap_streak in
      if leb_ℤ n (pos 1)
      then m
      else adopt_history (key t) (state_of m (key t)) n (ops.recent_probe_statuses (key t) n s) m

  unfoldable pub rebuild : StoreOps S → S → List Target → Manager → Manager
  unfolding rebuild_target
  rebuild ops s [] m = m
  rebuild ops s (t ∷ rest) m = rebuild ops s rest (rebuild_target ops s t m)

  unfoldable pub restore :
      Option (StoreOps S) → S → Assoc StateRecord → List Target → Manager → Manager
  unfolding seed rebuild
  restore none s states targets m = seed states m
  restore (some ops) s states targets m = rebuild ops s targets (seed states m)
