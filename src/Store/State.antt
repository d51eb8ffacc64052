-- ===== src/Store/State.antt =====
-- `alert_state` of internal/store/store.go. A write returns the store and whether an error came back.
use certel.Prelude.{
  ℕ, suc, String, Bool, true, false, Option, none, some, List, [], ◌∷◌, not, ◌==◌, if◌then◌else◌,
}
use certel.Prelude.Assoc.{Assoc, insert, without}
use certel.Clock.{Time, unix, from_unix, zero_time, is_zero}
use certel.Alert.Types.{StateRecord}
use certel.Store.Tables.{StateRow, Database, Store, Faults, write_err}

-- t.Unix(), or 0 where `t` is the zero time.
unfoldable pub unix_or_zero : Time → ℕ
unix_or_zero t = if is_zero t then 0 else unix t

unfoldable pub time_or_zero : ℕ → Time
time_or_zero n = if n == 0 then zero_time else from_unix n

unfoldable pub to_row : StateRecord → StateRow
to_row st = record {
  status = st.status;
  severity = st.severity;
  last_alert_at = unix_or_zero st.last_alert_at;
}

unfoldable pub to_record : StateRow → StateRecord
to_record row = record {
  status = row.status;
  severity = row.severity;
  last_alert_at = time_or_zero row.last_alert_at;
}

-- The upsert, as one statement.
unfoldable pub upsert_state : String → StateRecord → Database → Database
upsert_state target_key st db = record db {
  alert_state = insert target_key (to_row st) db.alert_state;
}

unfoldable pub save_alert_state : Faults → String → StateRecord → Store → Store × Bool
save_alert_state fails target_key st s =
    if fails 0
    then (write_err true s, true)
    else (record s { db = upsert_state target_key st s.db }, false)

unfoldable pub load_rows : Assoc StateRow → Assoc StateRecord
load_rows [] = []
load_rows ((k, row) ∷ rest) = (k, to_record row) ∷ load_rows rest

-- `none` is a read error.
unfoldable pub load_alert_states : Faults → Store → Option (Assoc StateRecord)
load_alert_states fails s = if fails 0 then none else some (load_rows s.db.alert_state)

unfoldable pub stale_keys : (String → Bool) → Assoc StateRow → List String
stale_keys valid [] = []
stale_keys valid ((k, row) ∷ rest) =
    let more = stale_keys valid rest in if not (valid k) then k ∷ more else more

-- One DELETE for each stale key; the first that fails ends the call.
unfoldable pub delete_states : Faults → ℕ → List String → Store → Store × Bool
delete_states fails i [] s = (s, false)
delete_states fails i (k ∷ rest) s =
    let next =
      delete_states fails (suc i) rest
        (record s { db = record s.db { alert_state = without k s.db.alert_state } }) in
    if fails i then (write_err true s, true) else next

unfoldable pub prune_alert_states : Faults → (String → Bool) → Store → Store × Bool
prune_alert_states fails valid s =
    if fails 0 then (s, true) else delete_states fails 1 (stale_keys valid s.db.alert_state) s
