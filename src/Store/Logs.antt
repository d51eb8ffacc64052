-- ===== src/Store/Logs.antt =====
-- `probe_log` and the pruning of both logs, of internal/store/store.go.
pub mod Recent
use certel.Prelude.{
  ℕ, suc, ◌+◌, ◌-◌, ◌/◌, ◌*◌, String, Bool, true, false, Option, none, some, List, [], ◌∷◌, ◌++◌,
  map, not, ◌&&◌, ◌||◌, ◌==◌, ltb, str_eq, select, length, take, if◌then◌else◌,
}
use certel.Prelude.Int.{ℤ, pos, negsuc}
use certel.Clock.{Time, Duration, unix}
use certel.Config.Target.{key}
use certel.Probe.Result.{Result, effective_not_after}
use certel.Alert.Types.{ProbeObservation}
use certel.Store.Tables.{Database, Store, ProbeRow, AlertRow, Engine, Faults, write_err}
use certel.Store.State.{unix_or_zero}

-- Milliseconds, truncated toward zero.
abbrev pub milliseconds : Duration → ℤ
milliseconds (pos n) = pos (n / 1000000)
milliseconds (negsuc n) = elim ((n + 1) / 1000000) [ ℕ.zero ↦ pos 0 | ℕ.suc k ↦ negsuc k ]

unfoldable pub probe_row : ℕ → Result → ProbeRow
probe_row id r = record {
  id = id;
  target_key = key r.target;
  address = r.target.address;
  protocol = r.target.protocol;
  checked_at = unix r.checked_at;
  status = r.status;
  severity = r.severity;
  message = r.message;
  days_left = r.days_left;
  not_after = unix_or_zero (effective_not_after r);
  duration_ms = milliseconds r.duration;
  attempts = r.attempts;
}

unfoldable pub record_probe : Engine → Faults → Result → Store → Store × Bool
record_probe e fails r s = if fails 0 then (write_err true s, true) else (
  record s {
    db = record s.db {
      probe_log = s.db.probe_log ++ probe_row (e.new_id (map (λ p. p.id) s.db.probe_log)) r ∷ [];
    };
  },
  false,
)

-- ORDER BY checked_at DESC, id DESC: does `a` stand before `b`?
unfoldable pub newer : ProbeRow → ProbeRow → Bool
newer a b = ltb b.checked_at a.checked_at || (a.checked_at == b.checked_at && ltb b.id a.id)

unfoldable pub place_recent : ProbeRow → List ProbeRow → List ProbeRow
place_recent p [] = p ∷ []
place_recent p (q ∷ rest) =
    let later = q ∷ place_recent p rest in if newer q p then later else p ∷ q ∷ rest

unfoldable pub sort_recent : List ProbeRow → List ProbeRow
sort_recent [] = []
sort_recent (p ∷ rest) = place_recent p (sort_recent rest)

-- LIMIT; a negative one is no limit.
abbrev pub limited {ℓ} : {A : Type ℓ} → ℤ → List A → List A
limited (pos n) xs = take n xs
limited (negsuc n) xs = xs

abbrev pub as_observation : ProbeRow → ProbeObservation
as_observation p = record { status = p.status; severity = p.severity }

abbrev pub of_target : String → ProbeRow → Bool
of_target target_key p = str_eq p.target_key target_key

unfoldable pub recent_probe_statuses : Faults → String → ℤ → Store → Option (List ProbeObservation)
recent_probe_statuses fails target_key limit s =
    if fails 0
    then none
    else some (
        map as_observation
          (limited limit (sort_recent (select (of_target target_key) s.db.probe_log))))

-- How many rows a DELETE of those before a cutoff takes away.
abbrev removed {ℓ} : {A : Type ℓ} → List A → List A → ℕ
removed before after = length before - length after

-- Two DELETEs; the rows that the first took away are counted also where the second fails.
unfoldable pub prune_logs : Faults → Time → Time → Store → Store × ℕ × Bool
prune_logs fails probe_older_than alert_older_than s =
    let probes = select (λ p. not (ltb p.checked_at (unix probe_older_than))) s.db.probe_log in
    let alerts = select (λ a. not (ltb a.logged_at (unix alert_older_than))) s.db.alert_log in
    let s' = record s { db = record s.db { probe_log = probes } } in
    let total = removed s.db.probe_log probes in
    if fails 0
    then (write_err true s, 0, true)
    else if fails 1
    then (write_err true s', total, true)
    else (
      record s' { db = record s'.db { alert_log = alerts } },
      total + removed s.db.alert_log alerts,
      false,
    )
