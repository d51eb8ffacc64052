-- ===== src/Examples/Restart.antt =====
-- A restart in the middle of an outage, after two of the three readings that confirm it.
use certel.Prelude.{◌≡◌, refl, arith, some, none, Option, List, [], ◌∷◌}
use certel.Prelude.Int.{pos}
use certel.Prelude.Assoc.{lookup, insert}
use certel.Clock.{Time, unix}
use certel.Config.Target.{key}
use certel.Probe.Result.{Result}
use certel.Alert.Debounce.{replay, tentative, debounce, bump, unreliable_status}
use certel.Alert.Manager.{
  Manager, record_of, state_of, new_manager, process, process_target, healthy,
}
use certel.Alert.Manager.Cycles.{readings_of, history_of, cycles, cycles-replay}
use certel.Alert.Manager.Interface.{StoreOps}
use certel.Alert.Manager.Restart.{restore-resumes}
use certel.Alert.Manager.Restore.{restore}
use certel.Alert.Manager.Same.{SameState}
use certel.Store.Logs.{
  recent_probe_statuses, record_probe, probe_row, newer, place_recent, sort_recent,
}
use certel.Command.Logged.{handle_all}
use certel.Command.Monitor.{Running, handle_result, start_monitor}
use certel.Command.Restarts.{start_monitor-resumes}
use certel.Store.State.{to_record, to_row, time_or_zero, unix_or_zero, load_rows}
use certel.Metrics.{number}
use certel.Store.Manager.{store_ops}
use certel.Store.Tables.{Store, no_faults}
use certel.Examples.Data.{
  engine, store, manager, notifiers, target, noon, one_past, unreachable, largest,
}

abbrev history : List (Time × Result)
history = (one_past, unreachable) ∷ (noon, unreachable) ∷ []

abbrev log : Store
log =
    (record_probe engine no_faults unreachable
      (record_probe engine no_faults unreachable store).0).0

abbrev old : Option (StoreOps Store)
old = some (store_ops engine no_faults)

cycles-replay_example :
    state_of (cycles old history manager store).manager (key target)
    ≡ replay (pos 3) (state_of manager (key target)) (history_of (key target) history)
cycles-replay_example =
    cycles-replay old (key target) (pos 3) history manager store
      (λ e. (refl, λ f. cc), (λ e. (refl, λ f. cc), tt))

restore-resumes_example :
    SameState
      (state_of (restore old log [] (target ∷ []) (new_manager notifiers)) (key target))
      (record (state_of (cycles old history manager store).manager (key target)) {
        last_alert_at = healthy.last_alert_at;
      })
unfolding lookup new_manager cycles process process_target debounce tentative bump insert key
    recent_probe_statuses readings_of sort_recent record_probe probe_row place_recent newer unix
    largest unreliable_status
restore-resumes_example =
    restore-resumes (store_ops engine no_faults) log old store [] [] [] target 3 notifiers manager
      history (omega arith) refl tt tt refl (λ e. (refl, λ f. cc), (λ e. (refl, λ f. cc), tt)) tt
      refl refl refl

abbrev running : Running
running = record {
  metrics = record {
    last = [];
    target_info = [];
    build_info = record { metric = "certel_build_info"; labels = []; value = number 1 };
    successes = [];
    failures = [];
    store_errors = 0;
    cycle = record { staleness = pos 0; completed = none };
  };
  manager = manager;
  store = store;
}

start_monitor-resumes_example :
    let end = handle_all engine no_faults history running in
    let live = state_of end.manager (key target) in
    (m : Manager) × (s : Store) × (start_monitor engine no_faults no_faults no_faults no_faults
        (target ∷ [])
        notifiers
        end.store
      ≡ some (m, s))
    × SameState
        (state_of m (key target))
        (record live { last_alert_at = (to_record (to_row (record_of live))).last_alert_at })
unfolding lookup new_manager handle_all handle_result process process_target debounce tentative bump
    insert key unix largest unreliable_status to_record to_row time_or_zero unix_or_zero load_rows
    record_probe
start_monitor-resumes_example =
    start_monitor-resumes engine no_faults no_faults history running [] [] target 3 notifiers
      (omega arith) refl tt tt refl (λ e. (refl, λ f. cc), (λ e. (refl, λ f. cc), tt)) refl
      (record { at_key = λ j. refl }) ((omega arith, tt), (tt, tt)) tt
