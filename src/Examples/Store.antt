-- ===== src/Examples/Store.antt =====
-- The store on a log of two readings and on a transaction that fails.
use certel.Prelude.{◌≡◌, refl, some, map, take, select, ◌==◌}
use mathlib.Core.List.{reverse}
use certel.Prelude.Int.{pos}
use certel.Config.Target.{key}
use certel.Store.Tables.{Store, no_faults, Faults}
use certel.Clock.{unix}
use certel.Store.Logs.{
  probe_row, newer, recent_probe_statuses, record_probe, as_observation, of_target,
}
use certel.Store.Logs.Recent.{recent_probe_statuses-newest}
use certel.Store.Dispatcher.{Ordered, outbox_ops, outbox_queue}
use certel.Store.Dispatcher.Laws.{outbox_laws}
use certel.Alert.Dispatcher.Interface.{OutboxLaws}
use certel.Examples.Data.{engine, store, fine, expiring, target, largest}

abbrev fails_at_2 : Faults
fails_at_2 i = i == 2

abbrev logged : Store
logged = (record_probe engine no_faults expiring (record_probe engine no_faults fine store).0).0

recent_probe_statuses-newest_example :
    recent_probe_statuses no_faults (key target) (pos 1) logged
    ≡ some (
        map as_observation (take 1 (reverse (select (of_target (key target)) logged.db.probe_log))))
unfolding record_probe probe_row newer largest unix key
recent_probe_statuses-newest_example =
    recent_probe_statuses-newest no_faults (key target) 1 logged refl ((refl, tt), (tt, tt))

outbox_laws_example : OutboxLaws (outbox_ops fails_at_2 "pager") Ordered (outbox_queue "pager")
outbox_laws_example = outbox_laws fails_at_2 "pager"
