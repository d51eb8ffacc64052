-- ===== src/Examples/Decision.antt =====
-- The decision on single readings of a target with two notifiers.
use mathlib.Core.List.{Memᴰ}
use certel.Prelude.{◌≡◌, ◌↔◌, ◌⊎◌, inl, inr, refl, arith, true, false, some, [], ◌∷◌}
use certel.Prelude.Assoc.{lookup, insert}
use certel.Clock.{sub_time}
use certel.Config.Repeat.{interval_for, scalar_repeat}
use certel.Config.Target.{key}
use certel.Probe.Result.{severity_ok, severity_critical, status_ok}
use certel.Alert.Types.{Bytes}
use certel.Alert.Channel.{channel, notifier_floor, severity_rank}
use certel.Alert.Debounce.{debounce, tentative}
use certel.Alert.Manager.{process, state_of, healthy, new_manager}
use certel.Alert.Manager.Sends.{channel_sends, Clears, Problem, Recovery}
use certel.Alert.Manager.Repeat.{process-known, process-enqueue_lost, settled}
use certel.Alert.Manager.Saved.{process-Synced, process_all_or_nothing, made, Synced, Whole}
use certel.Alert.Manager.Fires.{process-fires}
use certel.Store.Manager.{store_ops, store_view, store_laws}
use certel.Store.Outbox.{enqueue, transaction}
use certel.Store.Reliable.{store_ops-IsReliable}
use certel.Store.State.{to_record, to_row, time_or_zero, unix_or_zero}
use certel.Store.Tables.{no_faults}
use certel.Examples.Data.{
  target, manager, store, engine, pager, noon, one_past, expiring, fine, delivery, broken,
}

process-known_example :
    let out = process (some (store_ops engine no_faults)) noon fine manager store in
    (out.store ≡ store)
    × (out.notified ≡ [])
    × (state_of out.manager (key target)
        ≡ settled (some (store_ops engine no_faults)) noon fine manager store)
unfolding key lookup new_manager interval_for scalar_repeat sub_time insert
process-known_example =
    process-known (some (store_ops engine no_faults)) noon fine manager store (λ e. cc) (refl, refl)
      refl

process-enqueue_lost_example :
    let out = process (some (store_ops engine broken)) noon expiring manager store in
    let next = process (some (store_ops engine broken)) one_past expiring out.manager out.store in
    (store_view.queued next.store ≡ []) × (next.notified ≡ [])
unfolding key lookup new_manager debounce tentative enqueue transaction interval_for scalar_repeat
    sub_time insert
process-enqueue_lost_example =
    process-enqueue_lost (store_ops engine broken) store_view (store_laws engine broken) noon
      one_past expiring manager store healthy (λ e. cc) refl refl (inl (λ e. cc))
      (λ rec ev ds. refl) refl

process-Synced_example :
    Synced
      (store_ops engine no_faults)
      store_view
      (store_laws engine no_faults)
      (process (some (store_ops engine no_faults)) noon expiring manager store).manager
      (process (some (store_ops engine no_faults)) noon expiring manager store).store
unfolding lookup new_manager to_record to_row time_or_zero unix_or_zero
process-Synced_example =
    process-Synced (store_ops engine no_faults) store_view (store_laws engine no_faults)
      (store_ops-IsReliable engine) noon expiring manager store (record { at_key = λ j. refl })

process_all_or_nothing_example :
    Whole
      (store_ops engine no_faults)
      store_view
      (store_laws engine no_faults)
      (key target)
      store
      (made
        (store_ops engine no_faults)
        store_view
        (store_laws engine no_faults)
        noon
        expiring
        manager
        store)
      (process (some (store_ops engine no_faults)) noon expiring manager store)
process_all_or_nothing_example =
    process_all_or_nothing (store_ops engine no_faults) store_view (store_laws engine no_faults)
      noon expiring manager store

ok_below : ¬ Clears severity_critical severity_ok
ok_below (inl (e, c)) = cc
ok_below (inr (inl (e, inl c))) = cc
ok_below (inr (inl (e, inr c))) = cc
ok_below (inr (inr (e, c))) = cc

channel_sends_example :
    (channel severity_ok status_ok expiring false "pager" pager ≡ some delivery) ↔ (
      (body : Bytes) × (delivery ≡ record delivery { body = body })
      × ((Problem (severity_ok, status_ok) (expiring.severity, expiring.status) false
            × (pager.render expiring false ≡ some body))
          ⊎ (Recovery
                (severity_ok, status_ok)
                (expiring.severity, expiring.status)
                pager.config.send_recovery
              × (pager.render expiring true ≡ some body))))
channel_sends_example =
    channel_sends "pager" pager severity_ok status_ok expiring false severity_critical
      (severity_ok, status_ok) (expiring.severity, expiring.status) delivery
      (inr (refl, inr (inl refl))) (inr (ok_below, refl)) (inl (inr (inl (refl, inl refl)), refl))

process-fires_example :
    Memᴰ
      (record { target_key = key target; notifier = "pager"; body = 2 ∷ [] })
      (store_view.queued
        (process (some (store_ops engine no_faults)) noon expiring manager store).store)
unfolding key lookup new_manager debounce tentative severity_rank notifier_floor
process-fires_example =
    process-fires (store_ops engine no_faults) store_view (store_laws engine no_faults) noon
      expiring manager store "pager" pager (2 ∷ []) healthy (store_ops-IsReliable engine) refl
      (λ e. cc) (inl (λ e. cc)) (Memᴰ.head refl) refl (omega arith) refl
