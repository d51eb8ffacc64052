-- ===== src/Command/Restarts.antt =====
-- A run and a start of cmd/certel/monitor.go, one after the other on the same store.
use certel.Prelude.{
  ℕ, ◌<◌, ◌≡◌, refl, sym, ap, ◌∙◌, subst, String, true, false, some, List, [], ◌∷◌, ◌++◌, All,
  str_eq, str_refl, Bool-cases, inl, inr,
}
use certel.Prelude.Int.{pos, ℤ}
use certel.Prelude.Assoc.{Assoc, lookup}
use certel.Clock.{Time}
use certel.Config.Target.{Target, key}
use certel.Probe.Result.{Result}
use certel.Alert.Types.{NotifierRuntime, StateRecord, TargetState}
use certel.Alert.Debounce.{streak_or_one}
use certel.Alert.Manager.{Manager, Outcome, state_of, record_of, new_manager}
use certel.Alert.Manager.Cycles.{cycles, Steady}
use certel.Alert.Manager.Restart.{Distinct, restore-resumes}
use certel.Alert.Manager.Restore.{restore}
use certel.Alert.Manager.Same.{SameState}
use certel.Alert.Manager.Saved.{record_or_healthy, Synced, process-Synced}
use certel.Store.Tables.{Store, Engine, Faults, no_faults}
use certel.Store.State.{load_rows, load_alert_states, to_record, to_row, prune_alert_states}
use certel.Store.Logs.{record_probe, recent_probe_statuses}
use certel.Store.Manager.{store_ops, store_view, store_laws}
use certel.Store.Orphans.{drop_orphaned_outbox}
use certel.Store.Reliable.{store_ops-IsReliable}
use certel.Command.Logged.{log_of, InTurn, handle_all, handle_all-recent}
use certel.Command.Monitor.{
  Running, handle_result, keep_valid, is_configured, has_notifier, start_monitor,
}
use certel.Command.Restarted.{
  prune_alert_states-log, drop_orphaned_outbox-log, lookup-load_rows, lookup-keep_valid,
  Distinct-keep_valid,
}
use certel.Command.Resumes.{handle_all-manager}

-- Memory and store agree while the monitor runs.
abbrev pub InStep : Engine → Manager → Store → Type 0
InStep e m s = Synced (store_ops e no_faults) store_view (store_laws e no_faults) m s

record_probe-InStep :
    (e : Engine) (r : Result) (m : Manager) (s : Store)
    → InStep e m s
    → InStep e m (record_probe e no_faults r s).0
unfolding record_probe
record_probe-InStep e r m s h = record { at_key = h.at_key }

handle_all-InStep :
    (e : Engine) (history : List (Time × Result)) (run : Running)
    → InStep e run.manager run.store
    → InStep e
        (Running.manager (handle_all e no_faults history run))
        (Running.store (handle_all e no_faults history run))
unfolding handle_all handle_result
handle_all-InStep e [] run h = h
handle_all-InStep e ((now, r) ∷ older) run h =
    let before = handle_all e no_faults older run in
    process-Synced (store_ops e no_faults) store_view (store_laws e no_faults)
      (store_ops-IsReliable e) now r before.manager (record_probe e no_faults r before.store).0
      (record_probe-InStep e r before.manager before.store (handle_all-InStep e older run h))

recent-log :
    (fails : Faults) (k : String) (n : ℤ) (s s' : Store)
    → log_of s ≡ log_of s'
    → recent_probe_statuses fails k n s ≡ recent_probe_statuses fails k n s'
unfolding recent_probe_statuses
recent-log fails k n s s' h = rw h

own_configured :
    (front back : List Target) (t : Target) → is_configured (front ++ t ∷ back) (key t) ≡ true
own_configured [] back t = rw (str_refl (key t))
own_configured (u ∷ front) back t = elim (Bool-cases (str_eq (key u) (key t))) [
  | inl h ↦ rw h refl
  | inr h ↦ rw h (own_configured front back t)
]

-- What is loaded for a target is what its state was saved as.
loaded-saved :
    (e : Engine) (m : Manager) (s : Store) (front back : List Target) (t : Target)
    → InStep e m s
    → record_or_healthy (
        lookup
          (key t)
          (keep_valid (is_configured (front ++ t ∷ back)) (load_rows s.db.alert_state)))
      ≡ to_record (to_row (record_of (state_of m (key t))))
loaded-saved e m s front back t h =
    let valid = is_configured (front ++ t ∷ back) in
    ap record_or_healthy (
      lookup-keep_valid valid (key t) (load_rows s.db.alert_state) (own_configured front back t)
      ∙ lookup-load_rows (key t) s.db.alert_state)
    ∙ h.at_key (key t)

-- A monitor starts with memory and store in step, an empty probe log and no candidate for a
-- target, and handles readings one after the other, in the order of their times, while its writes
-- succeed; each reading of the target had a notifier and one streak of two or more. The monitor
-- that is started again on its store, where the load and the reads succeed, whatever the pruning
-- and dropping of rows meet, has the state of the target as it was, the reminder clock to the
-- precision that the store holds, when no two saved records share a key and no other target of
-- the list has its key.
pub start_monitor-resumes :
    (e : Engine) (prune drop : Faults) (history : List (Time × Result)) (run : Running)
    (front back : List Target) (t : Target) (n : ℕ) (runtimes : Assoc NotifierRuntime)
    → 1 < n
    → streak_or_one t.flap_streak ≡ pos n
    → All (λ u. str_eq (key u) (key t) ≡ false) front
    → All (λ u. str_eq (key u) (key t) ≡ false) back
    → (state_of run.manager (key t)).pending_count ≡ 0
    → All (Steady (some (store_ops e no_faults)) (key t) (pos n)) history
    → run.store.db.probe_log ≡ []
    → InStep e run.manager run.store
    → InTurn history
    → let end = handle_all e no_faults history run in
      let live = state_of end.manager (key t) in
      Distinct (load_rows end.store.db.alert_state)
      → (m : Manager) × (s : Store) × (start_monitor e no_faults prune drop no_faults
            (front ++ t ∷ back)
            runtimes
            end.store
          ≡ some (m, s))
        × SameState
            (state_of m (key t))
            (record live { last_alert_at = (to_record (to_row (record_of live))).last_alert_at })
unfolding start_monitor load_alert_states to_record to_row
start_monitor-resumes e prune drop history run front back t n runtimes many streak f b z steady
      empty step turn distinct =
    let end = handle_all e no_faults history run in
    let targets = front ++ t ∷ back in
    let valid = is_configured targets in
    let rows = keep_valid valid (load_rows end.store.db.alert_state) in
    let pruned = prune_alert_states prune valid end.store in
    let dropped = drop_orphaned_outbox drop (has_notifier runtimes) pruned.0 in
    let same_log : log_of dropped.0 ≡ log_of end.store =
      drop_orphaned_outbox-log drop (has_notifier runtimes) pruned.0
      ∙ prune_alert_states-log prune valid end.store in
    let recent =
      recent-log no_faults (key t) (pos n) dropped.0 end.store same_log
      ∙ handle_all-recent e no_faults no_faults history run (key t) n empty turn refl in
    let saved =
      loaded-saved e end.manager end.store front back t (handle_all-InStep e history run step) in
    let ops = some (store_ops e no_faults) in
    let move =
      ap (λ (m : Manager). state_of m (key t))
        (handle_all-manager e no_faults history run run.store) in
    let back_again =
      restore-resumes (store_ops e no_faults) dropped.0 ops run.store rows front back t n runtimes
        run.manager history many streak f b z steady
        (Distinct-keep_valid valid (load_rows end.store.db.alert_state) distinct)
        (ap (λ (r : StateRecord). r.severity) saved ∙ ap (λ (st : TargetState). st.severity) move)
        (ap (λ (r : StateRecord). r.status) saved ∙ ap (λ (st : TargetState). st.status) move)
        recent in
    let final =
      restore (some (store_ops e no_faults)) dropped.0 rows targets (new_manager runtimes) in
    (
      final,
      dropped.0,
      refl,
      subst
          (λ (st : TargetState).
            SameState (state_of final (key t))
              (record st { last_alert_at = (to_record (to_row (record_of st))).last_alert_at }))
          (sym move)
          (subst
            (λ (time : Time).
              SameState (state_of final (key t))
                (record (state_of (Outcome.manager (cycles ops history run.manager run.store))
                  (key t)) { last_alert_at = time }))
            (ap (λ (r : StateRecord). r.last_alert_at) saved
              ∙ ap (λ (st : TargetState). (to_record (to_row (record_of st))).last_alert_at) move)
            back_again),
    )
