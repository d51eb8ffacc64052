-- ===== src/Command/Resumes.antt =====
-- A restart of cmd/certel/monitor.go on its own store: what the handler of results has logged brings
-- back the state that it stood in.
use certel.Prelude.{
  ℕ, ◌<◌, ◌≡◌, refl, sym, ap, ◌∙◌, subst, false, Option, some, List, [], ◌∷◌, ◌++◌, All, inl, inr,
  str_eq,
}
use certel.Prelude.Int.{pos}
use certel.Prelude.Assoc.{Assoc, lookup}
use certel.Clock.{Time}
use certel.Config.Target.{Target, key}
use certel.Probe.Result.{Result}
use certel.Alert.Types.{NotifierRuntime, StateRecord, TargetState}
use certel.Alert.Debounce.{streak_or_one}
use certel.Alert.Manager.{Manager, Outcome, state_of, decide, process, new_manager}
use certel.Alert.Manager.Cycles.{cycles, Steady}
use certel.Alert.Manager.Interface.{StoreOps}
use certel.Alert.Manager.Restart.{Distinct, restore-resumes}
use certel.Alert.Manager.Restore.{restore}
use certel.Alert.Manager.Same.{SameState}
use certel.Alert.Manager.Saved.{record_or_healthy}
use certel.Alert.Manager.Steps.{
  Verdict-cases, nil-cases, verdict, sends, process-skip, process-held, process-trusted,
  commit-manager,
}
use certel.Store.Tables.{Engine, Store, Faults, no_faults}
use certel.Store.Logs.{record_probe}
use certel.Store.Manager.{store_ops}
use certel.Command.Logged.{InTurn, handle_all, handle_all-recent}
use certel.Command.Monitor.{Running, handle_result}

-- What a reading leaves in memory does not depend on the store.
process-manager :
    {S : Type 0} (store : Option (StoreOps S)) (now : Time) (r : Result) (m : Manager) (s s' : S)
    → (process store now r m s).manager ≡ (process store now r m s').manager
process-manager {S} store now r m s s' =
    let manager_of = λ (o : Outcome S). o.manager in
    elim (nil-cases r.target.notifiers) [
      | inl z ↦
          ap manager_of (process-skip store now r m s z)
          ∙ sym (ap manager_of (process-skip store now r m s' z))
      | inr attached ↦ elim (Verdict-cases (verdict store now r m s)) [
        | inl (st, v) ↦
            ap manager_of (process-held store now r m s st attached v)
            ∙ sym (ap manager_of (process-held store now r m s' st attached v))
        | inr (st, v) ↦
            ap manager_of (process-trusted store now r m s st attached v)
            ∙ commit-manager store _ (decide now r st) (sends store now r m s st) _ s
            ∙ sym (commit-manager store _ (decide now r st) (sends store now r m s' st) _ s')
            ∙ sym (ap manager_of (process-trusted store now r m s' st attached v))
      ]
    ]

-- The handler's manager is that of the readings alone.
pub handle_all-manager :
    (e : Engine) (decision : Faults) (history : List (Time × Result)) (run : Running) (s₀ : Store)
    → Running.manager (handle_all e decision history run)
      ≡ Outcome.manager (cycles (some (store_ops e decision)) history run.manager s₀)
unfolding handle_all handle_result cycles
handle_all-manager e decision [] run s₀ = refl
handle_all-manager e decision ((now, r) ∷ older) run s₀ =
    let ops = some (store_ops e decision) in
    let before = handle_all e decision older run in
    let earlier = cycles ops older run.manager s₀ in
    let recorded = record_probe e no_faults r before.store in
    process-manager ops now r before.manager recorded.0 earlier.store
    ∙ ap (λ (m : Manager). Outcome.manager (process ops now r m earlier.store))
        (handle_all-manager e decision older run s₀)

-- A monitor handles readings one after the other, in the order of their times, from an empty
-- probe log, and its writes to that log succeed, whatever else fails. Restore on its store then
-- brings a target with a streak of two or more back to the state that the readings left, with the
-- reminder clock of its saved record, when it started without a candidate, each of its readings
-- had a notifier and that streak, its saved record has the confirmed pair, no two saved records
-- share a key and no other target of the list has its key.
pub handle_all-resumes :
    (e : Engine) (decision read : Faults) (history : List (Time × Result)) (run : Running)
    (rows : Assoc StateRecord) (front back : List Target) (t : Target) (n : ℕ)
    (notifiers : Assoc NotifierRuntime)
    → 1 < n
    → streak_or_one t.flap_streak ≡ pos n
    → All (λ u. str_eq (key u) (key t) ≡ false) front
    → All (λ u. str_eq (key u) (key t) ≡ false) back
    → (state_of run.manager (key t)).pending_count ≡ 0
    → All (Steady (some (store_ops e decision)) (key t) (pos n)) history
    → Distinct rows
    → run.store.db.probe_log ≡ []
    → InTurn history
    → read 0 ≡ false
    → let saved = record_or_healthy (lookup (key t) rows) in
      let end = handle_all e decision history run in
      let live = state_of end.manager (key t) in
      saved.severity ≡ live.severity
      → saved.status ≡ live.status
      → SameState
          (state_of
            (restore
              (some (store_ops e read))
              end.store
              rows
              (front ++ t ∷ back)
              (new_manager notifiers))
            (key t))
          (record live { last_alert_at = saved.last_alert_at })
handle_all-resumes e decision read history run rows front back t n notifiers many streak f b z
      steady distinct empty turn reads severity status =
    let end = handle_all e decision history run in
    let same = handle_all-manager e decision history run run.store in
    let ops = some (store_ops e decision) in
    let then_live = state_of (Outcome.manager (cycles ops history run.manager run.store)) (key t) in
    let move = ap (λ (m : Manager). state_of m (key t)) same in
    subst
      (λ (st : TargetState).
        SameState
          (state_of
            (restore (some (store_ops e read)) end.store rows (front ++ t ∷ back)
              (new_manager notifiers))
            (key t))
          (record st { last_alert_at = (record_or_healthy (lookup (key t) rows)).last_alert_at }))
      (sym move)
      (restore-resumes (store_ops e read) end.store ops run.store rows front back t n notifiers
        run.manager history many streak f b z steady distinct
        (severity ∙ ap (λ (st : TargetState). st.severity) move)
        (status ∙ ap (λ (st : TargetState). st.status) move)
        (handle_all-recent e decision read history run (key t) n empty turn reads))
