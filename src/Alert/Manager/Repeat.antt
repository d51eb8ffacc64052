-- ===== src/Alert/Manager/Repeat.antt =====
-- Deduplication: a problem that is known sends nothing until its reminder is due, and a write of it
-- that failed is not made up for.
use certel.Prelude.{
  true, false, Option, some, List, [], ◌∷◌, ◌≡◌, ◌≢◌, arith, sym, ap, ◌∙◌, ◌⊎◌, ◌&&◌, eq_iff,
}
use certel.Prelude.Int.{ℤ, leb_ℤ}
use certel.Clock.{Time, sub_time}
use certel.Config.Repeat.{interval_for}
use certel.Config.Target.{key}
use certel.Probe.Result.{Result, severity_ok}
use certel.Alert.Types.{TargetState, StateRecord, AlertEvent, Delivery}
use certel.Alert.Channel.{is_bad}
use certel.Alert.Debounce.{trusted, streak_or_one, debounce, tentative}
use certel.Alert.Manager.{
  Manager, Decision, Outcome, state_of, observation, decide, commit, process, record_of,
}
use certel.Alert.Manager.Interface.{StoreOps, StoreView, StoreLaws}
use certel.Alert.Manager.FanOut.{fan_out-unchanged}
use certel.Alert.Manager.Steps.{keep, process-trusted, state_of-insert_self, state_of-trusted}

-- The reading is no problem, or the reminder clock has not run for the interval of its severity.
abbrev pub NotDue : Time → Result → TargetState → Type 0
NotDue now r st =
    (is_bad r.severity
      && leb_ℤ (interval_for r.target.alert_repeat_interval r.severity)
          (sub_time now st.last_alert_at))
    ≡ false

-- The confirmed pair is the reading.
abbrev pub IsKnown : Result → TargetState → Type 0
IsKnown r st = (r.severity ≡ st.severity) × (r.status ≡ st.status)

debounce-known :
    (n : ℤ) (r : Result) (st : TargetState)
    → IsKnown r st
    → debounce n st (observation r) ≡ trusted (record st { pending_count = 0 })
unfolding debounce tentative
debounce-known n r st h = ground (arith, eq_iff r.status st.status, eq_iff r.severity st.severity)

decide-known :
    (now : Time) (r : Result) (st : TargetState)
    → IsKnown r st
    → NotDue now r st
    → ((decide now r st).repeat_due ≡ false)
      × ((decide now r st).state_changed ≡ false)
      × ((decide now r st).state ≡ st)
unfolding decide
decide-known now r st h d = ground (arith, eq_iff r.status st.status, eq_iff r.severity st.severity)

commit-quiet :
    {S : Type 0} (store : Option (StoreOps S)) (ev : AlertEvent) (d : Decision) (ds : List Delivery)
    (m : Manager) (s : S)
    → d.state_changed ≡ false
    → ds ≡ []
    → commit store ev d ds m s ≡ record { manager = m; store = s; notified = [] }
unfolding commit
commit-quiet store ev d ds m s unchanged none_sent = rw none_sent (rw (unchanged, commit))

module _ {S : Type 0} (store : Option (StoreOps S)) (now : Time) (r : Result) (m : Manager)
    (s : S) where
  -- The state in which a known reading leaves its target.
  abbrev pub settled : TargetState
  settled = record (state_of m (key r.target)) { pending_count = 0 }

  process-quiet :
      r.target.notifiers ≢ []
      → IsKnown r (state_of m (key r.target))
      → NotDue now r (state_of m (key r.target))
      → process store now r m s
        ≡ record { manager = keep store now r m s settled; store = s; notified = [] }
  process-quiet attached known early =
      let (not_due, unchanged, same) = decide-known now r settled known early in
      process-trusted store now r m s settled attached
        (debounce-known _ r (state_of m (key r.target)) known)
      ∙ commit-quiet store _ (decide now r settled) _ _ s unchanged
          (rw not_due (fan_out-unchanged m.notifiers settled r r.target.notifiers known.0 known.1))
      ∙ ap (λ st. record { manager = keep store now r m s st; store = s; notified = [] }) same

  -- A reading of a target with notifiers that is the confirmed pair and that is no problem or
  -- whose reminder is not due, writes nothing, wakes nobody and leaves the confirmed pair and the
  -- clock; it only drops a candidate.
  pub process-known :
      r.target.notifiers ≢ []
      → IsKnown r (state_of m (key r.target))
      → NotDue now r (state_of m (key r.target))
      → let out = process store now r m s in
        (out.store ≡ s) × (out.notified ≡ []) × (state_of out.manager (key r.target) ≡ settled)
  process-known attached known early =
      let q = process-quiet attached known early in
      (
        ap (λ o. o.store) q,
        ap (λ o. o.notified) q,
        ap (λ o. state_of o.manager (key r.target)) q
            ∙ state_of-insert_self m (key r.target) settled,
      )

decide-fresh :
    (now : Time) (r : Result) (st : TargetState)
    → is_bad r.severity ≡ true
    → (r.status ≢ st.status) ⊎ (r.severity ≢ st.severity)
    → (decide now r st).state
      ≡ record st { severity = r.severity; status = r.status; last_alert_at = now }
unfolding decide
decide-fresh now r st b d = ground (
  arith,
  eq_iff r.status st.status,
  eq_iff r.severity st.severity,
  eq_iff st.severity severity_ok,
)

commit-failed :
    {S : Type 0} (ops : StoreOps S) (view : StoreView S) (laws : StoreLaws ops view)
    (ev : AlertEvent) (d : Decision) (ds : List Delivery) (m : Manager) (s : S)
    → ((ops.enqueue (record_of d.state) ev ds s).1 ≡ true)
    → view.queued (commit (some ops) ev d ds m s).store ≡ view.queued s
unfolding commit
commit-failed ops view laws ev d [] m s failed =
    ground (arith, laws.queued-save ev.target_key (record_of d.state) s)
commit-failed ops view laws ev d (x ∷ ds) m s failed =
    ground (arith, laws.queued-enqueue (record_of d.state) ev (x ∷ ds) s)

-- On a store that keeps its laws, a trusted new problem of a target with notifiers whose enqueue
-- fails is not enqueued by the next cycle: until its reminder is due, the same reading leaves the
-- queue as it was and wakes nobody.
pub process-enqueue_lost :
    {S : Type 0} (ops : StoreOps S) (view : StoreView S) (laws : StoreLaws ops view)
    (first later : Time) (r : Result) (m : Manager) (s : S) (st : TargetState)
    → r.target.notifiers ≢ []
    → debounce (streak_or_one r.target.flap_streak) (state_of m (key r.target)) (observation r)
      ≡ trusted st
    → is_bad r.severity ≡ true
    → (r.status ≢ st.status) ⊎ (r.severity ≢ st.severity)
    → ((rec : StateRecord) (ev : AlertEvent) (ds : List Delivery)
        → (ops.enqueue rec ev ds s).1 ≡ true)
    → leb_ℤ (interval_for r.target.alert_repeat_interval r.severity) (sub_time later first) ≡ false
    → let out = process (some ops) first r m s in
      let next = process (some ops) later r out.manager out.store in
      (view.queued next.store ≡ view.queued s) × (next.notified ≡ [])
process-enqueue_lost {S} ops view laws first later r m s st attached v bad fresh fails early = (
  ap view.queued q.0
      ∙ ap (λ o. view.queued o.store) (process-trusted (some ops) first r m s st attached v)
      ∙ commit-failed ops view laws _ _ _ _ s (fails _ _ _),
  q.1,
)
  where
    out : Outcome S
    out = process (some ops) first r m s

    left :
        state_of out.manager (key r.target)
        ≡ record st { severity = r.severity; status = r.status; last_alert_at = first }
    left = state_of-trusted (some ops) first r m s st attached v ∙ decide-fresh first r st bad fresh

    q :
        let next = process (some ops) later r out.manager out.store in
        (next.store ≡ out.store) × (next.notified ≡ [])
    q =
        let k =
          process-known (some ops) later r out.manager out.store attached
            (
              ap (λ (t : TargetState). t.severity) (sym left),
              ap (λ (t : TargetState). t.status) (sym left),
            )
            (rw (left, bad) early) in
        (k.0, k.1)
