-- ===== src/Alert/Manager/Saved.antt =====
-- What `Process` leaves in the store: the state and its deliveries in one write, and memory and
-- store in step while no write fails.
use mathlib.Core.List.{append-nil}
use certel.Prelude.{
  String, false, Option, none, some, List, [], ◌∷◌, ◌++◌, ◌≡◌, refl, arith, sym, ap, ◌∙◌, inl, ◌⊎◌,
  if◌then◌else◌, str_eq, str_refl, eq_iff, map,
}
use certel.Prelude.Int.{ℤ}
use certel.Prelude.Assoc.{insert}
use certel.Clock.{Time}
use certel.Config.Target.{key}
use certel.Probe.Result.{Result}
use certel.Alert.Types.{TargetState, StateRecord, AlertEvent, Delivery, ProbeObservation}
use certel.Alert.Debounce.{Verdict, held, trusted, debounce, bump}
use certel.Alert.Manager.{
  Manager, Decision, Outcome, fan_out, healthy, state_of, observation, decide, commit, process,
  record_of, woken,
}
use certel.Alert.Manager.Interface.{StoreOps, StoreView, StoreLaws, as_queued, as_logged}
use certel.Alert.Manager.Steps.{
  verdict, event, sends, process_induction, commit-manager, state_of-insert, state_of-insert_self,
}

abbrev pub record_or_healthy : Option StateRecord → StateRecord
record_or_healthy none = record_of healthy
record_or_healthy (some r) = r

-- Until a verdict is adopted, the debounce leaves what a record saves.
abbrev state_in : Verdict → TargetState
state_in (held st) = st
state_in (trusted st) = st

record_of-debounce :
    (n : ℤ) (st : TargetState) (o : ProbeObservation)
    → record_of (state_in (debounce n st o)) ≡ record_of st
unfolding debounce bump
record_of-debounce n st o = ground arith

record_of-decide :
    (now : Time) (r : Result) (st : TargetState)
    → (decide now r st).state_changed ≡ false
    → record_of (decide now r st).state ≡ record_of st
unfolding decide
record_of-decide now r st h =
    ground (arith, eq_iff r.status st.status, eq_iff r.severity st.severity)

-- No write fails.
pub record IsReliable {S : Type 0} (ops : StoreOps S) : Type 0 where
  pub saves : (k : String) (rec : StateRecord) (s : S) → (ops.save_alert_state k rec s).1 ≡ false
  pub enqueues :
      (rec : StateRecord) (ev : AlertEvent) (ds : List Delivery) (s : S)
      → (ops.enqueue rec ev ds s).1 ≡ false

module _ {S : Type 0} (ops : StoreOps S) (view : StoreView S) (laws : StoreLaws ops view) where
  -- Either nothing that the store shows of the target has changed, or its new state was saved
  -- and all its deliveries were queued and logged behind what was there.
  abbrev pub AllOrNothing : String → S → StateRecord → List Delivery → S → Type 0
  AllOrNothing k s rec ds s' =
      ((view.saved s' k ≡ view.saved s k)
        × (view.queued s' ≡ view.queued s)
        × (view.logged s' ≡ view.logged s))
      ⊎ ((view.saved s' k ≡ some (view.rounded rec))
          × (view.queued s' ≡ view.queued s ++ map (as_queued k) ds)
          × (view.logged s' ≡ view.logged s ++ map (as_logged k) ds))

  commit-AllOrNothing :
      (ev : AlertEvent) (d : Decision) (ds : List Delivery) (m : Manager) (s : S)
      → AllOrNothing ev.target_key s (record_of d.state) ds (commit (some ops) ev d ds m s).store
  unfolding commit
  commit-AllOrNothing ev d [] m s = ground (
    arith,
    str_refl ev.target_key,
    append-nil (view.queued s),
    append-nil (view.logged s),
    laws.saved-save ev.target_key ev.target_key (record_of d.state) s,
    laws.queued-save ev.target_key (record_of d.state) s,
    laws.logged-save ev.target_key (record_of d.state) s,
  )
  commit-AllOrNothing ev d (x ∷ ds) m s = ground (
    arith,
    str_refl ev.target_key,
    laws.saved-enqueue (record_of d.state) ev (x ∷ ds) ev.target_key s,
    laws.queued-enqueue (record_of d.state) ev (x ∷ ds) s,
    laws.logged-enqueue (record_of d.state) ev (x ∷ ds) s,
  )

  -- Memory and store agree on every target, as far as the store holds the clock; one that neither
  -- knows is healthy.
  pub record Synced (m : Manager) (s : S) : Type 0 where
    pub at_key :
        (j : String) → record_or_healthy (view.saved s j) ≡ view.rounded (record_of (state_of m j))

  saved-commit :
      IsReliable ops
      → (ev : AlertEvent) (d : Decision) (ds : List Delivery) (m : Manager) (s : S) (j : String)
      → (view.saved (commit (some ops) ev d ds m s).store j ≡ (
          if str_eq ev.target_key j
          then some (view.rounded (record_of d.state))
          else view.saved s j))
        ⊎ ((d.state_changed ≡ false)
            × (view.saved (commit (some ops) ev d ds m s).store j ≡ view.saved s j))
  unfolding commit
  saved-commit ok ev d [] m s j = ground (
    arith,
    ok.saves ev.target_key (record_of d.state) s,
    laws.saved-save ev.target_key j (record_of d.state) s,
  )
  saved-commit ok ev d (x ∷ ds) m s j = ground (
    arith,
    ok.enqueues (record_of d.state) ev (x ∷ ds) s,
    laws.saved-enqueue (record_of d.state) ev (x ∷ ds) j s,
  )

  keep-Synced :
      (m : Manager) (s : S) (k : String) (st : TargetState)
      → Synced m s
      → record_of st ≡ record_of (state_of m k)
      → Synced (record m { states = insert k st m.states }) s
  keep-Synced m s k st h same = record {
    at_key = λ j. ground (arith, h.at_key j, state_of-insert m k j st, eq_iff k j);
  }

  commit-Synced :
      IsReliable ops
      → (ev : AlertEvent) (d : Decision) (ds : List Delivery) (m : Manager) (s : S) → Synced m s
      → (d.state_changed ≡ false → record_of d.state ≡ record_of (state_of m ev.target_key))
      → let out =
          commit
            (some ops)
            ev
            d
            ds
            (record m { states = insert ev.target_key d.state m.states })
            s in
        Synced out.manager out.store
  commit-Synced ok ev d ds m s h unchanged = record {
    at_key = λ j.
        rw
          (commit-manager (some ops) ev d ds
            (record m { states = insert ev.target_key d.state m.states }) s)
          (ground (
            arith,
            h.at_key j,
            state_of-insert m ev.target_key j d.state,
            eq_iff ev.target_key j,
            saved-commit ok ev d ds (record m { states = insert ev.target_key d.state m.states }) s
                j,
            unchanged,
          ));
  }

  -- On a store that keeps its laws, and while no write fails, processing any reading keeps the
  -- saved record of every target in step with its state in memory, up to the precision of the
  -- stored clock.
  pub process-Synced :
      IsReliable ops
      → (now : Time) (r : Result) (m : Manager) (s : S) → Synced m s
      → let out = process (some ops) now r m s in Synced out.manager out.store
  process-Synced ok now r m s h =
      process_induction (some ops) now r m s (λ o. Synced o.manager o.store) h
        (λ st v.
          keep-Synced m s (key r.target) st h (ap (λ t. record_of (state_in t)) (sym v) ∙ same))
        (λ st v.
          commit-Synced ok (event (some ops) now r m s) (decide now r st) _ m s h
            (λ u. record_of-decide now r st u ∙ ap (λ t. record_of (state_in t)) (sym v) ∙ same))
    where
      same :
          record_of (state_in (verdict (some ops) now r m s))
          ≡ record_of (state_of m (key r.target))
      same = record_of-debounce _ (state_of m (key r.target)) (observation r)

  -- Notifiers are woken for deliveries that the queue holds, and for no others.
  commit-woken :
      (ev : AlertEvent) (d : Decision) (ds : List Delivery) (m : Manager) (s : S)
      → let out = commit (some ops) ev d ds m s in
        (out.notified ≡ [])
        ⊎ ((out.notified ≡ woken ds)
            × (view.queued out.store ≡ view.queued s ++ map (as_queued ev.target_key) ds))
  unfolding commit
  commit-woken ev d [] m s = inl refl
  commit-woken ev d (x ∷ ds) m s =
      ground (arith, laws.queued-enqueue (record_of d.state) ev (x ∷ ds) s)

  abbrev pub Whole : String → S → List Delivery → Outcome S → Type 0
  Whole k s ds out =
      AllOrNothing k s (record_of (state_of out.manager k)) ds out.store
      × ((out.notified ≡ [])
          ⊎ ((out.notified ≡ woken ds)
              × (view.queued out.store ≡ view.queued s ++ map (as_queued k) ds)))

  commit-Whole :
      (ev : AlertEvent) (d : Decision) (ds : List Delivery) (m : Manager) (s : S)
      → Whole ev.target_key s ds (
          commit (some ops) ev d ds (record m { states = insert ev.target_key d.state m.states }) s)
  commit-Whole ev d ds m s =
      let m' = record m { states = insert ev.target_key d.state m.states } in
      (
        rw (commit-manager (some ops) ev d ds m' s, state_of-insert_self m ev.target_key d.state)
            (commit-AllOrNothing ev d ds m' s),
        commit-woken ev d ds m' s,
      )

  -- The deliveries of a reading: none where it is held back, and what the fan-out makes of it
  -- where it is trusted.
  abbrev pub made_of : Result → Manager → Time → Verdict → List Delivery
  made_of r m now (held st) = []
  made_of r m now (trusted st) =
      fan_out m.notifiers st r (decide now r st).repeat_due r.target.notifiers

  abbrev pub made : Time → Result → Manager → S → List Delivery
  made now r m s = made_of r m now (verdict (some ops) now r m s)

  -- On a store that keeps its laws, and whether or not the write fails, a reading leaves the
  -- store with both its new state, the one in memory, and all the deliveries that the fan-out
  -- makes of it, or with neither; a notifier is woken only where all of them were queued. A
  -- reading that is held back, or of a target without notifiers, has no deliveries.
  pub process_all_or_nothing :
      (now : Time) (r : Result) (m : Manager) (s : S)
      → Whole (key r.target) s (made now r m s) (process (some ops) now r m s)
  process_all_or_nothing now r m s =
      process_induction (some ops) now r m s (λ o. Whole (key r.target) s (made now r m s) o)
        (inl (refl, refl, refl), inl refl) (λ st v. (inl (refl, refl, refl), inl refl))
        (λ st v. rw v (
          commit-Whole (event (some ops) now r m s) (decide now r st)
            (sends (some ops) now r m s st) m s))
