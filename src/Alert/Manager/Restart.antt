-- ===== src/Alert/Manager/Restart.antt =====
-- A restart is not seen: `Restore` brings back the state that the decision stood on.
use certel.Prelude.{
  ℕ, String, false, Option, none, some, List, [], ◌∷◌, ◌++◌, ◌≡◌, ◌<◌, refl, arith, sym, ap, subst,
  ◌∙◌, inl, inr, str_eq, eq_iff, Bool-cases, All, take,
}
use certel.Prelude.Int.{ℤ, pos, leb_ℤ}
use certel.Prelude.Assoc.{Assoc, insert, lookup}
use certel.Clock.{Time}
use certel.Config.Target.{Target, key}
use certel.Probe.Result.{Result}
use certel.Alert.Types.{TargetState, StateRecord, ProbeObservation, NotifierRuntime}
use certel.Alert.Debounce.{streak_or_one, reconstruct_pending, Pending}
use certel.Alert.Debounce.Rebuild.{pending_of, reconstruct-replay}
use certel.Alert.Manager.{Manager, state_of, healthy, record_of, new_manager}
use certel.Alert.Manager.Cycles.{
  readings_of, history_of, readings_of-history_of, cycles, Steady, cycles-replay,
}
use certel.Alert.Manager.Interface.{StoreOps}
use certel.Alert.Manager.Restore.{
  seed, rebuild_target, rebuild, restore, from_record, with_pending, adopt_history, adopt_pending,
}
use certel.Alert.Manager.Same.{SameState}
use certel.Alert.Manager.Saved.{record_or_healthy}
use certel.Alert.Manager.Steps.{state_of-insert, state_of-insert_self, state_of-insert_ne}

-- The first record of a key among rows, which a table with one row to a key has alone.
abbrev NoKey : String → Assoc StateRecord → Type 0
NoKey k = All (λ e. str_eq e.0 k ≡ false)

-- Rows with a key of their own.
abbrev pub Distinct : Assoc StateRecord → Type 0
Distinct [] = Unit
Distinct ((k, rec) ∷ rest) = NoKey k rest × Distinct rest

seed-other :
    (rows : Assoc StateRecord) (m : Manager) (k : String)
    → NoKey k rows
    → state_of (seed rows m) k ≡ state_of m k
unfolding seed
seed-other [] m k h = refl
seed-other ((j, rec) ∷ rest) m k h =
    seed-other rest (record m { states = insert j (from_record rec) m.states }) k h.1
    ∙ state_of-insert_ne m j k (from_record rec) h.0

-- The saved records are what the manager starts from.
seed-state_of :
    (rows : Assoc StateRecord) (m : Manager) (k : String)
    → Distinct rows
    → state_of m k ≡ healthy
    → state_of (seed rows m) k ≡ from_record (record_or_healthy (lookup k rows))
unfolding seed lookup
seed-state_of [] m k d h = h
seed-state_of ((j, rec) ∷ rest) m k d h = elim (Bool-cases (str_eq j k)) [
  | inl e ↦ simp e (
      seed-other rest _ k (subst (λ i. NoKey i rest) ((eq_iff j k).0 e) d.0)
      ∙ state_of-insert m j k (from_record rec)
      ∙ simp e refl)
  | inr e ↦ simp e (seed-state_of rest _ k d.1 (state_of-insert_ne m j k (from_record rec) e ∙ h))
]

abbrev restored : TargetState → Option Pending → TargetState
restored st none = st
restored st (some p) = with_pending st p

SameState-restored :
    (st st' : TargetState) (o : Option Pending)
    → record_of st ≡ record_of st'
    → st.pending_count ≡ 0
    → o ≡ pending_of st'
    → SameState (restored st o) st'
SameState-restored st st' none h z e = ground arith
SameState-restored st st' (some p) h z e = ground arith

module _ {S : Type 0} (ops : StoreOps S) (s : S) where
  state_of-adopt_pending :
      (k : String) (st : TargetState) (o : Option Pending) (m : Manager)
      → state_of m k ≡ st
      → state_of (adopt_pending k st o m) k ≡ restored st o
  state_of-adopt_pending k st none m h = h
  state_of-adopt_pending k st (some p) m h = state_of-insert_self m k (with_pending st p)

  adopt_history-other :
      (j k : String) (st : TargetState) (n : ℤ) (o : Option (List ProbeObservation)) (m : Manager)
      → str_eq j k ≡ false
      → state_of (adopt_history j st n o m) k ≡ state_of m k
  adopt_history-other j k st n none m ne = refl
  adopt_history-other j k st n (some obs) m ne =
      adopt (reconstruct_pending st.severity st.status obs n)
    where
      adopt : (o : Option Pending) → state_of (adopt_pending j st o m) k ≡ state_of m k
      adopt none = refl
      adopt (some p) = state_of-insert_ne m j k (with_pending st p) ne

  rebuild_target-own :
      (t : Target) (n : ℕ) (obs : List ProbeObservation) (m : Manager)
      → streak_or_one t.flap_streak ≡ pos n
      → 1 < n
      → ops.recent_probe_statuses (key t) (pos n) s ≡ some obs
      → let st = state_of m (key t) in
        state_of (rebuild_target ops s t m) (key t)
        ≡ restored st (reconstruct_pending st.severity st.status obs (pos n))
  unfolding rebuild_target
  rebuild_target-own t n obs m e h log =
      simp (e, log, not_disabled) (state_of-adopt_pending (key t) (state_of m (key t)) _ m refl)
    where
      not_disabled : leb_ℤ (pos n) (pos 1) ≡ false
      not_disabled = ground arith

  rebuild_target-other :
      (t : Target) (k : String) (m : Manager)
      → str_eq (key t) k ≡ false
      → state_of (rebuild_target ops s t m) k ≡ state_of m k
  unfolding rebuild_target
  rebuild_target-other t k m ne = elim (Bool-cases (leb_ℤ (streak_or_one t.flap_streak) (pos 1))) [
    | inl off ↦ simp off refl
    | inr on ↦ simp on (adopt_history-other (key t) k (state_of m (key t)) _ _ m ne)
  ]

  abbrev pub Others : String → List Target → Type 0
  Others k = All (λ t. str_eq (key t) k ≡ false)

  rebuild-Others :
      (targets : List Target) (k : String) (m : Manager)
      → Others k targets
      → state_of (rebuild ops s targets m) k ≡ state_of m k
  unfolding rebuild
  rebuild-Others [] k m h = refl
  rebuild-Others (t ∷ rest) k m h =
      rebuild-Others rest k (rebuild_target ops s t m) h.1 ∙ rebuild_target-other t k m h.0

  rebuild-own :
      (front back : List Target) (t : Target) (m : Manager)
      → Others (key t) front
      → Others (key t) back
      → state_of (rebuild ops s (front ++ t ∷ back) m) (key t)
        ≡ state_of (rebuild_target ops s t (rebuild ops s front m)) (key t)
  unfolding rebuild
  rebuild-own [] back t m f b = rebuild-Others back (key t) (rebuild_target ops s t m) b
  rebuild-own (u ∷ front) back t m f b = rebuild-own front back t (rebuild_target ops s u m) f.1 b

  restore-own :
      (rows : Assoc StateRecord) (front back : List Target) (t : Target) (n : ℕ)
      (obs : List ProbeObservation) (m : Manager)
      → Distinct rows
      → state_of m (key t) ≡ healthy
      → Others (key t) front
      → Others (key t) back
      → streak_or_one t.flap_streak ≡ pos n
      → 1 < n
      → ops.recent_probe_statuses (key t) (pos n) s ≡ some obs
      → let rec = record_or_healthy (lookup (key t) rows) in
        state_of (restore (some ops) s rows (front ++ t ∷ back) m) (key t)
        ≡ restored (from_record rec) (reconstruct_pending rec.severity rec.status obs (pos n))
  unfolding restore
  restore-own rows front back t n obs m d fresh f b e h log =
      rebuild-own front back t (seed rows m) f b
      ∙ rebuild_target-own t n obs (rebuild ops s front (seed rows m)) e h log
      ∙ ap (λ st. restored st (reconstruct_pending st.severity st.status obs (pos n)))
          (rebuild-Others front (key t) (seed rows m) f ∙ seed-state_of rows m (key t) d fresh)

-- The candidate that the readings of a target have left in memory is rebuilt from the newest of
-- them.
live-pending :
    {S : Type 0} (store : Option (StoreOps S)) (k : String) (n : ℕ) (history : List (Time × Result))
    (m : Manager) (s : S)
    → 1 < n
    → (state_of m k).pending_count ≡ 0
    → All (Steady store k (pos n)) history
    → let live = state_of (cycles store history m s).manager k in
      reconstruct_pending live.severity live.status (take n (readings_of k history)) (pos n)
      ≡ pending_of live
live-pending store k n history m s h z steady =
    subst
      (λ st.
        reconstruct_pending st.severity st.status (take n (readings_of k history)) (pos n)
        ≡ pending_of st)
      (sym (cycles-replay store k (pos n) history m s steady))
      (rw (readings_of-history_of k history)
        (reconstruct-replay n (state_of m k) (history_of k history) h z))

-- Restore brings a target with a streak of two or more back to the state that any readings left
-- it in, the confirmed pair and the half-built candidate, with the reminder clock of its saved
-- record, when it started without a candidate, each of its readings had a notifier and that
-- streak, its saved record has the confirmed pair, the probe log its newest readings, no two
-- saved records share a key, and no other target of the list has its key.
pub restore-resumes :
    {S : Type 0} (ops : StoreOps S) (s : S) (old : Option (StoreOps S)) (s₀ : S)
    (rows : Assoc StateRecord) (front back : List Target) (t : Target) (n : ℕ)
    (notifiers : Assoc NotifierRuntime) (m : Manager) (history : List (Time × Result))
    → 1 < n
    → streak_or_one t.flap_streak ≡ pos n
    → Others ops s (key t) front
    → Others ops s (key t) back
    → (state_of m (key t)).pending_count ≡ 0
    → All (Steady old (key t) (pos n)) history
    → Distinct rows
    → let saved = record_or_healthy (lookup (key t) rows) in
      let live = state_of (cycles old history m s₀).manager (key t) in
      saved.severity ≡ live.severity
      → saved.status ≡ live.status
      → ops.recent_probe_statuses (key t) (pos n) s ≡ some (take n (readings_of (key t) history))
      → SameState
          (state_of (restore (some ops) s rows (front ++ t ∷ back) (new_manager notifiers)) (key t))
          (record live { last_alert_at = saved.last_alert_at })
unfolding new_manager
restore-resumes ops s old s₀ rows front back t n notifiers m history h e f b z steady d
      same_severity same_status log =
    let live = state_of (cycles old history m s₀).manager (key t) in
    let saved = record_or_healthy (lookup (key t) rows) in
    let obs = take n (readings_of (key t) history) in
    rw
      (restore-own ops s rows front back t n obs (record { notifiers = notifiers; states = [] }) d
        (unfold lookup in refl) f b e h log)
      (SameState-restored (from_record saved) (record live { last_alert_at = saved.last_alert_at })
        _
        (λ i. record {
          status = same_status i;
          severity = same_severity i;
          last_alert_at = saved.last_alert_at;
        })
        refl
        ((λ i. reconstruct_pending (same_severity i) (same_status i) obs (pos n))
          ∙ live-pending old (key t) n history m s₀ h z steady))
