-- ===== src/Alert/Manager/Steps.antt =====
-- `Process` by the two verdicts of the debounce, and the state that it leaves in memory.
use certel.Prelude.{
  String, false, Option, none, some, List, [], ◌∷◌, ◌≡◌, ◌≢◌, refl, arith, sym, subst, ap, ◌∙◌, inl,
  inr, ◌⊎◌, if◌then◌else◌, str_eq,
}
use certel.Prelude.Assoc.{insert, lookup-insert, lookup-insert_self, lookup-insert_ne}
use certel.Clock.{Time}
use certel.Config.Target.{key}
use certel.Probe.Result.{Result}
use certel.Alert.Types.{TargetState, AlertEvent, Delivery}
use certel.Alert.Debounce.{Verdict, held, trusted, streak_or_one, debounce}
use certel.Alert.Manager.{
  Manager, Decision, Outcome, state_of, observation, decide, fan_out, commit, process_target,
  process,
}
use certel.Alert.Manager.Interface.{StoreOps}

pub Verdict-cases :
    (v : Verdict) → ((st : TargetState) × (v ≡ held st)) ⊎ ((st : TargetState) × (v ≡ trusted st))
Verdict-cases (held st) = inl (st, refl)
Verdict-cases (trusted st) = inr (st, refl)

pub nil-cases {ℓ} : {A : Type ℓ} (xs : List A) → (xs ≡ []) ⊎ (xs ≢ [])
nil-cases [] = inl refl
nil-cases (x ∷ xs) = inr (λ e. cc)

pub state_of-insert :
    (m : Manager) (k j : String) (st : TargetState)
    → state_of (record m { states = insert k st m.states }) j
      ≡ (if str_eq k j then st else state_of m j)
state_of-insert m k j st = simp lookup-insert (ground arith)

pub state_of-insert_self :
    (m : Manager) (k : String) (st : TargetState)
    → state_of (record m { states = insert k st m.states }) k ≡ st
state_of-insert_self m k st = rw (lookup-insert_self k st m.states)

pub state_of-insert_ne :
    (m : Manager) (k j : String) (st : TargetState)
    → str_eq k j ≡ false
    → state_of (record m { states = insert k st m.states }) j ≡ state_of m j
state_of-insert_ne m k j st h = rw (lookup-insert_ne k j st m.states h)

module _ {S : Type 0} (store : Option (StoreOps S)) (now : Time) (r : Result) (m : Manager)
    (s : S) where
  abbrev pub before : TargetState
  before = state_of m (key r.target)

  abbrev pub verdict : Verdict
  verdict = debounce (streak_or_one r.target.flap_streak) before (observation r)

  abbrev pub event : AlertEvent
  event = record { target_key = key r.target; address = r.target.address; at = now }

  abbrev pub keep : TargetState → Manager
  keep st = record m { states = insert (key r.target) st m.states }

  abbrev pub sends : TargetState → List Delivery
  sends st = fan_out m.notifiers st r (decide now r st).repeat_due r.target.notifiers

  -- A target without notifiers is skipped.
  pub process-skip :
      r.target.notifiers ≡ []
      → process store now r m s ≡ record { manager = m; store = s; notified = [] }
  unfolding process
  process-skip h = rw h

  process-target_eq :
      r.target.notifiers ≢ [] → process store now r m s ≡ process_target store now r m s
  unfolding process
  process-target_eq h = ground arith

  pub process-held :
      (st : TargetState)
      → r.target.notifiers ≢ []
      → verdict ≡ held st
      → process store now r m s ≡ record { manager = keep st; store = s; notified = [] }
  unfolding process_target
  process-held st h v = rw (process-target_eq h) (rw (v, process_target))

  pub process-trusted :
      (st : TargetState)
      → r.target.notifiers ≢ []
      → verdict ≡ trusted st
      → process store now r m s
        ≡ commit store event (decide now r st) (sends st) (keep (decide now r st).state) s
  unfolding process_target
  process-trusted st h v = rw (process-target_eq h) (rw (v, process_target))

module _ {S : Type 0} where
  -- Writing and waking leave the manager alone.
  pub commit-manager :
      (store : Option (StoreOps S)) (ev : AlertEvent) (d : Decision) (ds : List Delivery)
      (m : Manager) (s : S)
      → (commit store ev d ds m s).manager ≡ m
  unfolding commit
  commit-manager store ev d [] m s = refl
  commit-manager none ev d (x ∷ ds) m s = refl
  commit-manager (some ops) ev d (x ∷ ds) m s = refl

module _ {S : Type 0} (store : Option (StoreOps S)) (now : Time) (r : Result) (m : Manager)
    (s : S) where
  pub state_of-trusted :
      (st : TargetState)
      → r.target.notifiers ≢ []
      → verdict store now r m s ≡ trusted st
      → state_of (process store now r m s).manager (key r.target) ≡ (decide now r st).state
  state_of-trusted st h v =
      ap (λ o. state_of o.manager (key r.target)) (process-trusted store now r m s st h v)
      ∙ ap (λ m'. state_of m' (key r.target))
          (commit-manager store _ (decide now r st) (sends store now r m s st) _ s)
      ∙ state_of-insert_self m (key r.target) (decide now r st).state

  pub state_of-held :
      (st : TargetState)
      → r.target.notifiers ≢ []
      → verdict store now r m s ≡ held st
      → state_of (process store now r m s).manager (key r.target) ≡ st
  state_of-held st h v =
      ap (λ o. state_of o.manager (key r.target)) (process-held store now r m s st h v)
      ∙ state_of-insert_self m (key r.target) st

  -- A property of what `process` may return holds of what it returns.
  pub process_induction {ℓ} :
      (P : Outcome S → Type ℓ)
      → P (record { manager = m; store = s; notified = [] })
      → ((st : TargetState)
          → verdict store now r m s ≡ held st
          → P (record { manager = keep store now r m s st; store = s; notified = [] }))
      → ((st : TargetState)
          → verdict store now r m s ≡ trusted st
          → P (
              commit store
                (event store now r m s)
                (decide now r st)
                (sends store now r m s st)
                (keep store now r m s (decide now r st).state)
                s))
      → P (process store now r m s)
  process_induction P skipped on_held on_trusted = elim (nil-cases r.target.notifiers) [
    | inl none_attached ↦ subst P (sym (process-skip store now r m s none_attached)) skipped
    | inr attached ↦ elim (Verdict-cases (verdict store now r m s)) [
      | inl (st, v) ↦ subst P (sym (process-held store now r m s st attached v)) (on_held st v)
      | inr (st, v) ↦
          subst P (sym (process-trusted store now r m s st attached v)) (on_trusted st v)
    ]
  ]

  -- Processing a reading leaves the state of every other target alone, on every path.
  pub state_of-other :
      (j : String)
      → str_eq (key r.target) j ≡ false
      → state_of (process store now r m s).manager j ≡ state_of m j
  state_of-other j ne =
      process_induction (λ o. state_of o.manager j ≡ state_of m j) refl
        (λ st v. state_of-insert_ne m (key r.target) j st ne)
        (λ st v.
          ap (λ m'. state_of m' j)
            (commit-manager store _ (decide now r st) (sends store now r m s st) _ s)
          ∙ state_of-insert_ne m (key r.target) j (decide now r st).state ne)
