-- ===== src/Alert/Manager/Cycles.antt =====
-- Many readings in turn: the state that `Process` keeps for a target is that of the target's own
-- readings, whatever comes in between.
use certel.Prelude.{
  String, true, Option, List, [], ◌∷◌, ◌≡◌, ◌≢◌, refl, map, ap, ◌∙◌, inl, inr, if◌then◌else◌,
  str_eq, eq_iff, Bool-cases, All,
}
use certel.Prelude.Int.{ℤ}
use certel.Clock.{Time}
use certel.Config.Target.{key}
use certel.Probe.Result.{Result}
use certel.Alert.Types.{ProbeObservation}
use certel.Alert.Debounce.{streak_or_one, advance, replay, shown}
use certel.Alert.Manager.{Manager, Outcome, state_of, observation, process}
use certel.Alert.Manager.Interface.{StoreOps}
use certel.Alert.Manager.Steps.{
  verdict, state_of-held, state_of-trusted, state_of-other, Verdict-cases,
}

-- The readings of a history that concern one target, newest first.
unfoldable pub readings_of : String → List (Time × Result) → List ProbeObservation
readings_of k [] = []
readings_of k ((now, r) ∷ older) =
    let rest = readings_of k older in if str_eq (key r.target) k then observation r ∷ rest else rest

-- The same readings, with their times.
unfoldable pub history_of : String → List (Time × Result) → List (Time × Result)
history_of k [] = []
history_of k ((now, r) ∷ older) =
    let rest = history_of k older in if str_eq (key r.target) k then (now, r) ∷ rest else rest

pub readings_of-history_of :
    (k : String) (history : List (Time × Result))
    → readings_of k history ≡ map shown (history_of k history)
unfolding readings_of history_of
readings_of-history_of k [] = refl
readings_of-history_of k ((now, r) ∷ older) = elim (Bool-cases (str_eq (key r.target) k)) [
  | inl own ↦ rw (own, readings_of-history_of k older)
  | inr other ↦ rw other (readings_of-history_of k older)
]

module _ {S : Type 0} (store : Option (StoreOps S)) where
  -- Readings in turn, newest first.
  unfoldable pub cycles : List (Time × Result) → Manager → S → Outcome S
  cycles [] m s = record { manager = m; store = s; notified = [] }
  cycles ((now, r) ∷ older) m s =
      let earlier = cycles older m s in process store now r earlier.manager earlier.store

  -- In memory, one reading is one step.
  pub process-advance :
      (now : Time) (r : Result) (m : Manager) (s : S)
      → r.target.notifiers ≢ []
      → state_of (process store now r m s).manager (key r.target)
        ≡ advance (streak_or_one r.target.flap_streak) (state_of m (key r.target)) (now, r)
  unfolding advance
  process-advance now r m s attached = elim (Verdict-cases (verdict store now r m s)) [
    | inl (st, v) ↦ rw (state_of-held store now r m s st attached v) (rw (v, advance) refl)
    | inr (st, v) ↦ rw (state_of-trusted store now r m s st attached v) (rw (v, advance) refl)
  ]

  process-advance_at :
      (k : String) (n : ℤ) (now : Time) (r : Result) (m : Manager) (s : S)
      → key r.target ≡ k
      → streak_or_one r.target.flap_streak ≡ n
      → r.target.notifiers ≢ []
      → state_of (process store now r m s).manager k ≡ advance n (state_of m k) (now, r)
  process-advance_at k n now r m s e f attached = rw (← e, ← f) (process-advance now r m s attached)

  -- Each reading of the target asks for `n` in a row and has a notifier.
  abbrev pub Steady : String → ℤ → Time × Result → Type 0
  Steady k n e =
      str_eq (key e.1.target) k ≡ true
      → (streak_or_one e.1.target.flap_streak ≡ n) × (e.1.target.notifiers ≢ [])

  -- After any readings of any targets, through any store and with any failed writes, the state of
  -- one target in memory, its reminder clock included, is what the debounce and the decision make
  -- of its own readings in turn, when each of them has a notifier and the same streak.
  pub cycles-replay :
      (k : String) (n : ℤ) (history : List (Time × Result)) (m : Manager) (s : S)
      → All (Steady k n) history
      → state_of (cycles history m s).manager k ≡ replay n (state_of m k) (history_of k history)
  unfolding cycles replay history_of
  cycles-replay k n [] m s h = refl
  cycles-replay k n ((now, r) ∷ older) m s h = elim (Bool-cases (str_eq (key r.target) k)) [
    | inl own ↦ rw own (
        process-advance_at k n now r (cycles older m s).manager (cycles older m s).store
          ((eq_iff (key r.target) k).0 own) (h.0 own).0 (h.0 own).1
        ∙ ap (λ st. advance n st (now, r)) (cycles-replay k n older m s h.1))
    | inr other ↦ rw other (
        state_of-other store now r (cycles older m s).manager (cycles older m s).store k other
        ∙ cycles-replay k n older m s h.1)
  ]
