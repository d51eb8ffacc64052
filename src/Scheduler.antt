-- ===== src/Scheduler.antt =====
-- internal/scheduler/scheduler.go: one cycle over the targets, and when it was over. Its goroutines
-- run as a list of events says, one step of one of them at a time: each list is an interleaving.
pub mod Slots
pub mod Each
pub mod Progress
use certel.Prelude.{
  ℕ, zero, suc, ◌+◌, ◌==◌, Bool, true, false, Option, none, some, List, [], ◌∷◌, length, ltb,
  if◌then◌else◌,
}
use certel.Clock.{Time, Duration, zero_time, is_zero, unix, from_unix, sub_time}
use certel.Config.Target.{Target}
use certel.Probe.Result.{Result}

-- What a cycle runs on: the checker, the handler of results, the context and the clock; `outside` is
-- what the rest of the program does between two steps, which may cancel the context.
pub record Duties (W : Type 0) : Type 0 where
  pub check : Target → W → W × Option Result
  pub handle : Result → W → W
  pub cancelled : W → Bool
  pub now : W → Time
  pub outside : W → W

-- The goroutines of a cycle: those that wait for their start or for a slot, those whose check runs,
-- and those whose result is to be handled. The last two hold a slot.
pub record Flight (W : Type 0) : Type 0 where
  pub world : W
  pub waiting : List Target
  pub probing : List Target
  pub reporting : List Result

-- A step of the goroutine at a place of its list.
pub data Event : Type 0 where
  acquire : ℕ → Event
  answer : ℕ → Event
  report : ℕ → Event
  give_up : ℕ → Event
  elsewhere : Event

unfoldable pub take_at {ℓ} : {A : Type ℓ} → ℕ → List A → Option (A × List A)
take_at i [] = none
take_at zero (x ∷ xs) = some (x, xs)
take_at (suc i) (x ∷ xs) = elim (take_at i xs) [ none ↦ none | some (y, ys) ↦ some (y, x ∷ ys) ]

abbrev pub slots : {W : Type 0} → Flight W → ℕ
slots f = length f.probing + length f.reporting

module _ {W : Type 0} (d : Duties W) (concurrency : ℕ) where
  abbrev pub acquired : Flight W → Option (Target × List Target) → Option (Flight W)
  acquired f none = none
  acquired f (some (t, rest)) =
      if ltb (slots f) concurrency
      then some (record f { waiting = rest; probing = t ∷ f.probing })
      else none

  -- A check that panics ends the program.
  abbrev pub returned : Flight W → List Target → W × Option Result → Option (Flight W)
  returned f rest (w, none) = none
  returned f rest (w, some r) =
      some (record f { world = w; probing = rest; reporting = r ∷ f.reporting })

  abbrev pub answered : Flight W → Option (Target × List Target) → Option (Flight W)
  answered f none = none
  answered f (some (t, rest)) = returned f rest (d.check t f.world)

  abbrev pub reported : Flight W → Option (Result × List Result) → Option (Flight W)
  reported f none = none
  reported f (some (r, rest)) = some (record f { world = d.handle r f.world; reporting = rest })

  abbrev pub given_up : Flight W → Option (Target × List Target) → Option (Flight W)
  given_up f none = none
  given_up f (some (t, rest)) =
      if d.cancelled f.world then some (record f { waiting = rest }) else none

  -- `none` where the step cannot be taken.
  unfoldable pub step : Event → Flight W → Option (Flight W)
  unfolding take_at
  step (acquire i) f = acquired f (take_at i f.waiting)
  step (answer i) f = answered f (take_at i f.probing)
  step (report i) f = reported f (take_at i f.reporting)
  step (give_up i) f = given_up f (take_at i f.waiting)
  step elsewhere f = some (record f { world = d.outside f.world })

  abbrev pub and_then : Option (Flight W) → (Flight W → Option (Flight W)) → Option (Flight W)
  and_then none next = none
  and_then (some f) next = next f

  unfoldable pub run : List Event → Flight W → Option (Flight W)
  unfolding step
  run [] f = some f
  run (e ∷ events) f = and_then (step e f) (run events)

  abbrev pub launched : List Target → W → Flight W
  launched targets w = record { world = w; waiting = targets; probing = []; reporting = [] }

  -- The end of a cycle: the seconds that are stored, the time it is over and how long it took.
  abbrev finished : Time → W → W × ℕ × Time × Duration
  finished start w = (w, unix (d.now w), d.now w, sub_time (d.now w) start)

  -- Behind the wait for all goroutines.
  abbrev pub waited : Time → Flight W → Option (W × ℕ × Time × Duration)
  waited start f = if length f.waiting + slots f == 0 then some (finished start f.world) else none

  abbrev pub maybe_finished : Time → Option (Flight W) → Option (W × ℕ × Time × Duration)
  maybe_finished start none = none
  maybe_finished start (some f) = waited start f

  -- The cycle in which the goroutines take those steps.
  unfoldable pub cycle : List Target → List Event → W → Option (W × ℕ × Time × Duration)
  unfolding run
  cycle targets events w = maybe_finished (d.now w) (run events (launched targets w))

-- `LastCycle`, of the seconds stored; 0 before the first cycle is over.
unfoldable pub last_cycle : ℕ → Time
last_cycle seconds = if seconds == 0 then zero_time else from_unix seconds
