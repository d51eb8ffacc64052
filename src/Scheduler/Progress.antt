-- ===== src/Scheduler/Progress.antt =====
-- No interleaving of a cycle of internal/scheduler/scheduler.go is stuck before its end, and none
-- goes on for ever.
use certel.Prelude.{
  ℕ, ◌+◌, ◌*◌, ◌≤◌, ◌<◌, ◌≡◌, some, List, [], ◌∷◌, length, arith, subst, refl, Option-cases, inl,
  inr, ◌⊎◌, true, ltb,
}
use certel.Config.Target.{Target}
use certel.Probe.Result.{Result}
use certel.Scheduler.{
  Duties, Flight, Event, acquire, answer, report, give_up, elsewhere, take_at, step, run, launched,
}
use certel.Scheduler.Slots.{none_absurd, some_injective, step_induction, length-take_at}

-- A step of a goroutine, and not of the rest of the program.
abbrev pub own_step : Event → ℕ
own_step (acquire i) = 1
own_step (answer i) = 1
own_step (report i) = 1
own_step (give_up i) = 1
own_step elsewhere = 0

own_bound : (e : Event) → own_step e ≤ 1
own_bound (acquire i) = omega arith
own_bound (answer i) = omega arith
own_bound (report i) = omega arith
own_bound (give_up i) = omega arith
own_bound elsewhere = omega arith

unfoldable pub own_steps : List Event → ℕ
own_steps [] = 0
own_steps (e ∷ events) = own_step e + own_steps events

-- The most steps that the goroutines can still take.
abbrev pub left : {W : Type 0} → Flight W → ℕ
left f = 3 * length f.waiting + 2 * length f.probing + length f.reporting

step-left :
    {W : Type 0} (d : Duties W) (n : ℕ) (e : Event) (f g : Flight W)
    → step d n e f ≡ some g
    → own_step e + left g ≤ left f
step-left d n e f g h =
    step_induction d n f g e (λ x. own_step e + left x ≤ left f) h
      (λ i t rest k free. omega (arith, own_bound e, length-take_at i f.waiting t rest k))
      (λ i t rest w r k c. omega (arith, own_bound e, length-take_at i f.probing t rest k))
      (λ i r rest k. omega (arith, own_bound e, length-take_at i f.reporting r rest k))
      (λ i t rest k c. omega (arith, own_bound e, length-take_at i f.waiting t rest k))
      (λ u. rw u (omega arith))

run-left :
    {W : Type 0} (d : Duties W) (n : ℕ) (events : List Event) (f g : Flight W)
    → run d n events f ≡ some g
    → own_steps events + left g ≤ left f
unfolding run own_steps
run-left d n [] f g h = subst (λ x. 0 + left x ≤ left f) (some_injective h) (omega arith)
run-left d n (e ∷ events) f g h = elim (Option-cases (step d n e f)) [
  | inl stuck ↦ elim (none_absurd (rw stuck at h)) [ ]
  | inr (f', k) ↦ omega (arith, step-left d n e f f' k, run-left d n events f' g (rw k at h))
]

-- A goroutine can take a step to another flight.
abbrev pub CanStep : {W : Type 0} → Duties W → ℕ → Flight W → Type 0
CanStep {W} d n f = (e : Event) × (g : Flight W) × (own_step e ≡ 1) × (step d n e f ≡ some g)

-- No check panics.
abbrev pub Returns : {W : Type 0} → Duties W → Type 0
Returns {W} d = (t : Target) (w : W) → (w' : W) × (r : Result) × (d.check t w ≡ (w', some r))

can_step :
    {W : Type 0} (d : Duties W) (n : ℕ)
    → Returns d
    → 0 < n
    → (w : W) (ts us : List Target) (rs : List Result)
    → let f : Flight W = record { world = w; waiting = ts; probing = us; reporting = rs } in
      (left f ≡ 0) ⊎ CanStep d n f
unfolding step take_at
can_step d n returns pos w ts (t ∷ us) rs =
    let (w', r, e) = returns t w in
    inr (
      answer 0,
      record { world = w'; waiting = ts; probing = us; reporting = r ∷ rs },
      refl,
      rw e refl,
    )
can_step d n returns pos w ts [] (r ∷ rs) = inr (report 0, _, refl, refl)
can_step d n returns pos w (t ∷ ts) [] [] = inr (
  acquire 0,
  record { world = w; waiting = ts; probing = t ∷ []; reporting = [] },
  refl,
  rw (free n pos) refl,
)
  where
    free : (n : ℕ) → 0 < n → ltb (0 + 0) n ≡ true
    free n h = ground arith
can_step d n returns pos w [] [] [] = inl (omega arith)

-- Whatever interleaving a cycle with a positive concurrency has come through, and whether it is
-- cancelled or not, its goroutines have taken at most three steps for each target, and unless all
-- of them have ended, one of them can take its next step, when every check returns.
pub cycle_ends :
    {W : Type 0} (d : Duties W) (concurrency : ℕ) (targets : List Target) (events : List Event)
    (w : W) (f : Flight W)
    → Returns d
    → 0 < concurrency
    → run d concurrency events (launched d concurrency targets w) ≡ some f
    → (own_steps events + left f ≤ 3 * length targets) × ((left f ≡ 0) ⊎ CanStep d concurrency f)
cycle_ends d n targets events w f returns pos h = (
  omega (arith, run-left d n events (launched d n targets w) f h),
  can_step d n returns pos f.world f.waiting f.probing f.reporting,
)
