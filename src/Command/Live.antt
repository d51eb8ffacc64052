-- ===== src/Command/Live.antt =====
-- What the health check of cmd/certel/monitor.go says of the last cycle of
-- internal/scheduler/scheduler.go.
use certel.Prelude.{
  ℕ, ◌+◌, ◌-◌, ◌*◌, ◌≤◌, ◌<◌, ◌≡◌, sym, arith, Bool, false, ◌==◌, List, Option, none, some, ap, ◌∙◌,
  subst, Bool-cases, inl, inr, length,
}
use certel.Clock.{Time, Duration, second, unix, from_unix, unix_epoch, sub_time, from_unix-unix}
use certel.Config.Target.{Target}
use certel.Command.Monitor.{is_live}
use certel.Scheduler.{
  Duties, Flight, Event, slots, run, launched, cycle, maybe_finished, last_cycle,
}
use certel.Scheduler.Slots.{none_absurd, some_injective}

after_epoch : (t : Time) → (unix_epoch + 1) * second ≤ t → (unix t == 0) ≡ false
unfolding unix
after_epoch t h = ground arith

-- A cycle that ends after 1970 is read back at most a second early.
last_cycle-unix :
    (t : Time)
    → (unix_epoch + 1) * second ≤ t
    → (0 < last_cycle (unix t)) × (last_cycle (unix t) ≤ t) × (t < last_cycle (unix t) + second)
unfolding last_cycle
last_cycle-unix t h =
    let near = from_unix-unix t (omega (arith, h)) in
    let early : 0 < from_unix (unix t) = omega (arith, near.1, h) in
    rw (after_epoch t h) (early, near.0, near.1)

is_live-unix :
    (started_at t now liveness : Time) (database : Bool)
    → (unix_epoch + 1) * second ≤ t
    → t ≤ now
    → ((now - t + second ≤ liveness → is_live started_at now (unix t) liveness database ≡ database)
        × (liveness ≤ now - t → is_live started_at now (unix t) liveness database ≡ false))
unfolding is_live
is_live-unix started_at t now liveness database h k =
    let (early, before, after) = last_cycle-unix t h in
    (
      (λ i. ground (arith, early, before, after, i, k)),
      (λ i. ground (arith, early, before, after, i, k)),
    )

maybe_finished-unix :
    {W : Type 0} (d : Duties W) (n : ℕ) (start : Time) (o : Option (Flight W)) (w : W) (stored : ℕ)
    (at : Time) (took : Duration)
    → maybe_finished d n start o ≡ some (w, stored, at, took)
    → unix at ≡ stored
maybe_finished-unix d n start none w stored at took h = elim (none_absurd h) [ ]
maybe_finished-unix d n start (some f) w stored at took h =
    elim (Bool-cases (length f.waiting + slots f == 0)) [
      | inl over ↦
          let e : (f.world, unix (d.now f.world), d.now f.world, sub_time (d.now f.world) start)
              ≡ (w, stored, at, took) =
            some_injective (rw over at h) in
          ap (λ x. unix x.2) (sym e) ∙ ap (λ x. x.1) e
      | inr going ↦ elim (none_absurd (rw going at h)) [ ]
    ]

-- After a cycle that is over after 1970, however its goroutines took their steps, the health
-- check answers for the database alone while a second less than the threshold has passed, and
-- fails from the threshold on.
pub cycle-is_live :
    {W : Type 0} (d : Duties W) (concurrency : ℕ) (targets : List Target) (events : List Event)
    (w w' : W) (stored : ℕ) (at : Time) (took : Duration) (started_at now liveness : Time)
    (database : Bool)
    → cycle d concurrency targets events w ≡ some (w', stored, at, took)
    → (unix_epoch + 1) * second ≤ at
    → at ≤ now
    → (now - at + second ≤ liveness → is_live started_at now stored liveness database ≡ database)
      × (liveness ≤ now - at → is_live started_at now stored liveness database ≡ false)
unfolding cycle
cycle-is_live d n targets events w w' stored at took started_at now liveness database h k l =
    let e =
      maybe_finished-unix d n (d.now w) (run d n events (launched d n targets w)) w' stored at took
        h in
    subst
      (λ (x : ℕ).
        (now - at + second ≤ liveness → is_live started_at now x liveness database ≡ database)
        × (liveness ≤ now - at → is_live started_at now x liveness database ≡ false))
      e (is_live-unix started_at at now liveness database k l)
