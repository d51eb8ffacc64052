-- ===== src/Scheduler/Each.antt =====
-- Each target of a cycle of internal/scheduler/scheduler.go is checked and its result handled.
use certel.Prelude.{
  ℕ, zero, suc, ◌+◌, ◌≤◌, ◌≡◌, some, List, [], ◌∷◌, ◌++◌, length, arith, ap, refl, sym, ◌∙◌,
  Option-cases, Bool-cases, inl, inr, Bool, true, false, if◌then◌else◌, ◌==◌,
}
use certel.Clock.{Time, Duration}
use certel.Config.Target.{Target}
use certel.Probe.Result.{Result}
use certel.Scheduler.{Duties, Flight, Event, take_at, slots, step, run, launched, waited, cycle}
use certel.Scheduler.Slots.{none_absurd, some_injective, step_induction, run_induction}

-- How many elements pass a test.
pub count : {A : Type 0} → (A → Bool) → List A → ℕ
count p [] = 0
count p (x ∷ xs) = (if p x then 1 else 0) + count p xs

swap :
    {A : Type 0} (p : A → Bool) (y : A) (ys : List A) (z : A) (zs : List A)
    → count p ys ≡ count p (z ∷ zs)
    → count p (y ∷ ys) ≡ count p (z ∷ y ∷ zs)
unfolding count
swap p y ys z zs k = omega (arith, k)

count-take_at :
    {A : Type 0} (p : A → Bool) (i : ℕ) (xs : List A) (x : A) (rest : List A)
    → take_at i xs ≡ some (x, rest)
    → count p xs ≡ count p (x ∷ rest)
unfolding take_at count
count-take_at p i [] x rest h = cc
count-take_at p zero (y ∷ ys) x rest h = ap (λ q. count p (q.0 ∷ q.1)) (some_injective h)
count-take_at p (suc i) (y ∷ ys) x rest h = elim (Option-cases (take_at i ys)) [
  | inl e ↦ elim (none_absurd (rw e at h)) [ ]
  | inr ((z, zs), e) ↦
      let q : some (z, y ∷ zs) ≡ some (x, rest) = rw e at h in
      swap p y ys z zs (count-take_at p i ys z zs e)
      ∙ ap (λ q. count p (q.0 ∷ q.1)) (some_injective q)
]

count-append :
    {A : Type 0} (p : A → Bool) (xs ys : List A) → count p (xs ++ ys) ≡ count p xs + count p ys
unfolding count
count-append p [] ys = omega arith
count-append p (x ∷ xs) ys = omega (arith, count-append p xs ys)

false_absurd : false ≡ true → ⊥
false_absurd h = cc

count-bound : {A : Type 0} (p : A → Bool) (xs : List A) → count p xs ≤ length xs
unfolding count
count-bound p [] = omega arith
count-bound p (x ∷ xs) = ground (arith, count-bound p xs)

zero_of : (k : ℕ) → (k == 0) ≡ true → k ≡ 0
zero_of k h = ground arith

-- The same duties, with the targets whose results were handled.
abbrev pub traced : {W : Type 0} → Duties W → Duties (W × List Target)
traced d = record {
  check = λ t w. (((d.check t w.0).0, w.1), (d.check t w.0).1);
  handle = λ r w. (d.handle r w.0, w.1 ++ (r.target ∷ []));
  cancelled = λ w. d.cancelled w.0;
  now = λ w. d.now w.0;
  outside = λ w. (d.outside w.0, w.1);
}

-- The context is not cancelled, and a result of a check is one of its target.
pub record Answers {W : Type 0} (d : Duties W) : Type 0 where
  pub runs : (w : W) → d.cancelled w ≡ false
  pub of_target : (t : Target) (w : W) (r : Result) → (d.check t w).1 ≡ some r → r.target ≡ t

module _ {W : Type 0} (d : Duties W) (a : Answers d) (n : ℕ) (p : Target → Bool) where
  -- Those that pass the test, wherever their goroutine is.
  abbrev total : Flight (W × List Target) → ℕ
  total f =
      count p f.world.1
      + count (λ r. p r.target) f.reporting
      + count p f.probing
      + count p f.waiting

  step-total :
      (e : Event) (f g : Flight (W × List Target))
      → step (traced d) n e f ≡ some g
      → total g ≡ total f
  unfolding count
  step-total e f g h =
      step_induction (traced d) n f g e (λ x. total x ≡ total f) h
        (λ i t rest k free. omega (arith, count-take_at p i f.waiting t rest k))
        (λ i t rest w r k c.
          let own : r.target ≡ t = a.of_target t f.world.0 r (ap (λ x. x.1) c) in
          let same : f.world.1 ≡ w.1 = ap (λ x. x.0.1) c in
          rw (← same, own) (omega (arith, count-take_at p i f.probing t rest k)))
        (λ i r rest k. omega (
          arith,
          count-append p f.world.1 (r.target ∷ []),
          count-take_at (λ x. p x.target) i f.reporting r rest k,
        ))
        (λ i t rest k stop. elim (false_absurd (sym (a.runs f.world.0) ∙ stop)) [ ]) (λ u. refl)

  run-total :
      (events : List Event) (f g : Flight (W × List Target))
      → run (traced d) n events f ≡ some g
      → total g ≡ total f
  run-total events f g h =
      run_induction (traced d) n (λ x. total x ≡ total f)
        (λ e x y same k. step-total e x y k ∙ same) events f g refl h

  -- Behind the wait, every goroutine has ended.
  waited-total :
      (start : Time) (f : Flight (W × List Target)) (w : W) (seen : List Target) (stored : ℕ)
      (at : Time) (took : Duration)
      → waited (traced d) n start f ≡ some ((w, seen), stored, at, took)
      → count p seen ≡ total f
  waited-total start f w seen stored at took h =
      elim (Bool-cases (length f.waiting + slots f == 0)) [
        | inl over ↦
            let same : f.world.1 ≡ seen = ap (λ x. x.0.1) (some_injective (rw over at h)) in
            rw (← same) (
              omega (
                arith,
                count-bound p f.waiting,
                count-bound p f.probing,
                count-bound (λ r. p r.target) f.reporting,
                zero_of _ over,
              ))
        | inr going ↦ elim (none_absurd (rw going at h)) [ ]
      ]

  -- Where the context is not cancelled and the result of a check is one of its target, a cycle
  -- with any interleaving of its goroutines that comes to its end has handled one result of each
  -- target: for any test on targets, as many results that were handled are of a target that
  -- passes as there are targets that pass.
  pub cycle-each :
      (targets : List Target) (events : List Event) (w w' : W) (seen : List Target) (stored : ℕ)
      (at : Time) (took : Duration)
      → cycle (traced d) n targets events (w, []) ≡ some ((w', seen), stored, at, took)
      → count p seen ≡ count p targets
  unfolding cycle count
  cycle-each targets events w w' seen stored at took h =
      elim (Option-cases (run (traced d) n events (launched (traced d) n targets (w, [])))) [
        | inl stuck ↦ elim (none_absurd (rw stuck at h)) [ ]
        | inr (f, k) ↦
            waited-total (d.now w) f w' seen stored at took (rw k at h)
            ∙ run-total events (launched (traced d) n targets (w, [])) f k
            ∙ omega arith
      ]
