-- ===== src/Scheduler/Slots.antt =====
-- At most `concurrency` checks of internal/scheduler/scheduler.go at once.
use certel.Prelude.{
  ℕ, zero, suc, ◌≤◌, ◌≡◌, Option, none, some, List, [], ◌∷◌, length, ltb, arith, ap, ◌∙◌, subst,
  refl, Option-cases, Bool-cases, inl, inr, true,
}
use certel.Config.Target.{Target}
use certel.Probe.Result.{Result}
use certel.Scheduler.{
  Duties, Flight, Event, acquire, answer, report, give_up, elsewhere, take_at, slots, returned,
  step, run, launched,
}

pub none_absurd {ℓ} : {A : Type ℓ} {a : A} → none ≡ some a → ⊥
none_absurd h = cc

pub some_injective {ℓ} : {A : Type ℓ} {a b : A} → some a ≡ some b → a ≡ b
some_injective h = cc

-- Taking one away shortens a list by one.
pub length-take_at :
    {A : Type 0} (i : ℕ) (xs : List A) (x : A) (rest : List A)
    → take_at i xs ≡ some (x, rest)
    → length xs ≡ suc (length rest)
unfolding take_at
length-take_at i [] x rest h = cc
length-take_at zero (y ∷ ys) x rest h =
    let q : ys ≡ rest = ap (λ o. elim o [ none ↦ ys | some z ↦ z.1 ]) h in
    ap (λ zs. suc (length zs)) q
length-take_at (suc i) (y ∷ ys) x rest h = elim (Option-cases (take_at i ys)) [
  | inl e ↦ elim (none_absurd (rw e at h)) [ ]
  | inr ((z, zs), e) ↦
      let q : some (z, y ∷ zs) ≡ some (x, rest) = rw e at h in
      ap suc (length-take_at i ys z zs e) ∙ ap (λ p. suc (length p.1)) (some_injective q)
]

by_answer {ℓ} :
    {W : Type 0} (d : Duties W) (n : ℕ) (f g : Flight W) (rest : List Target)
    (o : W × Option Result) (P : Flight W → Type ℓ)
    → returned d n f rest o ≡ some g
    → ((w : W) (r : Result)
        → o ≡ (w, some r)
        → P (record f { world = w; probing = rest; reporting = r ∷ f.reporting }))
    → P g
by_answer d n f g rest (w, none) P h b = elim (none_absurd h) [ ]
by_answer d n f g rest (w, some r) P h b = subst P (some_injective h) (b w r refl)

-- A relation between a flight and the next holds where it holds of each step.
pub step_induction {ℓ} :
    {W : Type 0} (d : Duties W) (concurrency : ℕ) (f g : Flight W) (e : Event)
    (P : Flight W → Type ℓ)
    → step d concurrency e f ≡ some g
    → ((i : ℕ) (t : Target) (rest : List Target)
        → take_at i f.waiting ≡ some (t, rest)
        → ltb (slots f) concurrency ≡ true
        → P (record f { waiting = rest; probing = t ∷ f.probing }))
    → ((i : ℕ) (t : Target) (rest : List Target) (w : W) (r : Result)
        → take_at i f.probing ≡ some (t, rest)
        → d.check t f.world ≡ (w, some r)
        → P (record f { world = w; probing = rest; reporting = r ∷ f.reporting }))
    → ((i : ℕ) (r : Result) (rest : List Result)
        → take_at i f.reporting ≡ some (r, rest)
        → P (record f { world = d.handle r f.world; reporting = rest }))
    → ((i : ℕ) (t : Target) (rest : List Target)
        → take_at i f.waiting ≡ some (t, rest)
        → d.cancelled f.world ≡ true
        → P (record f { waiting = rest }))
    → (e ≡ elsewhere → P (record f { world = d.outside f.world }))
    → P g
unfolding step
step_induction d n f g (acquire i) P h a b c x y = elim (Option-cases (take_at i f.waiting)) [
  | inl e ↦ elim (none_absurd (rw e at h)) [ ]
  | inr ((t, rest), e) ↦ elim (Bool-cases (ltb (slots f) n)) [
    | inl free ↦ subst P (some_injective (simp (e, free) at h)) (a i t rest e free)
    | inr full ↦ elim (none_absurd (simp (e, full) at h)) [ ]
  ]
]
step_induction d n f g (answer i) P h a b c x y = elim (Option-cases (take_at i f.probing)) [
  | inl e ↦ elim (none_absurd (rw e at h)) [ ]
  | inr ((t, rest), e) ↦
      by_answer d n f g rest (d.check t f.world) P (rw e at h) (λ w r k. b i t rest w r e k)
]
step_induction d n f g (report i) P h a b c x y = elim (Option-cases (take_at i f.reporting)) [
  | inl e ↦ elim (none_absurd (rw e at h)) [ ]
  | inr ((r, rest), e) ↦ subst P (some_injective (rw e at h)) (c i r rest e)
]
step_induction d n f g (give_up i) P h a b c x y = elim (Option-cases (take_at i f.waiting)) [
  | inl e ↦ elim (none_absurd (rw e at h)) [ ]
  | inr ((t, rest), e) ↦ elim (Bool-cases (d.cancelled f.world)) [
    | inl stop ↦ subst P (some_injective (simp (e, stop) at h)) (x i t rest e stop)
    | inr go ↦ elim (none_absurd (simp (e, go) at h)) [ ]
  ]
]
step_induction d n f g elsewhere P h a b c x y = subst P (some_injective h) (y refl)

-- What every step keeps, every run keeps.
pub run_induction {ℓ} :
    {W : Type 0} (d : Duties W) (n : ℕ) (P : Flight W → Type ℓ)
    → ((e : Event) (f g : Flight W) → P f → step d n e f ≡ some g → P g)
    → (events : List Event) (f g : Flight W) → P f
    → run d n events f ≡ some g
    → P g
unfolding run
run_induction d n P keeps [] f g p h = subst P (some_injective h) p
run_induction d n P keeps (e ∷ events) f g p h = elim (Option-cases (step d n e f)) [
  | inl stuck ↦ elim (none_absurd (rw stuck at h)) [ ]
  | inr (f', k) ↦ run_induction d n P keeps events f' g (keeps e f f' p k) (rw k at h)
]

step-slots :
    {W : Type 0} (d : Duties W) (n : ℕ) (e : Event) (f g : Flight W)
    → slots f ≤ n
    → step d n e f ≡ some g
    → slots g ≤ n
step-slots d n e f g p h =
    step_induction d n f g e (λ x. slots x ≤ n) h (λ i t rest k free. ground (arith, free))
      (λ i t rest w r k c. omega (arith, p, length-take_at i f.probing t rest k))
      (λ i r rest k. omega (arith, p, length-take_at i f.reporting r rest k)) (λ i t rest k c. p)
      (λ u. p)

-- In any interleaving, and after each of its steps, at most `concurrency` targets have a check
-- that runs or a result that is being handled.
pub run-slots :
    {W : Type 0} (d : Duties W) (concurrency : ℕ) (events : List Event) (targets : List Target)
    (w : W) (g : Flight W)
    → run d concurrency events (launched d concurrency targets w) ≡ some g
    → slots g ≤ concurrency
run-slots d n events targets w g h =
    run_induction d n (λ x. slots x ≤ n) (step-slots d n) events (launched d n targets w) g
      (omega arith) h
