-- ===== src/Probe/Check/Diagnosis.antt =====
-- Which diagnosis `evaluate` of internal/probe/probe.go gives, and when.
use mathlib.Core.Option.{some-injective}
use certel.Prelude.{
  ap, sym, subst, ◌≤◌, ◌≡◌, ◌≢◌, ◌⊎◌, inl, inr, refl, arith, Bool, true, false, Option, none, some,
  List, [], ◌∷◌, All, Option-cases, Bool-cases, not, ◌&&◌,
}
use certel.Prelude.Int.{ℤ, ◌≤ℤ◌, ltb_ℤ}
use certel.Clock.{Time}
use certel.Config.Target.{Target}
use certel.Probe.Result.{Result, status_ok, severity_ok}
use certel.Probe.Check.{
  Certificate, Library, Verification, is_verified, scope_of, inspected, diagnose, earliest_expired,
  evaluate, weak_signature_cert, threshold_diagnosis,
}

earliest_expired-none :
    (certs : List Certificate) (now : Time)
    → earliest_expired certs now ≡ none
    → All (λ c. now ≤ c.not_after) certs
unfolding earliest_expired
earliest_expired-none [] now h = tt
earliest_expired-none (c ∷ rest) now h =
    (ground (arith, h), earliest_expired-none rest now (ground (arith, h)))

-- The days that are left reach both thresholds.
abbrev pub Reaches : Target → ℤ → Type 0
Reaches t days =
    (critical : ℤ) × (warning : ℤ) × (t.critical_days ≡ some critical)
    × (t.warning_days ≡ some warning)
    × (critical ≤ℤ days)
    × (warning ≤ℤ days)

same_severity : (r₀ r : Result) → some r₀ ≡ some r → r₀.severity ≡ r.severity
same_severity r₀ r h = ap (λ (x : Result). x.severity) (some-injective _ _ h)

threshold_diagnosis-ok :
    (c w : Option ℤ) (r₀ r : Result)
    → threshold_diagnosis c w r₀ ≡ some r
    → r.severity ≡ severity_ok
    → (r.status ≡ status_ok)
      × ((critical : ℤ) × (warning : ℤ) × (c ≡ some critical)
          × (w ≡ some warning)
          × (critical ≤ℤ r.days_left)
          × (warning ≤ℤ r.days_left))
unfolding threshold_diagnosis
threshold_diagnosis-ok none w r₀ r h good = cc
threshold_diagnosis-ok (some critical) none r₀ r h good =
    elim (Bool-cases (ltb_ℤ r₀.days_left critical)) [
      | inl e ↦ let sev = same_severity _ r (simp e at h) in cc
      | inr e ↦ let q = simp e at h in cc
    ]
threshold_diagnosis-ok (some critical) (some warning) r₀ r h good =
    elim (Bool-cases (ltb_ℤ r₀.days_left critical)) [
      | inl e ↦ let sev = same_severity _ r (simp e at h) in cc
      | inr e ↦ elim (Bool-cases (ltb_ℤ r₀.days_left warning)) [
        | inl f ↦ let sev = same_severity _ r (simp (e, f) at h) in cc
        | inr f ↦
            let q = some-injective _ _ (simp (e, f) at h) in
            let days : r₀.days_left ≡ r.days_left = ap (λ (x : Result). x.days_left) q in
            (
              ap (λ (x : Result). x.status) (sym q),
              (
                critical,
                warning,
                refl,
                refl,
                subst (λ (d : ℤ). critical ≤ℤ d) days (ground (arith, e)),
                subst (λ (d : ℤ). warning ≤ℤ d) days (ground (arith, f)),
              ),
            )
      ]
    ]

diagnose-ok :
    (t : Target) (peers : List Certificate) (distrusted : Bool) (expired : Option Certificate)
    (r₀ r : Result)
    → diagnose t peers distrusted expired r₀ ≡ some r
    → r.severity ≡ severity_ok
    → (r.status ≡ status_ok) × (distrusted ≡ false) × (expired ≡ none) × Reaches t r.days_left
unfolding diagnose
diagnose-ok t peers distrusted (some c) r₀ r h good = let sev = same_severity _ r h in cc
diagnose-ok t peers true none r₀ r h good = elim (Option-cases (weak_signature_cert peers)) [
  | inl strong ↦ let sev = same_severity _ r (simp strong at h) in cc
  | inr (c, weak) ↦ let sev = same_severity _ r (simp weak at h) in cc
]
diagnose-ok t peers false none r₀ r h good =
    let (status, reaches) = threshold_diagnosis-ok t.critical_days t.warning_days r₀ r h good in
    (status, refl, refl, reaches)

-- A check that ends with severity ok has status ok, a chain that was verified or a target that is
-- insecure, no expired certificate among those that count, and days left that reach both
-- thresholds.
pub evaluate-ok :
    (lib : Library) (t : Target) (leaf : Certificate) (rest : List Certificate) (now : Time)
    (r : Result)
    → evaluate lib t leaf rest now ≡ some r
    → r.severity ≡ severity_ok
    → let v = lib.verify t (leaf ∷ rest) now in
      (r.status ≡ status_ok)
      × ((is_verified v ≡ true) ⊎ (t.insecure ≡ true))
      × All (λ c. now ≤ c.not_after) (scope_of leaf rest v)
      × Reaches t r.days_left
unfolding evaluate
evaluate-ok lib t leaf rest now r h good =
    let v = lib.verify t (leaf ∷ rest) now in
    let (status, trusted, live, reaches) =
      diagnose-ok t (leaf ∷ rest) _ (earliest_expired (scope_of leaf rest v) now) _ r h good in
    (status, ground (arith, trusted), earliest_expired-none _ now live, reaches)

threshold_diagnosis-returns :
    (c w : Option ℤ) (r₀ : Result)
    → c ≢ none
    → w ≢ none
    → (r : Result) × (threshold_diagnosis c w r₀ ≡ some r)
unfolding threshold_diagnosis
threshold_diagnosis-returns none w r₀ h k = elim (h refl) [ ]
threshold_diagnosis-returns (some critical) none r₀ h k = elim (k refl) [ ]
threshold_diagnosis-returns (some critical) (some warning) r₀ h k =
    elim (Bool-cases (ltb_ℤ r₀.days_left critical)) [
      | inl e ↦ rw e (_, refl)
      | inr e ↦ elim (Bool-cases (ltb_ℤ r₀.days_left warning)) [
        | inl f ↦ rw (e, f) (_, refl)
        | inr f ↦ rw (e, f) (_, refl)
      ]
    ]

-- With both thresholds set, the check of a presented leaf comes back with a result.
pub evaluate-returns :
    (lib : Library) (t : Target) (leaf : Certificate) (rest : List Certificate) (now : Time)
    → t.critical_days ≢ none
    → t.warning_days ≢ none
    → (r : Result) × (evaluate lib t leaf rest now ≡ some r)
unfolding evaluate diagnose
evaluate-returns lib t leaf rest now h k =
    pick (not (is_verified v) && not t.insecure) (earliest_expired (scope_of leaf rest v) now)
  where
    v : Verification
    v = lib.verify t (leaf ∷ rest) now

    pick :
        (distrusted : Bool) (expired : Option Certificate)
        → (r : Result) × (diagnose t
              (leaf ∷ rest)
              distrusted
              expired
              (inspected lib t leaf rest v now)
            ≡ some r)
    pick distrusted (some c) = (_, refl)
    pick true none = (_, refl)
    pick false none = threshold_diagnosis-returns t.critical_days t.warning_days _ h k
