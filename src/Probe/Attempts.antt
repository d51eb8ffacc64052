-- ===== src/Probe/Attempts.antt =====
-- `Check` and `checkOnce` of internal/probe/probe.go. The network acts on a world `W`, which also has
-- the clock and says whether the context is cancelled; the text of a message is left out.
use mathlib.Core.Option.{some-injective}
use certel.Prelude.{
  subst, sym, ℕ, zero, suc, ◌+◌, ◌≤◌, ◌≡◌, ◌≢◌, ◌⊎◌, inl, inr, refl, arith, Bool, true, false,
  Option, none, some, List, [], ◌∷◌, not, ◌||◌, str_eq, eq_iff,
}
use certel.Prelude.Int.{ℤ, pos, negsuc}
use certel.Clock.{Time, zero_time, sub_time}
use certel.Config.Target.{Target}
use certel.Probe.Check.{Certificate, Library, evaluate}
use certel.Probe.Result.{
  Result, Status, Severity, status_unreachable, status_tls_unavailable, status_invalid,
  severity_critical, severity_emergency,
}

-- How a connection ends: before the dialogue, in it, in the handshake, or with certificates.
pub data Connection : Type 0 where
  not_dialled : Connection
  not_offered : Connection
  not_negotiated : Connection
  no_handshake : Connection
  presented : List Certificate → Connection

pub record Network (W : Type 0) : Type 0 where
  pub connect : Target → W → W × Connection
  pub cancelled : W → Bool
  pub pause : W → W
  pub now : W → Time

abbrev without_certificate : Target → Status → Severity → Option Result
without_certificate t status severity = some (record {
  target = t;
  status = status;
  severity = severity;
  message = "";
  checked_at = zero_time;
  duration = pos 0;
  attempts = 0;
  cert = none;
  verify_ok = false;
  verified_not_after = zero_time;
  days_left = pos 0;
})

-- `checkOnce` behind its connection.
unfoldable pub assess : Library → Target → Time → Connection → Option Result
assess lib t now not_dialled = without_certificate t status_unreachable severity_critical
assess lib t now not_offered = without_certificate t status_tls_unavailable severity_critical
assess lib t now not_negotiated = without_certificate t status_unreachable severity_critical
assess lib t now no_handshake = without_certificate t status_unreachable severity_critical
assess lib t now (presented []) = without_certificate t status_invalid severity_emergency
assess lib t now (presented (leaf ∷ rest)) = evaluate lib t leaf rest now

module _ {W : Type 0} (lib : Library) (net : Network W) (t : Target) where
  -- The result of attempt `n`, and what follows it with `left` attempts to go.
  abbrev stop_here : ℕ → W → Result → W × Option Result
  stop_here n w r = (w, some (record r { attempts = n }))

  abbrev again : ℕ → W → Result → (W → W × Option Result) → Bool → ℕ → W × Option Result
  again n w r next true left = stop_here n w r
  again n w r next false zero = stop_here n (net.pause w) r
  again n w r next false (suc left) = next (net.pause w)

  abbrev after_attempt : ℕ → ℕ → W → Option Result → (W → W × Option Result) → W × Option Result
  after_attempt n left w none next = (w, none)
  after_attempt n left w (some r) next =
      again n w r next (not (str_eq r.status status_unreachable) || net.cancelled w) left

  unfoldable pub attempt : (n left : ℕ) → W → W × Option Result
  attempt n zero w =
      let (w', c) = net.connect t w in
      after_attempt n zero w' (assess lib t (net.now w') c) (λ w''. (w'', none))
  attempt n (suc left) w =
      let (w', c) = net.connect t w in
      after_attempt n (suc left) w' (assess lib t (net.now w') c) (attempt (suc n) left)

  -- A result that comes back was found in one of the attempts up to `most`, and where it was not the
  -- last of them the target was reached or the context was cancelled.
  pub record Counted (n most : ℕ) (w : W) (r : Result) : Type 0 where
    pub first : n ≤ r.attempts
    pub few : r.attempts ≤ most
    pub settled : (r.attempts ≡ most) ⊎ (r.status ≢ status_unreachable) ⊎ (net.cancelled w ≡ true)

  again-Counted :
      (n left most : ℕ) (w : W) (r r' : Result) (next : W → W × Option Result)
      → n + left ≡ most
      → ((w' : W) → (next w').1 ≡ some r' → Counted (suc n) most (next w').0 r')
      → (done : Bool) → (done ≡ true → (r.status ≢ status_unreachable) ⊎ (net.cancelled w ≡ true))
      → (again n w r next done left).1 ≡ some r'
      → Counted n most (again n w r next done left).0 r'
  again-Counted n left most w r r' next few rest true why h =
      let q = some-injective _ _ h in
      subst (λ (x : Result). Counted n most w x) q
        (record { first = omega arith; few = omega (arith, few); settled = inr (why refl) })
  again-Counted n zero most w r r' next few rest false why h =
      let q = some-injective _ _ h in
      subst (λ (x : Result). Counted n most (net.pause w) x) q
        (record {
          first = omega arith;
          few = omega (arith, few);
          settled = inl (omega (arith, few));
        })
  again-Counted n (suc left) most w r r' next few rest false why h =
      let c = rest (net.pause w) h in
      record { first = omega (arith, c.first); few = c.few; settled = c.settled }

  after_attempt-Counted :
      (n left most : ℕ) (w : W) (o : Option Result) (r' : Result) (next : W → W × Option Result)
      → n + left ≡ most
      → ((w' : W) → (next w').1 ≡ some r' → Counted (suc n) most (next w').0 r')
      → (after_attempt n left w o next).1 ≡ some r'
      → Counted n most (after_attempt n left w o next).0 r'
  after_attempt-Counted n left most w none r' next few rest h = cc
  after_attempt-Counted n left most w (some r) r' next few rest h =
      again-Counted n left most w r r' next few rest _
        (λ e. ground (arith, e, eq_iff r.status status_unreachable)) h

  attempt-Counted :
      (n left most : ℕ) (w : W) (r : Result)
      → n + left ≡ most
      → (attempt n left w).1 ≡ some r
      → Counted n most (attempt n left w).0 r
  unfolding attempt
  attempt-Counted n zero most w r few h =
      let (w', c) = net.connect t w in
      after_attempt-Counted n zero most w' (assess lib t (net.now w') c) r (λ w''. (w'', none)) few
        (λ w'' e. cc) h
  attempt-Counted n (suc left) most w r few h =
      let (w', c) = net.connect t w in
      after_attempt-Counted n (suc left) most w' (assess lib t (net.now w') c) r
        (attempt (suc n) left) few
        (λ w'' e. attempt-Counted (suc n) left most w'' r (omega (arith, few)) e) h

  abbrev stamped : Time → W × Option Result → W × Option Result
  stamped start (w, none) = (w, none)
  stamped start (w, some r) =
      (w, some (record r { checked_at = start; duration = sub_time (net.now w) start }))

  abbrev checked : Option ℤ → W → W × Option Result
  checked none w = (w, none)
  checked (some (negsuc n)) w = (w, none)
  checked (some (pos retries)) w = stamped (net.now w) (attempt 1 retries w)

  -- `Check`; `none` where the source panics, or makes no attempt, which `Validate` rules out.
  unfoldable pub check : W → W × Option Result
  check w = checked t.connect_retries w

  stamped-Counted :
      (start : Time) (n most : ℕ) (x : W × Option Result) (r : Result)
      → ((r₀ : Result) → x.1 ≡ some r₀ → Counted n most x.0 r₀)
      → (stamped start x).1 ≡ some r
      → Counted n most (stamped start x).0 r
  stamped-Counted start n most (w, none) r h e = cc
  stamped-Counted start n most (w, some r₀) r h e =
      let c = h r₀ refl in
      subst (λ (x : Result). Counted n most w x) (some-injective _ _ e)
        (record { first = c.first; few = c.few; settled = c.settled })

  -- A check that may retry its connection and comes back makes from 1 to retries + 1 attempts;
  -- where it makes fewer, the target was reached or the context was cancelled.
  pub check-Counted :
      (retries : ℕ) (w : W) (r : Result)
      → t.connect_retries ≡ some (pos retries)
      → (check w).1 ≡ some r
      → Counted 1 (suc retries) (check w).0 r
  unfolding check
  check-Counted retries w r set =
      subst (λ (o : Option ℤ). (checked o w).1 ≡ some r → Counted 1 (suc retries) (checked o w).0 r)
        (sym set)
        (stamped-Counted (net.now w) 1 (suc retries) (attempt 1 retries w) r
          (λ r₀ e. attempt-Counted 1 retries (suc retries) w r₀ (omega arith) e))
