-- ===== src/Alert/Debounce/Streak.antt =====
-- How many readings confirm a change.
use certel.Prelude.{
  ℕ, suc, true, false, ◌<◌, ◌≡◌, ◌≢◌, ◌⊎◌, refl, arith, ap, ◌∙◌, subst, eq_iff, str_refl, str_eq,
  List, [], ◌∷◌, All, length, if◌then◌else◌,
}
use certel.Clock.{Time}
use certel.Alert.Decision.{observation, decide}
use certel.Prelude.Int.{ℤ, pos}
use certel.Probe.Result.{status_unreachable, status_tls_unavailable, Status, severity_ok, Result}
use certel.Alert.Types.{TargetState, ProbeObservation}
use certel.Alert.Debounce.{
  trusted, unreliable_status, bump, tentative, debounce, advance, replay, shown,
}

-- The confirmed pair is not the reading.
abbrev pub Differs : TargetState → ProbeObservation → Type 0
Differs st o = (o.status ≢ st.status) ⊎ (o.severity ≢ st.severity)

abbrev pub IsUnreliable : Status → Type 0
IsUnreliable s = (s ≡ status_unreachable) ⊎ (s ≡ status_tls_unavailable)

-- A reading asks for confirmation exactly when the streak is over 1, it differs from the confirmed
-- pair, and it or the confirmed status is unreliable.
pub tentative_lem :
    (n : ℕ) (st : TargetState) (o : ProbeObservation)
    → 1 < n
    → Differs st o
    → IsUnreliable o.status ⊎ IsUnreliable st.status
    → tentative (pos n) st o ≡ true
unfolding tentative
tentative_lem n st o h d u = ground (
  arith,
  eq_iff o.status st.status,
  eq_iff o.severity st.severity,
  eq_iff o.status status_unreachable,
  eq_iff o.status status_tls_unavailable,
  eq_iff st.status status_unreachable,
  eq_iff st.status status_tls_unavailable,
)

pub tentative-Differs :
    (n : ℤ) (st : TargetState) (o : ProbeObservation) → tentative n st o ≡ true → Differs st o
unfolding tentative
tentative-Differs n st o h =
    ground (arith, eq_iff o.status st.status, eq_iff o.severity st.severity)

-- A reliable reading of a target whose confirmed status is reliable is trusted at once.
pub debounce-reliable :
    (n : ℤ) (st : TargetState) (o : ProbeObservation)
    → unreliable_status o.status ≡ false
    → unreliable_status st.status ≡ false
    → debounce n st o ≡ trusted (record st { pending_count = 0 })
unfolding debounce tentative
debounce-reliable n st o h k = ground arith

-- The candidate of `k` readings of `o`.
abbrev pub candidate : TargetState → ProbeObservation → ℕ → TargetState
candidate st o k = record st {
  pending_status = o.status;
  pending_severity = o.severity;
  pending_count = k;
}

-- A first tentative reading is held, as a candidate of one.
advance_first :
    (n : ℕ) (st : TargetState) (now : Time) (r : Result)
    → tentative (pos n) st (observation r) ≡ true
    → 1 < n
    → st.pending_count ≡ 0
    → advance (pos n) st (now, r) ≡ candidate st (observation r) 1
unfolding advance debounce bump
advance_first n st now r t h z = ground arith

tentative-candidate :
    (n : ℤ) (st : TargetState) (o : ProbeObservation) (k : ℕ)
    → tentative n (candidate st o k) o ≡ tentative n st o
unfolding tentative
tentative-candidate n st o k = refl

advance_more :
    (n k : ℕ) (st : TargetState) (now : Time) (r : Result)
    → tentative (pos n) st (observation r) ≡ true
    → suc (suc k) < n
    → advance (pos n) (candidate st (observation r) (suc k)) (now, r)
      ≡ candidate st (observation r) (suc (suc k))
unfolding advance debounce bump
advance_more n k st now r t h = ground (
  arith,
  tentative-candidate (pos n) st (observation r) (suc k),
  str_refl r.status,
  str_refl r.severity,
)

-- Readings that show one pair.
abbrev pub Shows : ProbeObservation → Time × Result → Type 0
Shows o e = o ≡ shown e

advance_next :
    (n k : ℕ) (st : TargetState) (o : ProbeObservation) (e : Time × Result)
    → Shows o e
    → tentative (pos n) st o ≡ true
    → suc (suc k) < n
    → advance (pos n) (candidate st o (suc k)) e ≡ candidate st o (suc (suc k))
advance_next n k st o (now, r) same t h =
    rw same (advance_more n k st now r (subst (λ x. tentative (pos n) st x ≡ true) same t) h)

-- Fewer tentative readings of one pair in a row than flap_streak, from a state without a
-- candidate, leave the confirmed pair and the clock as they were; only the candidate counts them.
pub replay_held :
    (n : ℕ) (st : TargetState) (o : ProbeObservation) (e : Time × Result)
    (older : List (Time × Result))
    → tentative (pos n) st o ≡ true
    → st.pending_count ≡ 0
    → All (Shows o) (e ∷ older)
    → suc (length older) < n
    → replay (pos n) st (e ∷ older) ≡ candidate st o (suc (length older))
unfolding replay
replay_held n st o (now, r) [] t z same h =
    rw same.0 (advance_first n st now r (subst (λ x. tentative (pos n) st x ≡ true) same.0 t) h z)
replay_held n st o e (f ∷ older) t z same h =
    ap (λ x. advance (pos n) x e) (replay_held n st o f older t z same.1 (omega (arith, h)))
    ∙ advance_next n (length older) st o e same.0 t h

-- The pair is confirmed, and a problem has set the reminder clock.
abbrev pub confirmed : TargetState → Time → ProbeObservation → TargetState
confirmed st now o = record (candidate st o 0) {
  status = o.status;
  severity = o.severity;
  last_alert_at = if str_eq o.severity severity_ok then st.last_alert_at else now;
}

decide-confirmed :
    (n : ℤ) (st : TargetState) (now : Time) (r : Result)
    → tentative n st (observation r) ≡ true
    → (decide now r (candidate st (observation r) 0)).state ≡ confirmed st now (observation r)
unfolding decide tentative
decide-confirmed n st now r t = ground (arith, str_refl r.status, str_refl r.severity)

advance_trusted :
    (n : ℕ) (st : TargetState) (now : Time) (r : Result)
    → tentative (pos (suc (suc n))) st (observation r) ≡ true
    → advance (pos (suc (suc n))) (candidate st (observation r) (suc n)) (now, r)
      ≡ (decide now r (candidate st (observation r) 0)).state
unfolding advance debounce bump
advance_trusted n st now r t = ground (
  arith,
  tentative-candidate (pos (suc (suc n))) st (observation r) (suc n),
  str_refl r.status,
  str_refl r.severity,
)

advance_last :
    (n : ℕ) (st : TargetState) (now : Time) (r : Result)
    → tentative (pos (suc (suc n))) st (observation r) ≡ true
    → advance (pos (suc (suc n))) (candidate st (observation r) (suc n)) (now, r)
      ≡ confirmed st now (observation r)
advance_last n st now r t =
    advance_trusted n st now r t ∙ decide-confirmed (pos (suc (suc n))) st now r t

-- The tentative reading that completes a streak of two or more readings of one pair, from a state
-- without a candidate, makes that pair the confirmed one, with no candidate left; the reminder
-- clock is the time of that reading where it is a problem, and as it was where it is ok.
pub replay_confirms :
    (n : ℕ) (st : TargetState) (o : ProbeObservation) (now : Time) (r : Result) (e : Time × Result)
    (older : List (Time × Result))
    → tentative (pos n) st o ≡ true
    → st.pending_count ≡ 0
    → All (Shows o) ((now, r) ∷ e ∷ older)
    → n ≡ suc (suc (length older))
    → replay (pos n) st ((now, r) ∷ e ∷ older) ≡ confirmed st now o
unfolding replay
replay_confirms n st o now r e older t z same h =
    ap (λ x. advance (pos n) x (now, r)) (replay_held n st o e older t z same.1 (omega (arith, h)))
    ∙ last
  where
    last : advance (pos n) (candidate st o (suc (length older))) (now, r) ≡ confirmed st now o
    last =
        rw (h, same.0)
          (advance_last (length older) st now r (
            subst (λ x. tentative (pos x) st (observation r) ≡ true) h
              (subst (λ x. tentative (pos n) st x ≡ true) same.0 t)))
