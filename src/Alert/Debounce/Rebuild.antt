-- ===== src/Alert/Debounce/Rebuild.antt =====
-- The counter that `Restore` rebuilds from the probe log is the one that was kept in memory.
use certel.Prelude.{
  ℕ, suc, zero, Bool, true, Option, none, some, List, [], ◌∷◌, ◌&&◌, ◌<◌, ◌≡◌, ◌⊎◌, inl, inr, refl,
  ap, sym, ◌∙◌, arith, str_eq, eq_iff, str_refl, if◌then◌else◌, take, map, ◌==◌,
}
use certel.Prelude.Int.{pos}
use certel.Clock.{Time}
use certel.Probe.Result.{Result}
use certel.Alert.Decision.{observation}
use certel.Alert.Types.{TargetState, ProbeObservation}
use certel.Alert.Debounce.{
  bump, tentative, debounce, advance, replay, shown, run_length, reconstruct_pending, Pending,
}

abbrev same_pair : ProbeObservation → ProbeObservation → Bool
same_pair a b = str_eq a.status b.status && str_eq a.severity b.severity

-- What the state knows of the history: no candidate, and then the newest reading is the confirmed
-- pair; or a candidate that is the newest reading, counted over its whole run.
data Tracks (n : ℕ) (st : TargetState) : List ProbeObservation → Type 0 where
  empty : st.pending_count ≡ 0 → Tracks n st []
  settled :
      {o : ProbeObservation} {older : List ProbeObservation}
      → st.pending_count ≡ 0
      → o.status ≡ st.status
      → o.severity ≡ st.severity
      → Tracks n st (o ∷ older)
  counting :
      {o : ProbeObservation} {older : List ProbeObservation}
      → st.pending_status ≡ o.status
      → st.pending_severity ≡ o.severity
      → st.pending_count ≡ run_length o (o ∷ older)
      → st.pending_count < n
      → tentative (pos n) st o ≡ true
      → Tracks n st (o ∷ older)

run_length-cong :
    (a b : ProbeObservation) (history : List ProbeObservation)
    → a.status ≡ b.status
    → a.severity ≡ b.severity
    → run_length a history ≡ run_length b history
run_length-cong a b history p q =
    ap (λ (o : ProbeObservation). run_length o history)
      (λ i. record { status = p i; severity = q i })

-- The next run: one more where the reading is the candidate, a new one elsewhere.
bump-run_length :
    (n : ℕ) (st : TargetState) (o : ProbeObservation) (history : List ProbeObservation)
    → Tracks n st history
    → tentative (pos n) st o ≡ true
    → (bump st o).pending_count ≡ run_length o (o ∷ history)
unfolding bump run_length tentative
bump-run_length n st o [] (empty z) t = ground (arith, str_refl o.status, str_refl o.severity)
bump-run_length n st o (h ∷ older) (settled z a b) t = ground (
  arith,
  str_refl o.status,
  str_refl o.severity,
  eq_iff h.status o.status,
  eq_iff h.severity o.severity,
  eq_iff o.status st.status,
  eq_iff o.severity st.severity,
)
bump-run_length n st o (h ∷ older) (counting a b c d e) t = ground (
  arith,
  str_refl o.status,
  str_refl o.severity,
  str_refl h.status,
  str_refl h.severity,
  eq_iff h.status o.status,
  eq_iff h.severity o.severity,
  eq_iff st.pending_status o.status,
  eq_iff st.pending_severity o.severity,
  run_length-cong h o older,
)

bump-pending :
    (st : TargetState) (o : ProbeObservation)
    → ((bump st o).pending_status ≡ o.status) × ((bump st o).pending_severity ≡ o.severity)
unfolding bump
bump-pending st o =
    ground (arith, eq_iff st.pending_status o.status, eq_iff st.pending_severity o.severity)

tentative-bump :
    (n : ℕ) (st : TargetState) (o : ProbeObservation)
    → tentative (pos n) (bump st o) o ≡ tentative (pos n) st o
unfolding tentative bump
tentative-bump n st o = ground arith

advance-cases :
    (n : ℕ) (st : TargetState) (now : Time) (r : Result)
    → ((tentative (pos n) st (observation r) ≡ true)
        × ((bump st (observation r)).pending_count < n)
        × (advance (pos n) st (now, r) ≡ bump st (observation r)))
      ⊎ ((advance (pos n) st (now, r)).pending_count ≡ 0)
        × ((advance (pos n) st (now, r)).status ≡ r.status)
        × ((advance (pos n) st (now, r)).severity ≡ r.severity)
unfolding advance debounce
advance-cases n st now r = ground arith

advance-Tracks :
    (n : ℕ) (st : TargetState) (now : Time) (r : Result) (history : List ProbeObservation)
    → Tracks n st history
    → Tracks n (advance (pos n) st (now, r)) (observation r ∷ history)
advance-Tracks n st now r history h =
    let o = observation r in
    elim (advance-cases n st now r) [
      | inl c ↦ rw c.2 (
          counting (bump-pending st o).0 (bump-pending st o).1
            (bump-run_length n st o history h c.0) c.1 (tentative-bump n st o ∙ c.0))
      | inr c ↦ settled c.0 (sym c.1) (sym c.2)
    ]

replay-Tracks :
    (n : ℕ) (st : TargetState) (history : List (Time × Result))
    → st.pending_count ≡ 0
    → Tracks n (replay (pos n) st history) (map shown history)
unfolding replay
replay-Tracks n st [] z = empty z
replay-Tracks n st ((now, r) ∷ older) z =
    advance-Tracks n (replay (pos n) st older) now r (map shown older) (replay-Tracks n st older z)

-- What the store's query returns of a history: its newest readings.
run_length-take :
    (n : ℕ) (o : ProbeObservation) (history : List ProbeObservation)
    → run_length o history < n
    → run_length o (take n history) ≡ run_length o history
unfolding run_length
run_length-take zero o history h = elim h [ ]
run_length-take (suc n) o [] h = refl
run_length-take (suc n) o (x ∷ older) h = ground (arith, run_length-take n o older)

-- The candidate of a state, if it has one.
abbrev pub pending_of : TargetState → Option Pending
pending_of st =
    if st.pending_count == 0
    then none
    else some (record {
      status = st.pending_status;
      severity = st.pending_severity;
      count = st.pending_count;
    })

run_length_self :
    (o : ProbeObservation) (older : List ProbeObservation)
    → run_length o (o ∷ older) ≡ suc (run_length o older)
unfolding run_length
run_length_self o older = ground (arith, str_refl o.status, str_refl o.severity)

reconstruct-Tracks :
    (n : ℕ) (st : TargetState) (history : List ProbeObservation)
    → 1 < n
    → Tracks n st history
    → reconstruct_pending st.severity st.status (take n history) (pos n) ≡ pending_of st
unfolding reconstruct_pending tentative
reconstruct-Tracks (suc n) st [] h (empty z) = ground arith
reconstruct-Tracks (suc n) st (o ∷ older) h (settled z a b) =
    ground (arith, eq_iff o.status st.status, eq_iff o.severity st.severity)
reconstruct-Tracks (suc n) st (o ∷ older) h (counting a b c d e) =
    ground (arith, run_length_self o older, run_length-take (suc n) o (o ∷ older))
reconstruct-Tracks zero st history h t = elim h [ ]

-- With a streak of two or more, reconstructing the candidate from the newest flap_streak readings
-- of the log gives the candidate that the debounce kept in memory, after any readings and from
-- any confirmed pair without a candidate.
pub reconstruct-replay :
    (n : ℕ) (st : TargetState) (history : List (Time × Result))
    → 1 < n
    → st.pending_count ≡ 0
    → let st' = replay (pos n) st history in
      reconstruct_pending st'.severity st'.status (take n (map shown history)) (pos n)
      ≡ pending_of st'
reconstruct-replay n st history h z =
    reconstruct-Tracks n (replay (pos n) st history) (map shown history) h
      (replay-Tracks n st history z)
