-- ===== src/Alert/Channel/Ladder.antt =====
-- The severity ladder under the delivery floor, and what a channel is sent.
use certel.Prelude.{
  ℕ, Bool, true, ◌≤◌, ◌≡◌, ◌≢◌, ◌⊎◌, ◌↔◌, inl, inr, refl, arith, eq_iff, leb, Bool-cases,
}
use certel.Probe.Result.{
  Status, Severity, status_ok, severity_ok, severity_warning, severity_critical, severity_emergency,
}
use certel.Alert.Channel.{problem, recovery, severity_rank, clamp_view, is_bad, notice}

-- A floor that names no alerting severity.
abbrev pub NoLevel : Severity → Type 0
NoLevel s = (s ≢ severity_warning) × (s ≢ severity_critical) × (s ≢ severity_emergency)

-- A floor that names no alerting severity clamps nothing: the channel sees every real pair.
pub clamp_view-NoLevel :
    (sev : Severity) (status : Status) (floor : Severity)
    → NoLevel floor
    → clamp_view sev status floor ≡ (sev, status)
unfolding clamp_view severity_rank
clamp_view-NoLevel sev status floor h = ground (
  arith,
  eq_iff floor severity_warning,
  eq_iff floor severity_critical,
  eq_iff floor severity_emergency,
)

-- A clamped view is the real pair, meeting the floor, or ok/ok.
pub clamp_view_meets :
    (sev : Severity) (status : Status) (floor : Severity)
    → let v = clamp_view sev status floor in
      ((v.0 ≡ severity_ok) × (v.1 ≡ status_ok))
      ⊎ ((v.0 ≡ sev) × (v.1 ≡ status) × (severity_rank floor ≤ severity_rank v.0))
unfolding clamp_view
clamp_view_meets sev status floor =
    elim (Bool-cases (leb (severity_rank floor) (severity_rank sev))) [
      | inl p ↦ simp p (inr (refl, refl, ground arith))
      | inr p ↦ simp p (inl (refl, refl))
    ]

leb_below : (a b c : ℕ) → a ≤ b → leb b c ≡ true → leb a c ≡ true
leb_below a b c h p = ground arith

-- A pair that is a problem above a floor is the same pair above each lower floor.
pub clamp_view_mono :
    (sev : Severity) (status : Status) (low high : Severity)
    → severity_rank low ≤ severity_rank high
    → is_bad (clamp_view sev status high).0 ≡ true
    → clamp_view sev status low ≡ clamp_view sev status high
unfolding clamp_view
clamp_view_mono sev status low high h b =
    elim (Bool-cases (leb (severity_rank high) (severity_rank sev))) [
      | inl p ↦ simp (p, leb_below _ _ _ h p)
      | inr p ↦ cc (simp p at b)
    ]

-- The switch sends a problem exactly when the view of the channel is bad and is new, changed or
-- due for a reminder, and a recovery exactly when the view was bad, no longer is, and recoveries
-- are sent.
pub notice_iff :
    (prev cur : Severity × Status) (repeat_due send_recovery : Bool)
    → ((notice prev cur repeat_due send_recovery ≡ problem) ↔ (
        (cur.0 ≢ severity_ok)
        × ((prev.0 ≡ severity_ok) ⊎ (cur.1 ≢ prev.1) ⊎ (cur.0 ≢ prev.0) ⊎ (repeat_due ≡ true))))
      × ((notice prev cur repeat_due send_recovery ≡ recovery)
          ↔ ((cur.0 ≡ severity_ok) × (prev.0 ≢ severity_ok) × (send_recovery ≡ true)))
unfolding notice
notice_iff (ps, pt) (cs, ct) due send =
    ground (arith, eq_iff cs severity_ok, eq_iff ps severity_ok, eq_iff ct pt, eq_iff cs ps)
