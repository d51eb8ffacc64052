-- ===== src/Alert/Manager/Sends.antt =====
-- When a channel of internal/alert/manager.go sends, told by the levels of its floor.
use certel.Prelude.{
  String, Bool, true, false, Option, none, some, ◌≡◌, ◌≢◌, ◌⊎◌, ◌↔◌, inl, inr, refl, arith, sym,
  eq_iff, leb,
}
use certel.Config.Target.{AlertConfig, send_recovery_enabled}
use certel.Probe.Result.{
  Status, Severity, Result, status_ok, severity_ok, severity_warning, severity_critical,
  severity_emergency,
}
use certel.Alert.Types.{NotifierRuntime, Delivery, Bytes}
use certel.Alert.Channel.{severity_rank, clamp_view, notifier_floor, channel}
use certel.Alert.Channel.Ladder.{notice_iff}
use certel.Alert.Manager.FanOut.{channel_iff, seen, seen_before}

-- The severities that a floor lets through, for each floor that a configuration may set.
abbrev pub Clears : Severity → Severity → Type 0
Clears floor s =
    ((floor ≡ severity_warning)
      × ((s ≡ severity_warning) ⊎ (s ≡ severity_critical) ⊎ (s ≡ severity_emergency)))
    ⊎ ((floor ≡ severity_critical) × ((s ≡ severity_critical) ⊎ (s ≡ severity_emergency)))
    ⊎ ((floor ≡ severity_emergency) × (s ≡ severity_emergency))

abbrev pub HasFloor : String → Severity → Type 0
HasFloor min_severity floor =
    ((min_severity ≡ "") × (floor ≡ severity_warning))
    ⊎ ((min_severity ≡ floor)
        × ((floor ≡ severity_warning) ⊎ (floor ≡ severity_critical) ⊎ (floor ≡ severity_emergency)))

-- The pair that a channel with that floor sees of a real pair.
abbrev pub Sees : Severity → Severity → Status → Severity × Status → Type 0
Sees floor sev status v =
    (Clears floor sev × (v ≡ (sev, status))) ⊎ (¬ Clears floor sev × (v ≡ (severity_ok, status_ok)))

notifier_floor-HasFloor :
    (min_severity : String) (floor : Severity)
    → HasFloor min_severity floor
    → notifier_floor min_severity ≡ floor
unfolding notifier_floor
notifier_floor-HasFloor m floor (inl (unset, e)) = rw unset (sym e)
notifier_floor-HasFloor m floor (inr (set, inl e)) = rw (set, e) refl
notifier_floor-HasFloor m floor (inr (set, inr (inl e))) = rw (set, e) refl
notifier_floor-HasFloor m floor (inr (set, inr (inr e))) = rw (set, e) refl

abbrev IsLevel : Severity → Type 0
IsLevel floor =
    (floor ≡ severity_warning) ⊎ (floor ≡ severity_critical) ⊎ (floor ≡ severity_emergency)

HasFloor-IsLevel : (m : String) (floor : Severity) → HasFloor m floor → IsLevel floor
HasFloor-IsLevel m floor (inl (unset, e)) = inl e
HasFloor-IsLevel m floor (inr (set, l)) = l

levels_differ :
    (severity_warning ≢ severity_critical)
    × (severity_warning ≢ severity_emergency)
    × (severity_critical ≢ severity_emergency)
levels_differ = (λ e. cc, λ e. cc, λ e. cc)

-- The ranks and the levels tell the same severities apart.
leb-Clears :
    (floor sev : Severity)
    → IsLevel floor
    → (leb (severity_rank floor) (severity_rank sev) ≡ true) ↔ Clears floor sev
unfolding severity_rank
leb-Clears floor sev l = ground (
  arith,
  levels_differ,
  eq_iff floor severity_warning,
  eq_iff floor severity_critical,
  eq_iff floor severity_emergency,
  eq_iff sev severity_warning,
  eq_iff sev severity_critical,
  eq_iff sev severity_emergency,
)

not_true : (b : Bool) → ¬ (b ≡ true) → b ≡ false
not_true true h = elim (h refl) [ ]
not_true false h = refl

clamp_view-level :
    (floor sev : Severity) (status : Status) (v : Severity × Status)
    → IsLevel floor
    → Sees floor sev status v
    → clamp_view sev status floor ≡ v
unfolding clamp_view
clamp_view-level floor sev status v l (inl (c, e)) = rw ((leb-Clears floor sev l).1 c) (sym e)
clamp_view-level floor sev status v l (inr (c, e)) =
    rw (not_true _ (λ t. c ((leb-Clears floor sev l).0 t))) (sym e)

clamp_view-Sees :
    (m : String) (floor sev : Severity) (status : Status) (v : Severity × Status)
    → HasFloor m floor
    → Sees floor sev status v
    → clamp_view sev status (notifier_floor m) ≡ v
clamp_view-Sees m floor sev status v f h =
    rw (notifier_floor-HasFloor m floor f)
      (clamp_view-level floor sev status v (HasFloor-IsLevel m floor f) h)

enabled_iff : (c : AlertConfig) → (send_recovery_enabled c ≡ true) ↔ (c.send_recovery ≢ some false)
unfolding send_recovery_enabled
enabled_iff c = pick c.send_recovery
  where
    pick : (o : Option Bool) → (elim o [ none ↦ true | some b ↦ b ] ≡ true) ↔ (o ≢ some false)
    pick none = (λ h e. cc, λ h. refl)
    pick (some true) = (λ h e. cc, λ h. refl)
    pick (some false) = (λ h e. cc, λ h. elim (h refl) [ ])

-- The view is a problem that is new, changed or due for a reminder.
abbrev pub Problem : Severity × Status → Severity × Status → Bool → Type 0
Problem prev cur due =
    (cur.0 ≢ severity_ok)
    × ((prev.0 ≡ severity_ok) ⊎ (cur.1 ≢ prev.1) ⊎ (cur.0 ≢ prev.0) ⊎ (due ≡ true))

-- The view was a problem and is none, and recoveries are not turned off.
abbrev pub Recovery : Severity × Status → Severity × Status → Option Bool → Type 0
Recovery prev cur send_recovery =
    (cur.0 ≡ severity_ok) × (prev.0 ≢ severity_ok) × (send_recovery ≢ some false)

-- A channel whose floor is a level of the ladder, warning where it is unset, sees a pair as it is
-- where its severity is at the floor or above, and as ok elsewhere. It sends one delivery, of the
-- pair that it sees, exactly when that is a problem that is new, changed or due for a reminder
-- and the body renders for a problem on that pair, or it was a problem and is none, recoveries
-- are not turned off and the body renders for a recovery.
pub channel_sends :
    (name : String) (rt : NotifierRuntime) (prev_severity : Severity) (prev_status : Status)
    (r : Result) (due : Bool) (floor : Severity) (prev cur : Severity × Status) (d : Delivery)
    → HasFloor rt.config.min_severity floor
    → Sees floor prev_severity prev_status prev
    → Sees floor r.severity r.status cur
    → (channel prev_severity prev_status r due name rt ≡ some d) ↔ (
        (body : Bytes) × (d
          ≡ record { notifier = name; status = cur.1; severity = cur.0; body = body })
        × ((Problem prev cur due
              × (rt.render (record r { severity = cur.0; status = cur.1 }) false ≡ some body))
            ⊎ (Recovery prev cur rt.config.send_recovery
                × (rt.render (record r { severity = cur.0; status = cur.1 }) true ≡ some body))))
channel_sends name rt prev_severity prev_status r due floor prev cur d f p c =
    let sends = channel_iff name rt prev_severity prev_status r due d in
    let was = clamp_view-Sees rt.config.min_severity floor prev_severity prev_status prev f p in
    let is = clamp_view-Sees rt.config.min_severity floor r.severity r.status cur f c in
    let why =
      notice_iff (seen_before name rt prev_severity prev_status r)
        (seen name rt prev_severity prev_status r) due (send_recovery_enabled rt.config) in
    let on = enabled_iff rt.config in
    rw (← was, ← is)
      (
        (λ h.
            let (body, same, cause) = sends.0 h in
            (
              body,
              same,
              elim cause [
                | inl (n, out) ↦ inl (why.0.0 n, out)
                | inr (n, out) ↦ let (now, then, b) = why.1.0 n in inr ((now, then, on.0 b), out)
              ],
            )),
        (λ h. sends.1 (
          h.0,
          h.1,
          elim h.2 [
            | inl (n, out) ↦ inl (why.0.1 n, out)
            | inr ((now, then, b), out) ↦ inr (why.1.1 (now, then, on.1 b), out)
          ],
        )),
      )
