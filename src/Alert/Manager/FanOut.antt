-- ===== src/Alert/Manager/FanOut.antt =====
-- What the fan-out of `Process` sends, and to whom.
use mathlib.Core.List.{Memᴰ, Sublistᴰ}
use certel.Prelude.{
  String, Bool, true, false, Option, none, some, List, [], ◌∷◌, ◌≤◌, ◌≡◌, ◌⊎◌, inl, inr, refl,
  arith, sym, ap, ◌∙◌, ◌↔◌, str_refl, Option-cases,
}
use certel.Prelude.Assoc.{Assoc, lookup}
use certel.Config.Target.{send_recovery_enabled}
use certel.Probe.Result.{Status, Severity, Result, status_ok, severity_ok}
use certel.Alert.Types.{NotifierRuntime, Delivery, TargetState, Bytes}
use certel.Alert.Channel.{
  Notice, silent, problem, recovery, severity_rank, clamp_view, notifier_floor, notice, channel,
  deliver, rendered, on_notice,
}
use certel.Alert.Channel.Ladder.{clamp_view_meets}
use certel.Alert.Manager.{fan_out, woken, attached, with_delivery}

module _ (name : String) (rt : NotifierRuntime) (prev_severity : Severity) (prev_status : Status)
    (r : Result) where
  abbrev pub floor : Severity
  floor = notifier_floor rt.config.min_severity

  abbrev pub seen : Severity × Status
  seen = clamp_view r.severity r.status floor

  abbrev pub seen_before : Severity × Status
  seen_before = clamp_view prev_severity prev_status floor

  abbrev pub clamped : Result
  clamped = record r { severity = seen.0; status = seen.1 }

  -- The notice that the channel owes.
  abbrev pub owed : Bool → Notice
  owed repeat_due = notice seen_before seen repeat_due (send_recovery_enabled rt.config)

  abbrev pub delivery_of : Bytes → Delivery
  delivery_of body = record { notifier = name; status = seen.1; severity = seen.0; body = body }

  pub channel-problem :
      (due : Bool) (body : Bytes)
      → owed due ≡ problem
      → rt.render clamped false ≡ some body
      → channel prev_severity prev_status r due name rt ≡ some (delivery_of body)
  unfolding channel
  channel-problem due body o p = rw (o, channel) (ap (rendered name seen) p)

  channel-recovery :
      (due : Bool) (body : Bytes)
      → owed due ≡ recovery
      → rt.render clamped true ≡ some body
      → channel prev_severity prev_status r due name rt ≡ some (delivery_of body)
  unfolding channel
  channel-recovery due body o p = rw (o, channel) (ap (rendered name seen) p)

  rendered-some :
      (cur : Severity × Status) (o : Option Bytes) (d : Delivery)
      → rendered name cur o ≡ some d
      → (body : Bytes) × (o ≡ some body)
        × (d ≡ record { notifier = name; status = cur.1; severity = cur.0; body = body })
  rendered-some cur o d h = ground arith

  -- A channel sends one delivery, on its clamped view, exactly when a notice is owed and its body
  -- renders: a recovery with the recovery body, a problem with the other.
  pub channel_iff :
      (due : Bool) (d : Delivery)
      → (channel prev_severity prev_status r due name rt ≡ some d) ↔ (
          (body : Bytes) × (d ≡ delivery_of body)
          × (((owed due ≡ problem) × (rt.render clamped false ≡ some body))
              ⊎ ((owed due ≡ recovery) × (rt.render clamped true ≡ some body))))
  unfolding channel
  channel_iff due d = (
    only_if (owed due) refl,
    λ h. elim h.2 [
      | inl (o, p) ↦ channel-problem due h.0 o p ∙ ap some (sym h.1)
      | inr (o, p) ↦ channel-recovery due h.0 o p ∙ ap some (sym h.1)
    ],
  )
    where
      only_if :
          (n : Notice)
          → owed due ≡ n
          → on_notice n (deliver name seen rt r) ≡ some d
          → ((body : Bytes) × (d ≡ delivery_of body)
              × (((owed due ≡ problem) × (rt.render clamped false ≡ some body))
                  ⊎ ((owed due ≡ recovery) × (rt.render clamped true ≡ some body))))
      only_if silent e h = cc
      only_if problem e h =
          let (body, q, p) = rendered-some seen (rt.render clamped false) d h in
          (body, p, inl (e, q))
      only_if recovery e h =
          let (body, q, p) = rendered-some seen (rt.render clamped true) d h in
          (body, p, inr (e, q))

  -- A reading that is the confirmed pair, with no reminder due, is owed no notice.
  owed-unchanged : r.severity ≡ prev_severity → r.status ≡ prev_status → owed false ≡ silent
  unfolding notice
  owed-unchanged p q = simp (p, q, str_refl) (ground arith)

  -- The reading that was confirmed already sends nothing while no reminder is due.
  pub channel-unchanged :
      r.severity ≡ prev_severity
      → r.status ≡ prev_status
      → channel prev_severity prev_status r false name rt ≡ none
  unfolding channel
  channel-unchanged p q = rw (owed-unchanged p q, channel)

-- A delivery of a channel carries its name and either the real pair, at a severity that meets its
-- floor, or the pair ok/ok.
pub channel-floor :
    (name : String) (rt : NotifierRuntime) (prev : TargetState) (r : Result) (due : Bool)
    (d : Delivery)
    → channel prev.severity prev.status r due name rt ≡ some d
    → (d.notifier ≡ name)
      × (((d.severity ≡ severity_ok) × (d.status ≡ status_ok))
          ⊎ ((d.severity ≡ r.severity)
              × (d.status ≡ r.status)
              × (severity_rank (notifier_floor rt.config.min_severity) ≤ severity_rank d.severity)))
channel-floor name rt prev r due d h =
    let (body, e, c) = (channel_iff name rt prev.severity prev.status r due d).0 h in
    rw e (refl, view)
  where
    view :
        let v = seen name rt prev.severity prev.status r in
        ((v.0 ≡ severity_ok) × (v.1 ≡ status_ok))
        ⊎ ((v.0 ≡ r.severity)
            × (v.1 ≡ r.status)
            × (severity_rank (notifier_floor rt.config.min_severity) ≤ severity_rank v.0))
    view = clamp_view_meets r.severity r.status (notifier_floor rt.config.min_severity)

-- The fan-out sends nothing on a reading that was confirmed already, while no reminder is due.
pub fan_out-unchanged :
    (runtimes : Assoc NotifierRuntime) (prev : TargetState) (r : Result) (names : List String)
    → r.severity ≡ prev.severity
    → r.status ≡ prev.status
    → fan_out runtimes prev r false names ≡ []
unfolding fan_out
fan_out-unchanged runtimes prev r [] p q = refl
fan_out-unchanged runtimes prev r (name ∷ rest) p q = elim (Option-cases (lookup name runtimes)) [
  | inl e ↦ rw (e, fan_out-unchanged runtimes prev r rest p q)
  | inr (rt, e) ↦ rw e (
      rw (
        channel-unchanged name rt prev.severity prev.status r p q,
        fan_out-unchanged runtimes prev r rest p q,
      ))
]

-- One round: a notifier that is not defined, or whose channel is silent, adds nothing.
abbrev round : Assoc NotifierRuntime → TargetState → Result → Bool → String → Option Delivery
round runtimes prev r due name =
    attached (lookup name runtimes) (channel prev.severity prev.status r due name)

round_named :
    (o : Option NotifierRuntime) (prev : TargetState) (r : Result) (due : Bool) (name : String)
    (d : Delivery)
    → attached o (channel prev.severity prev.status r due name) ≡ some d
    → d.notifier ≡ name
round_named none prev r due name d h = cc
round_named (some rt) prev r due name d h = (channel-floor name rt prev r due d h).0

-- The deliveries name attached notifiers, each at most as often as it is attached and in the
-- order of the list of the target.
pub fan_out-sublist :
    (runtimes : Assoc NotifierRuntime) (prev : TargetState) (r : Result) (due : Bool)
    (names : List String)
    → Sublistᴰ (woken (fan_out runtimes prev r due names)) names
unfolding fan_out
fan_out-sublist runtimes prev r due [] = Sublistᴰ.slnil
fan_out-sublist runtimes prev r due (name ∷ rest) =
    let others = fan_out-sublist runtimes prev r due rest in
    elim (Option-cases (round runtimes prev r due name)) [
      | inl e ↦ rw e (Sublistᴰ.cons others)
      | inr (d, e) ↦
          rw e (Sublistᴰ.cons-cons (round_named (lookup name runtimes) prev r due name d e) others)
    ]

mem-with_delivery :
    (o : Option Delivery) (d : Delivery) (ds : List Delivery)
    → Memᴰ d ds
    → Memᴰ d (with_delivery o ds)
mem-with_delivery none d ds m = m
mem-with_delivery (some x) d ds m = Memᴰ.tail m

-- What the channel of an attached notifier that is defined sends is among the deliveries.
pub fan_out-mem :
    (runtimes : Assoc NotifierRuntime) (prev : TargetState) (r : Result) (due : Bool)
    (names : List String) (name : String) (rt : NotifierRuntime) (d : Delivery)
    → Memᴰ name names
    → lookup name runtimes ≡ some rt
    → channel prev.severity prev.status r due name rt ≡ some d
    → Memᴰ d (fan_out runtimes prev r due names)
unfolding fan_out
fan_out-mem runtimes prev r due [] name rt d m e c = elim m [ ]
fan_out-mem runtimes prev r due (x ∷ rest) name rt d (Memᴰ.head p) e c =
    rw (← p) (rw (e, c) (Memᴰ.head refl))
fan_out-mem runtimes prev r due (x ∷ rest) name rt d (Memᴰ.tail m) e c =
    mem-with_delivery (round runtimes prev r due x) d _
      (fan_out-mem runtimes prev r due rest name rt d m e c)
