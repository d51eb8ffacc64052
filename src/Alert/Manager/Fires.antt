-- ===== src/Alert/Manager/Fires.antt =====
-- What must be sent: a new or changed problem that is trusted reaches every attached channel whose
-- floor it meets, and the queue.
use mathlib.Core.List.{Memᴰ}
use certel.Prelude.{
  String, Bool, true, false, some, List, [], ◌∷◌, ◌++◌, ◌≡◌, ◌≢◌, ◌≤◌, arith, ap, ◌∙◌, ◌⊎◌, map,
}
use certel.Prelude.Assoc.{lookup}
use certel.Clock.{Time}
use certel.Config.Target.{key}
use certel.Probe.Result.{Result, Severity, Status, severity_ok}
use certel.Alert.Types.{TargetState, NotifierRuntime, AlertEvent, Delivery, Bytes}
use certel.Alert.Channel.{problem, severity_rank, clamp_view, notifier_floor, channel}
use certel.Alert.Channel.Ladder.{notice_iff, clamp_view_meets}
use certel.Alert.Debounce.{trusted}
use certel.Alert.Debounce.Streak.{Differs}
use certel.Alert.Manager.{Manager, Decision, observation, decide, commit, process, record_of}
use certel.Alert.Manager.FanOut.{fan_out-mem, channel-problem, owed, floor, seen, seen_before}
use certel.Alert.Manager.Interface.{StoreOps, StoreView, StoreLaws, as_queued, Queued}
use certel.Alert.Manager.Saved.{IsReliable}
use certel.Alert.Manager.Steps.{verdict, event, process-trusted}

-- The channel's floor lets the severity through.
abbrev pub Meets : NotifierRuntime → Severity → Type 0
Meets rt sev = severity_rank (notifier_floor rt.config.min_severity) ≤ severity_rank sev

clamp_view-meets :
    (sev : Severity) (status : Status) (floor : Severity)
    → severity_rank floor ≤ severity_rank sev
    → clamp_view sev status floor ≡ (sev, status)
unfolding clamp_view
clamp_view-meets sev status floor h = ground arith

owed-problem :
    (name : String) (rt : NotifierRuntime) (st : TargetState) (r : Result) (due : Bool)
    → r.severity ≢ severity_ok
    → Differs st (observation r)
    → Meets rt r.severity
    → owed name rt st.severity st.status r due ≡ problem
owed-problem name rt st r due bad d meets =
    rw (clamp_view-meets r.severity r.status (notifier_floor rt.config.min_severity) meets) (
      (notice_iff (seen_before name rt st.severity st.status r) (r.severity, r.status) due _).0.1
        (bad, fresh))
  where
    fresh :
        let prev = seen_before name rt st.severity st.status r in
        (prev.0 ≡ severity_ok) ⊎ (r.status ≢ prev.1) ⊎ (r.severity ≢ prev.0) ⊎ (due ≡ true)
    fresh =
        ground
          (arith, clamp_view_meets st.severity st.status (notifier_floor rt.config.min_severity))

mem-queued :
    (k : String) (d : Delivery) (old : List Queued) (ds : List Delivery)
    → Memᴰ d ds
    → Memᴰ (as_queued k d) (old ++ map (as_queued k) ds)
mem-queued k d [] [] m = elim m [ ]
mem-queued k d [] (x ∷ ds) (Memᴰ.head e) = Memᴰ.head (ap (as_queued k) e)
mem-queued k d [] (x ∷ ds) (Memᴰ.tail m) = Memᴰ.tail (mem-queued k d [] ds m)
mem-queued k d (y ∷ old) ds m = Memᴰ.tail (mem-queued k d old ds m)

commit-mem :
    {S : Type 0} (ops : StoreOps S) (view : StoreView S) (laws : StoreLaws ops view)
    (ok : IsReliable ops) (ev : AlertEvent) (dec : Decision) (ds : List Delivery) (m : Manager)
    (s : S) (d : Delivery)
    → Memᴰ d ds
    → Memᴰ (as_queued ev.target_key d) (view.queued (commit (some ops) ev dec ds m s).store)
unfolding commit
commit-mem ops view laws ok ev dec [] m s d h = elim h [ ]
commit-mem ops view laws ok ev dec (x ∷ ds) m s d h =
    rw
      (
        laws.queued-enqueue (record_of dec.state) ev (x ∷ ds) s,
        ok.enqueues (record_of dec.state) ev (x ∷ ds) s,
      )
      (mem-queued ev.target_key d (view.queued s) (x ∷ ds) h)

ne_nil_of_mem : (a : String) (xs : List String) → Memᴰ a xs → xs ≢ []
ne_nil_of_mem a [] h = elim h [ ]
ne_nil_of_mem a (x ∷ xs) h = λ e. cc

-- Above the floor a channel sends the real pair.
channel-real :
    (name : String) (rt : NotifierRuntime) (st : TargetState) (r : Result) (due : Bool)
    (body : Bytes)
    → r.severity ≢ severity_ok
    → Differs st (observation r)
    → Meets rt r.severity
    → rt.render r false ≡ some body
    → channel st.severity st.status r due name rt
      ≡ some (record { notifier = name; status = r.status; severity = r.severity; body = body })
channel-real name rt st r due body bad d meets renders =
    channel-problem name rt st.severity st.status r due body
      (owed-problem name rt st r due bad d meets)
      (ap (λ v. rt.render (as_seen v) false) real ∙ renders)
    ∙ ap (λ v. some (delivered v)) real
  where
    as_seen : Severity × Status → Result
    as_seen v = record r { severity = v.0; status = v.1 }

    delivered : Severity × Status → Delivery
    delivered v = record { notifier = name; status = v.1; severity = v.0; body = body }

    real : seen name rt st.severity st.status r ≡ (r.severity, r.status)
    real = clamp_view-meets r.severity r.status (notifier_floor rt.config.min_severity) meets

module _ {S : Type 0} (ops : StoreOps S) (view : StoreView S) (laws : StoreLaws ops view)
    (now : Time) (r : Result) (m : Manager) (s : S) (name : String) (rt : NotifierRuntime)
    (body : Bytes) where
  -- On a store that keeps its laws, a trusted reading of a problem that differs from the
  -- confirmed pair is queued in the same cycle, whatever the repeat interval, for every attached
  -- notifier that is defined, whose floor it meets and whose body renders, when no write fails.
  pub process-fires :
      (st : TargetState)
      → IsReliable ops
      → verdict (some ops) now r m s ≡ trusted st
      → r.severity ≢ severity_ok
      → Differs st (observation r)
      → Memᴰ name r.target.notifiers
      → lookup name m.notifiers ≡ some rt
      → Meets rt r.severity
      → rt.render r false ≡ some body
      → Memᴰ
          (record { target_key = key r.target; notifier = name; body = body })
          (view.queued (process (some ops) now r m s).store)
  process-fires st ok v bad d attached defined meets renders =
      rw (process-trusted (some ops) now r m s st (ne_nil_of_mem name _ attached) v) (
        commit-mem ops view laws ok (event (some ops) now r m s) (decide now r st) _ _ s _ (
          fan_out-mem m.notifiers st r _ r.target.notifiers name rt _ attached defined
            (channel-real name rt st r _ body bad d meets renders)))
