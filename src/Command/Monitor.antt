-- ===== src/Command/Monitor.antt =====
-- The monitor command: cmd/certel/monitor.go. Flags, the HTTP server, signals and log lines are left
-- out; its goroutines are those of the scheduler and of the dispatchers.
use certel.Prelude.{
  ℕ, suc, ◌+◌, ◌-◌, ◌*◌, ◌/◌, String, Bool, true, false, Option, none, some, List, [], ◌∷◌, ◌&&◌,
  ltb, max, length, str_eq, ◌==◌, if◌then◌else◌,
}
use certel.Prelude.Int.{ℤ, pos_part}
use certel.Prelude.Assoc.{Assoc, lookup}
use certel.Clock.{Time, is_zero, second}
use certel.Token.{Fallible, error, ok}
use certel.Config.Tree.{Fields}
use certel.Config.Target.{AlertConfig, Target, Config, key}
use certel.Probe.Result.{Result}
use certel.Alert.Types.{Bytes, NotifierRuntime, StateRecord}
use certel.Alert.Manager.{Manager, new_manager, process}
use certel.Alert.Manager.Restore.{restore}
use certel.Alert.Template.Times.{TemplateError}
use certel.Alert.Template.Payload.{Formats}
use certel.Alert.Template.Render.{Body, parse_body, notifier_runtime}
use certel.Metrics.{Metrics, observe}
use certel.Scheduler.{last_cycle}
use certel.Store.Tables.{Store, Engine, Faults}
use certel.Store.State.{load_alert_states, prune_alert_states}
use certel.Store.Logs.{record_probe}
use certel.Store.Manager.{store_ops}
use certel.Store.Orphans.{drop_orphaned_outbox}

-- A notifier of the configuration with its two bodies.
pub record NotifierConfig : Type 0 where
  pub settings : AlertConfig
  pub body : Fields
  pub recovery_body : Fields

abbrev pub with_runtime :
    Formats Bytes
    → String
    → AlertConfig
    → Fallible TemplateError Body
    → Fallible (String × TemplateError) (Assoc NotifierRuntime)
    → Fallible (String × TemplateError) (Assoc NotifierRuntime)
with_runtime lib name cfg (error e) rest = error (name, e)
with_runtime lib name cfg (ok b) (error e) = error e
with_runtime lib name cfg (ok b) (ok runtimes) = ok ((name, notifier_runtime lib cfg b) ∷ runtimes)

unfoldable pub build_runtimes :
    Formats Bytes → Assoc NotifierConfig → Fallible (String × TemplateError) (Assoc NotifierRuntime)
unfolding parse_body notifier_runtime
build_runtimes lib [] = ok []
build_runtimes lib ((name, n) ∷ rest) =
    with_runtime lib name n.settings (parse_body lib n.body n.recovery_body)
      (build_runtimes lib rest)

-- `livenessThreshold`, of a configuration that passed `Validate`, so that retries and timeouts are set
-- and not negative; in nanoseconds, without the overflow of an int64.
abbrev pub set_part : Option ℤ → ℕ
set_part none = 0
set_part (some n) = pos_part n

unfoldable pub max_attempts : List Target → ℕ
max_attempts [] = 0
max_attempts (t ∷ rest) = max (suc (set_part t.connect_retries)) (max_attempts rest)

unfoldable pub max_timeout : List Target → ℕ
max_timeout [] = 0
max_timeout (t ∷ rest) = max (set_part t.timeout) (max_timeout rest)

-- One timeout for each attempt and a second between two attempts.
abbrev pub per_target : ℕ → ℕ → ℕ
per_target attempts timeout = attempts * timeout + (attempts - 1) * second

unfoldable pub waves : (targets concurrency : ℕ) → ℕ
waves n c = if c == 0 then 0 else (n + c - 1) / c

unfoldable pub liveness_threshold : Config → ℕ
unfolding max_attempts max_timeout waves
liveness_threshold c =
    pos_part c.probe.check_interval
    + pos_part c.probe.jitter
    + waves (length c.targets) (pos_part c.probe.concurrency)
      * per_target (max_attempts c.targets) (max_timeout c.targets)
    + 30 * second

-- The state of `/healthz`: whether it answers 200.
abbrev since : Time → Time → ℕ
since now t = now - t

unfoldable pub is_live : (started_at now : Time) (stored liveness : ℕ) (database : Bool) → Bool
unfolding last_cycle
is_live started_at now stored liveness database =
    let last = last_cycle stored in
    ltb (since now (if is_zero last then started_at else last)) liveness && database

-- What the handler of results works on.
pub record Running : Type 0 where
  pub metrics : Metrics
  pub manager : Manager
  pub store : Store

-- The handler that the scheduler is given: the metrics, the probe log, the decision. `log` and
-- `decision` are the statements that fail in the two calls of the store.
unfoldable pub handle_result :
    Engine → (log decision : Faults) → Time → Result → Running → Running × List String
unfolding observe
handle_result e log decision now r run =
    let recorded = record_probe e log r run.store in
    let out = process (some (store_ops e decision)) now r run.manager recorded.0 in
    (
      record { metrics = observe r run.metrics; manager = out.manager; store = out.store },
      out.notified,
    )

abbrev pub is_configured : List Target → String → Bool
is_configured [] k = false
is_configured (t ∷ rest) k = if str_eq (key t) k then true else is_configured rest k

unfoldable pub keep_valid : (String → Bool) → Assoc StateRecord → Assoc StateRecord
keep_valid valid [] = []
keep_valid valid ((k, st) ∷ rest) =
    let more = keep_valid valid rest in if valid k then (k, st) ∷ more else more

abbrev pub has_notifier : Assoc NotifierRuntime → String → Bool
has_notifier runtimes name = elim (lookup name runtimes) [ none ↦ false | some rt ↦ true ]

-- The start of the monitor, from its store to a manager; `none` is an exit. `load`, `prune`, `drop`
-- and `read` are the statements that fail in each call.
abbrev pub started :
    Engine
    → (prune drop read : Faults) → List Target
    → Assoc NotifierRuntime
    → Store
    → Option (Assoc StateRecord)
    → Option (Manager × Store)
started e prune drop read targets runtimes s none = none
started e prune drop read targets runtimes s (some rows) =
    let valid = is_configured targets in
    let pruned = prune_alert_states prune valid s in
    let dropped = drop_orphaned_outbox drop (has_notifier runtimes) pruned.0 in
    some (
      restore (some (store_ops e read)) dropped.0 (keep_valid valid rows) targets
          (new_manager runtimes),
      dropped.0,
    )

unfoldable pub start_monitor :
    Engine
    → (load prune drop read : Faults) → List Target
    → Assoc NotifierRuntime
    → Store
    → Option (Manager × Store)
unfolding keep_valid
start_monitor e load prune drop read targets runtimes s =
    started e prune drop read targets runtimes s (load_alert_states load s)
