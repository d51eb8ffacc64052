-- ===== src/Examples/Monitor.antt =====
-- A scrape, a cycle and a check of one target.
use certel.Prelude.{
  ◌+◌, ◌-◌, ◌*◌, ◌≤◌, ◌≡◌, refl, arith, true, false, none, some, [], ◌∷◌, map, select, str_eq, not,
  ◌&&◌, ap, sym, List, Bool, ◌⊎◌,
}
use certel.Prelude.Int.{pos}
use certel.Prelude.Assoc.{Assoc, lookup, insert}
use certel.Clock.{Time, second, unix, sub_time}
use certel.Config.Repeat.{validate, unset, contains, check_entries, scalar_repeat, interval_for}
use certel.Config.Target.{AlertConfig, Target, TargetParams, Config, Platform}
use certel.Config.Validate.{is_none, validate_selection, validate_target}
use certel.Probe.Result.{Result}
use certel.Metrics.{Metrics, Split, new_metrics, collect_results, collect_outbox}
use certel.Metrics.Unique.{Unique, observed, observed-Unique}
use certel.Metrics.Queue.{is_pending, pending_sample, collect_outbox-pending}
use certel.Scheduler.{
  Duties, Flight, Event, acquire, answer, report, slots, take_at, step, run, cycle,
}
use certel.Scheduler.Slots.{run-slots}
use certel.Scheduler.Each.{Answers, count, cycle-each}
use certel.Scheduler.Progress.{left, own_steps, CanStep, cycle_ends}
use certel.Store.Tables.{no_faults}
use certel.Store.Orphans.{outbox_stats}
use certel.Command.Check.{CheckParams, build_check_target}
use certel.Command.Check.Same.{Policy, monitored, is_ok, build_check_target-Same}
use certel.Command.Monitor.{is_live}
use certel.Command.Live.{cycle-is_live}
use certel.Examples.Data.{store, target, hour, noon, channel_config, fine, expiring}

abbrev no_split : Split
no_split a = none

abbrev small_config : Config
small_config = record {
  listen = ":8880";
  probe = record { check_interval = hour; concurrency = pos 10; jitter = pos 0 };
  database = record { path = "certel.db"; probe_log_retention = hour; alert_log_retention = hour };
  notifiers = ("pager", channel_config "critical") ∷ [];
  target_defaults = target.params;
  targets = target ∷ [];
}

observed-Unique_example : Unique (
    collect_results no_split (
      Metrics.last
        (observed (fine ∷ expiring ∷ []) (new_metrics no_split small_config "1.0" hour))))
observed-Unique_example = observed-Unique no_split small_config "1.0" hour (fine ∷ expiring ∷ [])

collect_outbox-pending_example :
    select is_pending (collect_outbox noon (outbox_stats no_faults store) ("pager" ∷ "chat" ∷ []))
    ≡ map (pending_sample store.db.notification_outbox) ("pager" ∷ "chat" ∷ [])
collect_outbox-pending_example =
    collect_outbox-pending noon no_faults store ("pager" ∷ "chat" ∷ []) refl

abbrev answer_of : Target → Result
answer_of t = record fine { target = t }

-- A world of one clock: a check takes a second.
abbrev duties : Duties Time
duties = record {
  check = λ t w. (w + second, some (answer_of t));
  handle = λ r w. w;
  cancelled = λ w. false;
  now = λ w. w;
  outside = λ w. w;
}

duties_answer : Answers duties
duties_answer = record {
  runs = λ w. refl;
  of_target = λ t w r h. ap (λ x. elim x [ none ↦ t | some y ↦ y.target ]) (sym h);
}

abbrev is_first : Target → Bool
is_first t = str_eq t.address target.address

-- Two targets whose checks overlap, and whose results are handled in the other order.
abbrev two : List Target
two = target ∷ record target { address = "b.example.org:443" } ∷ []

abbrev overlapping : List Event
overlapping = acquire 0 ∷ acquire 0 ∷ answer 1 ∷ answer 0 ∷ report 0 ∷ report 0 ∷ []

abbrev both_done : Time
both_done = noon + second + second

cycle-each_example :
    count is_first (record target { address = "b.example.org:443" } ∷ target ∷ [])
    ≡ count is_first two
unfolding cycle run step take_at
cycle-each_example =
    cycle-each duties duties_answer 2 is_first two overlapping noon both_done
      (record target { address = "b.example.org:443" } ∷ target ∷ []) (unix both_done) both_done
      (sub_time both_done noon) refl

-- One slot, whose check has come back.
abbrev one_started : Flight Time
one_started = record {
  world = noon + second;
  waiting = record target { address = "b.example.org:443" } ∷ [];
  probing = [];
  reporting = answer_of target ∷ [];
}

cycle_ends_example :
    (2 + left one_started ≤ 3 * 2) × ((left one_started ≡ 0) ⊎ CanStep duties 1 one_started)
unfolding run step take_at own_steps
cycle_ends_example =
    cycle_ends duties 1 two (acquire 0 ∷ answer 0 ∷ []) noon one_started
      (λ t w. (w + second, answer_of t, refl)) (omega arith) refl

run-slots_example : slots one_started ≤ 1
unfolding run step take_at
run-slots_example = run-slots duties 1 (acquire 0 ∷ answer 0 ∷ []) two noon one_started refl

cycle-is_live_example :
    (noon + 10 * second - both_done + second ≤ 60 * second
      → is_live noon (noon + 10 * second) (unix both_done) (60 * second) true ≡ true)
    × (60 * second ≤ noon + 10 * second - both_done
        → is_live noon (noon + 10 * second) (unix both_done) (60 * second) true ≡ false)
unfolding cycle run step take_at
cycle-is_live_example =
    cycle-is_live duties 2 two overlapping noon both_done (unix both_done) both_done
      (sub_time both_done noon) noon (noon + 10 * second) (60 * second) true refl (omega arith)
      (omega arith)

abbrev platform : Platform
platform = record {
  splits = λ a. str_eq a "example.com:443";
  join = λ host port. "example.com:443";
  parse_url = λ u. none;
  exists = λ p. true;
}

abbrev flags : CheckParams
flags = record {
  address = "example.com";
  servername = "";
  protocol = "tls";
  ca_file = "";
  insecure = false;
  timeout = pos second;
  retries = pos 0;
  warning_days = pos 30;
  critical_days = pos 7;
}

abbrev configured : Assoc AlertConfig
configured = ("pager", channel_config "critical") ∷ []

selection_passes : (t : Target) → validate_selection configured t [] ("pager" ∷ []) ≡ none
unfolding validate_selection contains lookup
selection_passes t = refl

cadence_passes : validate (scalar_repeat hour) (pos 60) ≡ none
unfolding validate scalar_repeat check_entries interval_for insert contains lookup
cadence_passes = refl

cadence_set : unset (scalar_repeat hour) ≡ false
unfolding unset scalar_repeat
cadence_set = refl

abbrev policy : Policy configured (pos 60)
policy = record {
  names = "pager" ∷ [];
  streak = pos 2;
  cadence = scalar_repeat hour;
  named = refl;
  set = cadence_set;
  selected = selection_passes;
  positive = refl;
  paced = cadence_passes;
}

-- A configuration that gives no defaults.
abbrev no_defaults : TargetParams
no_defaults = record {
  warning_days = none;
  critical_days = none;
  timeout = none;
  connect_retries = none;
  notifiers = [];
  alert_repeat_interval = record { per_severity = none; is_map = false };
  flap_streak = none;
}

build_check_target-Same_example : is_ok (build_check_target platform flags) ≡ (
    not (str_eq flags.protocol "")
    && is_none (
        validate_target platform configured
          (pos 60)
          (monitored configured (pos 60) platform no_defaults flags policy)))
build_check_target-Same_example =
    build_check_target-Same configured (pos 60) platform no_defaults flags policy
      (λ host port. refl)
