-- ===== src/Metrics.antt =====
-- internal/metrics/metrics.go: what the monitor publishes. A sample is a metric with the values of
-- its labels; a float is kept as the count or the duration that it is made from.
pub mod Unique
pub mod Queue
use certel.Prelude.{
  ℕ, suc, String, Bool, true, false, Option, none, some, List, [], ◌∷◌, ◌++◌, not, ◌||◌, str_eq,
  if◌then◌else◌,
}
use certel.Prelude.Int.{ℤ, pos, leb_ℤ}
use certel.Prelude.Assoc.{Assoc, lookup, insert}
use certel.Clock.{Time, Duration, zero_time, is_zero, unix, sub_time}
use certel.Config.Target.{AlertConfig, Target, Config, key}
use certel.Probe.Result.{
  Result, CertInfo, Severity, status_ok, status_expiring_soon, severity_warning, severity_critical,
  severity_emergency, effective_not_after,
}
use certel.Store.Orphans.{OutboxStat}

pub data MetricValue : Type 0 where
  number : ℕ → MetricValue
  seconds : Duration → MetricValue

pub record Sample : Type 0 where
  pub metric : String
  pub labels : List String
  pub value : MetricValue

-- The cycle gauges; `none` before the first cycle is over.
pub record CycleCollector : Type 0 where
  pub staleness : Duration
  pub completed : Option (Time × Duration)

pub record Metrics : Type 0 where
  pub last : Assoc Result
  pub target_info : List Sample
  pub build_info : Sample
  pub successes : Assoc ℕ
  pub failures : Assoc ℕ
  pub store_errors : ℕ
  pub cycle : CycleCollector

-- `hostOf`, with net.SplitHostPort as a parameter.
abbrev pub Split : Type 0
Split = String → Option (String × String)

abbrev host_of : Split → String → String
host_of split address = elim (split address) [ none ↦ address | some p ↦ p.0 ]

abbrev pub target_labels : Split → Target → List String
target_labels split t = host_of split t.address ∷ t.address ∷ t.protocol ∷ t.servername ∷ []

abbrev format_bool : Bool → String
format_bool b = if b then "true" else "false"

unfoldable pub info_of : Split → Target → Sample
info_of split t = record {
  metric = "certel_target_info";
  labels = target_labels split t ++ (format_bool t.insecure ∷ []);
  value = number 1;
}

unfoldable pub infos : Split → List Target → List Sample
unfolding info_of
infos split [] = []
infos split (t ∷ rest) = info_of split t ∷ infos split rest

unfoldable pub zeros : Assoc AlertConfig → Assoc ℕ
zeros [] = []
zeros ((name, n) ∷ rest) = (name, 0) ∷ zeros rest

unfoldable pub new_metrics : Split → Config → String → Duration → Metrics
unfolding infos zeros
new_metrics split c version staleness = record {
  last = [];
  target_info = infos split c.targets;
  build_info = record { metric = "certel_build_info"; labels = version ∷ []; value = number 1 };
  successes = zeros c.notifiers;
  failures = zeros c.notifiers;
  store_errors = 0;
  cycle = record { staleness = staleness; completed = none };
}

unfoldable pub observe : Result → Metrics → Metrics
observe r m = record m { last = insert (key r.target) r m.last }

abbrev count_of : Option ℕ → ℕ
count_of none = 0
count_of (some n) = n

abbrev bump : String → Assoc ℕ → Assoc ℕ
bump name counts = insert name (suc (count_of (lookup name counts))) counts

-- `failed` says that the send had an error.
unfoldable pub observe_alert : String → (failed : Bool) → Metrics → Metrics
observe_alert name true m = record m { failures = bump name m.failures }
observe_alert name false m = record m { successes = bump name m.successes }

unfoldable pub observe_cycle : Time → Duration → Metrics → Metrics
observe_cycle at d m = record m { cycle = record m.cycle { completed = some (at, d) } }

unfoldable pub observe_store_write_error : Metrics → Metrics
observe_store_write_error m = record m { store_errors = suc m.store_errors }

unfoldable pub severity_value : Severity → ℕ
severity_value s =
    if str_eq s severity_warning
    then 1
    else (if str_eq s severity_critical then 2 else (if str_eq s severity_emergency then 3 else 0))

unfoldable pub success_value : Result → ℕ
success_value r = if str_eq r.status status_ok || str_eq r.status status_expiring_soon then 1 else 0

abbrev pub sample : String → List String → MetricValue → Sample
sample name labels v = record { metric = name; labels = labels; value = v }

-- A timestamp that was not observed is left out.
abbrev pub unless_zero : Time → (Time → Sample) → List Sample
unless_zero t f = if is_zero t then [] else f t ∷ []

abbrev pub leaf_sample : Split → Target → Option CertInfo → List Sample
leaf_sample split t none = []
leaf_sample split t (some c) =
    sample "ssl_cert_not_after" (target_labels split t ++ (c.cn ∷ [])) (number (unix c.not_after))
    ∷ []

abbrev pub expiry_sample : List String → Time → Sample
expiry_sample lv t = sample "certel_cert_expiry_timestamp_seconds" lv (number (unix t))

abbrev pub verified_sample : List String → Time → Sample
verified_sample lv t = sample "ssl_verified_cert_not_after" lv (number (unix t))

-- The samples of one result.
unfoldable pub collect_result : Split → Result → List Sample
unfolding severity_value success_value
collect_result split r =
    let lv = target_labels split r.target in
    sample "ssl_probe_success" lv (number (success_value r))
    ∷ sample "certel_probe_severity" lv (number (severity_value r.severity))
    ∷ sample "certel_probe_duration_seconds" lv (seconds r.duration)
    ∷ (unless_zero (effective_not_after r) (expiry_sample lv)
        ++ (unless_zero r.verified_not_after (verified_sample lv)
            ++ leaf_sample split r.target r.cert))

unfoldable pub collect_results : Split → Assoc Result → List Sample
unfolding collect_result
collect_results split [] = []
collect_results split ((k, r) ∷ rest) = collect_result split r ++ collect_results split rest

unfoldable pub collect_cycle : CycleCollector → List Sample
collect_cycle c =
    sample "certel_probe_cycle_staleness_threshold_seconds" [] (seconds c.staleness)
    ∷ elim c.completed [
      | none ↦ []
      | some (at, d) ↦
          sample "certel_probe_cycle_completed_timestamp_seconds" [] (number (unix at))
          ∷ sample "certel_probe_cycle_duration_seconds" [] (seconds d)
          ∷ []
    ]

-- The row of a notifier: a map of a slice keeps the last row of a key.
unfoldable pub stat_of : String → List OutboxStat → Option OutboxStat
stat_of n [] = none
stat_of n (st ∷ rest) = elim (stat_of n rest) [
  | some later ↦ some later
  | none ↦ if str_eq st.notifier n then some st else none
]

abbrev pub pending_of : Option OutboxStat → ℕ
pending_of none = 0
pending_of (some st) = st.pending

abbrev pub age_of : Time → Option OutboxStat → Duration
age_of now none = pos 0
age_of now (some st) =
    let s = sub_time now st.oldest_enqueued_at in
    if is_zero st.oldest_enqueued_at || leb_ℤ s (pos 0) then pos 0 else s

-- `none` is a query that failed: nothing is published.
unfoldable pub outbox_pairs : Time → List OutboxStat → List String → List Sample
unfolding stat_of
outbox_pairs now stats [] = []
outbox_pairs now stats (n ∷ rest) =
    sample "certel_notification_outbox_pending" (n ∷ []) (number (pending_of (stat_of n stats)))
    ∷ sample "certel_notification_outbox_oldest_age_seconds" (n ∷ [])
        (seconds (age_of now (stat_of n stats)))
    ∷ outbox_pairs now stats rest

unfoldable pub collect_outbox : Time → Option (List OutboxStat) → List String → List Sample
unfolding outbox_pairs
collect_outbox now none notifiers = []
collect_outbox now (some stats) notifiers = outbox_pairs now stats notifiers
