-- ===== src/Examples/Data.antt =====
-- The target, the notifiers and the stores of the examples.
use certel.Prelude.{
  ℕ, suc, ◌+◌, ◌*◌, ◌<◌, ◌≤◌, max, String, true, false, none, some, List, [], ◌∷◌, All, arith,
  if◌then◌else◌,
}
use certel.Prelude.Int.{pos}
use certel.Prelude.Assoc.{Assoc}
use certel.Clock.{Time, Duration, unix_epoch, second, zero_time}
use certel.Config.Repeat.{scalar_repeat}
use certel.Config.Target.{Target, AlertConfig}
use certel.Probe.Result.{
  Status, Severity, Result, status_ok, severity_ok, status_unreachable, severity_critical,
}
use certel.Alert.Types.{NotifierRuntime, AlertEvent, Delivery}
use certel.Alert.Channel.{severity_rank}
use certel.Alert.Manager.{Manager, new_manager}
use certel.Store.Tables.{Store, Engine, Faults, empty_database}

unfoldable pub largest : List ℕ → ℕ
largest [] = 0
largest (i ∷ ids) = max i (largest ids)

pub above_largest : (bound : ℕ) (ids : List ℕ) → largest ids ≤ bound → All (λ i. i < suc bound) ids
unfolding largest
above_largest bound [] h = tt
above_largest bound (i ∷ ids) h = (omega (arith, h), above_largest bound ids (omega (arith, h)))

abbrev pub engine : Engine
unfolding largest
engine = record {
  new_id = λ ids. suc (largest ids);
  new_id_above = λ ids. above_largest (largest ids) ids (omega arith);
}

abbrev pub hour : Duration
hour = pos (3600 * 1000000000)

abbrev pub noon : Time
noon = (unix_epoch + 1764158400) * second

abbrev pub one_past : Time
one_past = noon + 60 * second

abbrev pub target : Target
target = record {
  address = "example.org:443";
  servername = "example.org";
  protocol = "tls";
  ca_file = "";
  insecure = false;
  params = record {
    warning_days = some (pos 30);
    critical_days = some (pos 7);
    timeout = some (pos 10000000000);
    connect_retries = some (pos 1);
    notifiers = "pager" ∷ "chat" ∷ [];
    alert_repeat_interval = scalar_repeat hour;
    flap_streak = some (pos 3);
  };
}

abbrev pub reading : Status → Severity → Result
reading status severity = record {
  target = target;
  status = status;
  severity = severity;
  message = "";
  checked_at = noon;
  duration = pos 1000000;
  attempts = 1;
  cert = none;
  verify_ok = true;
  verified_not_after = zero_time;
  days_left = pos 5;
}

abbrev pub unreachable : Result
unreachable = reading status_unreachable severity_critical

abbrev pub expiring : Result
expiring = reading "expiring_soon" severity_critical

abbrev pub fine : Result
fine = reading status_ok severity_ok

abbrev pub channel_config : String → AlertConfig
channel_config floor = record {
  url = "https://hooks.example.org/alert";
  method = "POST";
  body_keys = "text" ∷ [];
  timeout = hour;
  retries = some (pos 2);
  send_recovery = none;
  min_severity = floor;
  ca_file = "";
  concurrency = pos 1;
}

abbrev pub pager : NotifierRuntime
pager = record {
  config = channel_config "critical";
  render = λ r recovered. some (if recovered then 0 ∷ [] else severity_rank r.severity ∷ []);
}

abbrev pub chat : NotifierRuntime
chat = record {
  config = channel_config "";
  render = λ r recovered. some (if recovered then 1 ∷ [] else 2 ∷ []);
}

abbrev pub notifiers : Assoc NotifierRuntime
notifiers = ("pager", pager) ∷ ("chat", chat) ∷ []

abbrev pub manager : Manager
manager = new_manager notifiers

abbrev pub store : Store
store = record { db = empty_database; write_errors = 0 }

abbrev pub event : AlertEvent
event = record {
  target_key = "tls//example.org:443/example.org";
  address = "example.org:443";
  at = noon;
}

abbrev pub delivery : Delivery
delivery = record {
  notifier = "pager";
  status = "expiring_soon";
  severity = "critical";
  body = 2 ∷ [];
}

-- Every statement fails.
abbrev pub broken : Faults
broken i = true
