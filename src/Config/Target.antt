-- ===== src/Config/Target.antt =====
-- Targets and notifiers of internal/config/config.go: the fields that probing and alerting read.
use Prim.Native.String.{◌++◌}
use certel.Prelude.{String, Bool, true, Option, none, some, List, [], ◌∷◌}
use certel.Prelude.Assoc.{Assoc}
use certel.Prelude.Int.{ℤ}
use certel.Clock.{Duration}
use certel.Config.Repeat.{RepeatInterval}

-- A field that `target_defaults` may fill is `none` while it is unset.
pub record TargetParams : Type 0 where
  pub warning_days : Option ℤ
  pub critical_days : Option ℤ
  pub timeout : Option Duration
  pub connect_retries : Option ℤ
  pub notifiers : List String
  pub alert_repeat_interval : RepeatInterval
  pub flap_streak : Option ℤ

pub record Target : Type 0 where
  pub address : String
  pub servername : String
  pub protocol : String
  pub ca_file : String
  pub insecure : Bool
  pub params : TargetParams
  pub open params use *

unfoldable pub key : Target → String
key t = t.protocol ++ "//" ++ t.address ++ "/" ++ t.servername

-- One notifier. Of its bodies only the keys are kept; the headers and the trust settings of its
-- client are not.
pub record AlertConfig : Type 0 where
  pub url : String
  pub method : String
  pub body_keys : List String
  pub timeout : Duration
  pub retries : Option ℤ
  pub send_recovery : Option Bool
  pub min_severity : String
  pub ca_file : String
  pub concurrency : ℤ

unfoldable pub send_recovery_enabled : AlertConfig → Bool
send_recovery_enabled a = elim a.send_recovery [ none ↦ true | some b ↦ b ]

abbrev pub proto_tls : String
proto_tls = "tls"

abbrev pub default_ports : Assoc String
default_ports =
    (proto_tls, "443")
    ∷ ("smtp", "587")
    ∷ ("imap", "143")
    ∷ ("pop3", "110")
    ∷ ("ftp", "21")
    ∷ ("postgres", "5432")
    ∷ []

pub record ProbeConfig : Type 0 where
  pub check_interval : Duration
  pub concurrency : ℤ
  pub jitter : Duration

pub record DatabaseConfig : Type 0 where
  pub path : String
  pub probe_log_retention : Duration
  pub alert_log_retention : Duration

pub record Config : Type 0 where
  pub listen : String
  pub probe : ProbeConfig
  pub database : DatabaseConfig
  pub notifiers : Assoc AlertConfig
  pub target_defaults : TargetParams
  pub targets : List Target

-- The calls of the standard library: `net.SplitHostPort` succeeds, `net.JoinHostPort`, the scheme and
-- the host of `url.Parse`, and `os.Stat` succeeds.
pub record Platform : Type 0 where
  pub splits : String → Bool
  pub join : String → String → String
  pub parse_url : String → Option (String × String)
  pub exists : String → Bool
