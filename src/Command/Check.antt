-- ===== src/Command/Check.antt =====
-- The check command: cmd/certel/check.go. Flags come as a record, and the JSON encoder is left out.
pub mod Same
use certel.Prelude.{
  ℕ, zero, suc, ◌/◌, ◌+◌, String, Bool, true, false, Option, none, some, List, [], ◌∷◌, not, str_eq,
  if◌then◌else◌,
}
use certel.Prelude.Int.{ℤ, pos, negsuc, leb_ℤ, ltb_ℤ}
use certel.Prelude.Assoc.{lookup}
use certel.Clock.{Time, Duration, is_zero}
use certel.Token.{Fallible, error, ok}
use certel.Config.Target.{Target, TargetParams, Platform, default_ports}
use certel.Config.Validate.{missing_file}
use certel.Probe.Result.{
  Result, CertInfo, Status, Severity, severity_ok, severity_warning, effective_not_after,
}

pub record CheckParams : Type 0 where
  pub address : String
  pub servername : String
  pub protocol : String
  pub ca_file : String
  pub insecure : Bool
  pub timeout : Duration
  pub retries : ℤ
  pub warning_days : ℤ
  pub critical_days : ℤ

pub data UsageError : Type 0 where
  unknown_protocol no_address invalid_address bad_timeout : UsageError
  negative_retries bad_thresholds bad_ca_file : UsageError

-- The target of the flags, at an address.
abbrev pub flag_target : CheckParams → String → Target
flag_target p address = record {
  address = address;
  servername = p.servername;
  protocol = p.protocol;
  ca_file = p.ca_file;
  insecure = p.insecure;
  params = record {
    warning_days = some p.warning_days;
    critical_days = some p.critical_days;
    timeout = some p.timeout;
    connect_retries = some p.retries;
    notifiers = [];
    alert_repeat_interval = record { per_severity = none; is_map = false };
    flap_streak = none;
  };
}

abbrev pub check_knobs : Platform → CheckParams → String → Fallible UsageError Target
check_knobs os p address =
    if leb_ℤ p.timeout (pos 0)
    then error bad_timeout
    else (if ltb_ℤ p.retries (pos 0)
        then error negative_retries
        else (if ltb_ℤ p.warning_days p.critical_days
            then error bad_thresholds
            else (if missing_file os p.ca_file
                then error bad_ca_file
                else ok (flag_target p address))))

abbrev pub with_default_port : Platform → CheckParams → Option String → Fallible UsageError Target
with_default_port os p none = error unknown_protocol
with_default_port os p (some port) =
    if str_eq p.address ""
    then error no_address
    else (if os.splits p.address
        then check_knobs os p p.address
        else (if os.splits (os.join p.address port)
            then check_knobs os p (os.join p.address port)
            else error invalid_address))

unfoldable pub build_check_target : Platform → CheckParams → Fallible UsageError Target
build_check_target os p = with_default_port os p (lookup p.protocol default_ports)

unfoldable pub check_exit_code : Severity → ℕ
check_exit_code s = if str_eq s severity_ok then 0 else (if str_eq s severity_warning then 1 else 2)

pub record CheckCert : Type 0 where
  pub subject : String
  pub cn : String
  pub issuer : String
  pub sans : List String
  pub serial : String
  pub not_before : Time
  pub not_after : Time
  pub earliest_not_after : Time
  pub earliest_subject : String

pub record CheckOutput : Type 0 where
  pub address : String
  pub protocol : String
  pub servername : String
  pub status : Status
  pub severity : Severity
  pub message : String
  pub checked_at : Time
  pub duration_ms : ℤ
  pub attempts : ℕ
  pub verify_ok : Bool
  pub days_left : ℤ
  pub not_after : Option Time
  pub cert : Option CheckCert

-- Duration.Milliseconds: the quotient by a million, towards 0.
abbrev negated : ℕ → ℤ
negated zero = pos 0
negated (suc k) = negsuc k

abbrev pub whole_milliseconds : Duration → ℤ
whole_milliseconds (pos n) = pos (n / 1000000)
whole_milliseconds (negsuc n) = negated ((n + 1) / 1000000)

abbrev check_cert : CertInfo → CheckCert
check_cert c = record {
  subject = c.subject;
  cn = c.cn;
  issuer = c.issuer;
  sans = c.sans;
  serial = c.serial;
  not_before = c.not_before;
  not_after = c.not_after;
  earliest_not_after = c.earliest_not_after;
  earliest_subject = c.earliest_subject;
}

abbrev optional_cert : Option CertInfo → Option CheckCert
optional_cert none = none
optional_cert (some c) = some (check_cert c)

abbrev host_or_address : String → Option (String × String) → String
host_or_address address none = address
host_or_address address (some (host, port)) = host

-- `EffectiveServername` of internal/config/config.go, with net.SplitHostPort as a parameter.
unfoldable pub effective_servername : (String → Option (String × String)) → Target → String
effective_servername split t =
    if not (str_eq t.servername "")
    then t.servername
    else host_or_address t.address (split t.address)

unfoldable pub to_check_output : (String → Option (String × String)) → Result → CheckOutput
unfolding effective_servername
to_check_output split r =
    let na = effective_not_after r in
    record {
      address = r.target.address;
      protocol = r.target.protocol;
      servername = effective_servername split r.target;
      status = r.status;
      severity = r.severity;
      message = r.message;
      checked_at = r.checked_at;
      duration_ms = whole_milliseconds r.duration;
      attempts = r.attempts;
      verify_ok = r.verify_ok;
      days_left = r.days_left;
      not_after = if not (is_zero na) then some na else none;
      cert = optional_cert r.cert;
    }

-- `runCheck` behind its flags: the exit code and what is printed. `none` from the checker is a panic.
module _ {W : Type 0} (os : Platform) (split : String → Option (String × String))
    (checker : Target → W → W × Option Result) where
  abbrev reported : W × Option Result → W × Option (ℕ × Option CheckOutput)
  reported (w, none) = (w, none)
  reported (w, some r) = (w, some (check_exit_code r.severity, some (to_check_output split r)))

  abbrev run_built : W → Fallible UsageError Target → W × Option (ℕ × Option CheckOutput)
  run_built w (error e) = (w, some (2, none))
  run_built w (ok t) = reported (checker t w)

  unfoldable pub run_check : CheckParams → W → W × Option (ℕ × Option CheckOutput)
  unfolding build_check_target check_exit_code to_check_output
  run_check p w = run_built w (build_check_target os p)
