-- ===== src/Config/Defaults.antt =====
-- The defaults of targets in `applyDefaults` of internal/config/config.go.
use certel.Prelude.{
  String, false, Option, none, some, List, [], ◌∷◌, map, not, ◌&&◌, str_eq, All, ◌*◌, ◌≡◌, ◌≢◌,
  if◌then◌else◌, Bool-cases, inl, inr,
}
use certel.Prelude.Int.{pos}
use certel.Prelude.Assoc.{lookup}
use certel.Clock.{Duration, second}
use certel.Config.Repeat.{RepeatInterval, scalar_repeat, unset, scalar_repeat-set}
use certel.Config.Target.{TargetParams, Target, Platform, default_ports, proto_tls}

-- A pointer that is nil takes the default.
abbrev pub or_default {ℓ} : {A : Type ℓ} → Option A → Option A → Option A
or_default none d = d
or_default (some a) d = some a

abbrev pub one_day : Duration
one_day = pos (24 * 3600 * second)

abbrev pub or_interval : RepeatInterval → RepeatInterval → RepeatInterval
or_interval r d = if unset r then d else r

abbrev pub or_notifiers : List String → List String → List String
or_notifiers [] d = d
or_notifiers (n ∷ rest) d = n ∷ rest

unfoldable pub default_params : TargetParams → TargetParams
default_params p = record p {
  warning_days = or_default p.warning_days (some (pos 30));
  critical_days = or_default p.critical_days (some (pos 7));
  timeout = or_default p.timeout (some (pos (10 * second)));
  connect_retries = or_default p.connect_retries (some (pos 2));
  flap_streak = or_default p.flap_streak (some (pos 2));
  alert_repeat_interval = or_interval p.alert_repeat_interval (scalar_repeat one_day);
}

unfoldable pub inherit : TargetParams → TargetParams → TargetParams
inherit p d = record {
  warning_days = or_default p.warning_days d.warning_days;
  critical_days = or_default p.critical_days d.critical_days;
  timeout = or_default p.timeout d.timeout;
  connect_retries = or_default p.connect_retries d.connect_retries;
  notifiers = or_notifiers p.notifiers d.notifiers;
  alert_repeat_interval = or_interval p.alert_repeat_interval d.alert_repeat_interval;
  flap_streak = or_default p.flap_streak d.flap_streak;
}

-- A protocol without a default port leaves the address alone.
abbrev pub with_port : Platform → String → Option String → String
with_port os address none = address
with_port os address (some port) = os.join address port

unfoldable pub default_address : Platform → String → String → String
default_address os protocol address =
    if not (os.splits address) && not (str_eq address "")
    then with_port os address (lookup protocol default_ports)
    else address

-- One round of the loop over the targets.
unfoldable pub default_target : Platform → TargetParams → Target → Target
default_target os d t =
    let protocol = if str_eq t.protocol "" then proto_tls else t.protocol in
    record t {
      protocol = protocol;
      address = default_address os protocol t.address;
      params = inherit t.params d;
    }

unfoldable pub default_targets : Platform → TargetParams → List Target → List Target
default_targets os d targets = map (default_target os (default_params d)) targets

-- No pointer of the parameters is nil, and the interval is set.
pub record IsFilled (p : TargetParams) : Type 0 where
  pub warning_days : p.warning_days ≢ none
  pub critical_days : p.critical_days ≢ none
  pub timeout : p.timeout ≢ none
  pub connect_retries : p.connect_retries ≢ none
  pub flap_streak : p.flap_streak ≢ none
  pub alert_repeat_interval : unset p.alert_repeat_interval ≡ false

or_default_set {ℓ} : {A : Type ℓ} (o d : Option A) → d ≢ none → or_default o d ≢ none
or_default_set none d h = h
or_default_set (some b) d h = λ e. cc

or_interval_set : (r d : RepeatInterval) → unset d ≡ false → unset (or_interval r d) ≡ false
or_interval_set r d h = elim (Bool-cases (unset r)) [ inl e ↦ rw e h | inr e ↦ rw e e ]

default_params-IsFilled : (p : TargetParams) → IsFilled (default_params p)
unfolding default_params
default_params-IsFilled p = record {
  warning_days = or_default_set p.warning_days _ (λ e. cc);
  critical_days = or_default_set p.critical_days _ (λ e. cc);
  timeout = or_default_set p.timeout _ (λ e. cc);
  connect_retries = or_default_set p.connect_retries _ (λ e. cc);
  flap_streak = or_default_set p.flap_streak _ (λ e. cc);
  alert_repeat_interval = or_interval_set p.alert_repeat_interval _ (scalar_repeat-set one_day);
}

inherit-IsFilled : (p d : TargetParams) → IsFilled d → IsFilled (inherit p d)
unfolding inherit
inherit-IsFilled p d h = record {
  warning_days = or_default_set p.warning_days _ h.warning_days;
  critical_days = or_default_set p.critical_days _ h.critical_days;
  timeout = or_default_set p.timeout _ h.timeout;
  connect_retries = or_default_set p.connect_retries _ h.connect_retries;
  flap_streak = or_default_set p.flap_streak _ h.flap_streak;
  alert_repeat_interval = or_interval_set p.alert_repeat_interval _ h.alert_repeat_interval;
}

-- After the defaults every target has each parameter that a later step reads through a pointer,
-- and a cadence.
pub default_targets-IsFilled :
    (os : Platform) (d : TargetParams) (targets : List Target)
    → All (λ t. IsFilled t.params) (default_targets os d targets)
unfolding default_targets default_target
default_targets-IsFilled os d [] = tt
default_targets-IsFilled os d (t ∷ rest) = (
  inherit-IsFilled t.params (default_params d) (default_params-IsFilled d),
  default_targets-IsFilled os d rest,
)
