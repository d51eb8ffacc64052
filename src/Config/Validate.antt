-- ===== src/Config/Validate.antt =====
-- `Validate` of internal/config/config.go. Of an error its kind and its names are kept.
pub mod Targets
use certel.Prelude.{
  String, Bool, true, false, Option, none, some, List, [], ◌∷◌, not, ◌&&◌, ◌||◌, str_eq,
  if◌then◌else◌,
}
use certel.Prelude.Int.{ℤ, pos, pos_part, neg_part, leb_ℤ, ltb_ℤ}
use certel.Prelude.Assoc.{Assoc, lookup}
use certel.Clock.{Duration}
use certel.Config.Repeat.{RepeatError, contains, is_repeat_severity, validate}
use certel.Config.Target.{AlertConfig, TargetParams, Target, Config, Platform, default_ports, key}

pub data ConfigError : Type 0 where
  no_targets : ConfigError
  no_notifiers : ConfigError
  notifier_without_name : ConfigError
  bad_notifier : String → String → ConfigError
  bad_setting : String → ConfigError
  bad_target : Target → String → ConfigError
  bad_cadence : Target → RepeatError → ConfigError
  duplicate_target : Target → ConfigError
  -- A pointer that is nil where it is read: the source panics.
  nil_pointer : ConfigError

-- The first of two errors.
abbrev pub or_else : Option ConfigError → Option ConfigError → Option ConfigError
or_else none later = later
or_else (some e) later = some e

abbrev pub refuse : Bool → ConfigError → Option ConfigError
refuse b e = if b then some e else none

abbrev pub valid_methods : List String
valid_methods = "GET" ∷ "POST" ∷ "PUT" ∷ "PATCH" ∷ "DELETE" ∷ []

abbrev pub is_empty {ℓ} : {A : Type ℓ} → List A → Bool
is_empty [] = true
is_empty (x ∷ xs) = false

abbrev pub is_none {ℓ} : {A : Type ℓ} → Option A → Bool
is_none none = true
is_none (some a) = false

abbrev pub is_http : Option (String × String) → Bool
is_http none = false
is_http (some (scheme, host)) =
    (str_eq scheme "http" || str_eq scheme "https") && not (str_eq host "")

abbrev pub is_negative : Option ℤ → Bool
is_negative none = false
is_negative (some n) = ltb_ℤ n (pos 0)

abbrev pub missing_file : Platform → String → Bool
missing_file os path = not (str_eq path "") && not (os.exists path)

-- One round of the loop over the notifiers.
unfoldable pub validate_notifier : Platform → String → AlertConfig → Option ConfigError
validate_notifier os name n = or_else (refuse (str_eq name "") notifier_without_name) (
    or_else (refuse (str_eq n.url "") (bad_notifier name "url")) (
      or_else (refuse (not (is_http (os.parse_url n.url))) (bad_notifier name "url")) (
        or_else (refuse (is_empty n.body_keys) (bad_notifier name "body")) (
          or_else (refuse (not (contains n.method valid_methods)) (bad_notifier name "method")) (
            or_else (refuse (leb_ℤ n.timeout (pos 0)) (bad_notifier name "timeout")) (
              or_else
                (refuse (not (is_repeat_severity n.min_severity))
                  (bad_notifier name "min_severity"))
                (or_else (refuse (is_negative n.retries) (bad_notifier name "retries"))
                  (refuse (missing_file os n.ca_file) (bad_notifier name "ca_file")))))))))

unfoldable pub validate_notifiers : Platform → Assoc AlertConfig → Option ConfigError
unfolding validate_notifier
validate_notifiers os [] = none
validate_notifiers os ((name, n) ∷ rest) =
    or_else (validate_notifier os name n) (validate_notifiers os rest)

unfoldable pub validate_settings : Config → Option ConfigError
validate_settings c =
    or_else (refuse (leb_ℤ c.probe.check_interval (pos 0)) (bad_setting "check_interval")) (
      or_else (refuse (ltb_ℤ c.probe.jitter (pos 0)) (bad_setting "jitter")) (
        or_else
          (refuse (leb_ℤ c.database.probe_log_retention (pos 0))
            (bad_setting "probe_log_retention"))
          (refuse (leb_ℤ c.database.alert_log_retention (pos 0))
            (bad_setting "alert_log_retention"))))

abbrev pub deref {ℓ} : {A : Type ℓ} → Option A → (A → Option ConfigError) → Option ConfigError
deref none check = some nil_pointer
deref (some a) check = check a

-- The loop over the notifiers of a target, from those already seen.
unfoldable pub validate_selection :
    Assoc AlertConfig → Target → (seen names : List String) → Option ConfigError
validate_selection notifiers t seen [] = none
validate_selection notifiers t seen (name ∷ rest) =
    or_else
      (refuse (str_eq name "" || contains name seen || is_none (lookup name notifiers))
        (bad_target t "notifiers"))
      (validate_selection notifiers t (name ∷ seen) rest)

abbrev pub cadence_error : Target → Option RepeatError → Option ConfigError
cadence_error t none = none
cadence_error t (some e) = some (bad_cadence t e)

-- One round of the loop over the targets, up to the test on duplicates.
unfoldable pub validate_target :
    Platform → Assoc AlertConfig → Duration → Target → Option ConfigError
validate_target os notifiers check_interval t =
    or_else (refuse (str_eq t.address "") (bad_target t "address")) (
      or_else (refuse (is_none (lookup t.protocol default_ports)) (bad_target t "protocol")) (
        or_else (refuse (not (os.splits t.address)) (bad_target t "address")) (
          or_else (refuse (missing_file os t.ca_file) (bad_target t "ca_file")) (
            or_else
              (deref t.critical_days (λ critical.
                deref t.warning_days
                  (λ warning. refuse (ltb_ℤ warning critical) (bad_target t "critical_days"))))
              (or_else (deref t.timeout (λ d. refuse (leb_ℤ d (pos 0)) (bad_target t "timeout"))) (
                or_else
                  (deref t.connect_retries
                    (λ n. refuse (ltb_ℤ n (pos 0)) (bad_target t "connect_retries")))
                  (or_else
                    (deref t.flap_streak
                      (λ n. refuse (ltb_ℤ n (pos 1)) (bad_target t "flap_streak")))
                    (or_else (refuse (is_empty t.notifiers) (bad_target t "notifiers")) (
                      or_else (validate_selection notifiers t [] t.notifiers)
                        (cadence_error t (validate t.alert_repeat_interval check_interval)))))))))))

unfoldable pub validate_targets :
    Platform
    → Assoc AlertConfig
    → Duration
    → (seen : List String) → List Target
    → Option ConfigError
validate_targets os notifiers check_interval seen [] = none
validate_targets os notifiers check_interval seen (t ∷ rest) =
    or_else (validate_target os notifiers check_interval t) (
      or_else (refuse (contains (key t) seen) (duplicate_target t))
        (validate_targets os notifiers check_interval (key t ∷ seen) rest))

-- `Validate`: the first error, if there is one.
unfoldable pub validate_config : Platform → Config → Option ConfigError
validate_config os c = or_else (refuse (is_empty c.targets) no_targets) (
    or_else (refuse (is_empty c.notifiers) no_notifiers) (
      or_else (validate_notifiers os c.notifiers) (
        or_else (validate_settings c)
          (validate_targets os c.notifiers c.probe.check_interval [] c.targets))))
