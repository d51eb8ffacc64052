-- ===== src/Examples/Loading.antt =====
-- A configuration with one target and two notifiers.
use certel.Prelude.{◌≡◌, refl, true, some, [], ◌∷◌, All}
use certel.Prelude.Int.{pos}
use certel.Prelude.Assoc.{Assoc, lookup, insert}
use certel.Config.Repeat.{
  is_repeat_severity, contains, scalar_repeat, interval_for, validate, check_entries,
}
use certel.Config.Target.{Config, Platform, AlertConfig}
use certel.Config.Validate.{
  validate_config, validate_notifiers, validate_notifier, validate_settings, validate_targets,
  validate_target, validate_selection,
}
use certel.Config.Validate.Targets.{validate_config-IsSound, IsSound, Unique}
use certel.Examples.Data.{target, hour, channel_config}

abbrev platform : Platform
platform = record {
  splits = λ a. true;
  join = λ host port. host;
  parse_url = λ u. some ("https", "hooks.example.org");
  exists = λ p. true;
}

abbrev configured : Assoc AlertConfig
configured = ("pager", channel_config "critical") ∷ ("chat", channel_config "warning") ∷ []

abbrev config : Config
config = record {
  listen = ":8880";
  probe = record { check_interval = pos 60; concurrency = pos 10; jitter = pos 0 };
  database = record { path = "certel.db"; probe_log_retention = hour; alert_log_retention = hour };
  notifiers = configured;
  target_defaults = target.params;
  targets = target ∷ [];
}

validate_config-IsSound_example :
    All (IsSound configured (pos 60)) (target ∷ [])
    × Unique (target ∷ [])
    × All (λ e. is_repeat_severity e.1.min_severity ≡ true) configured
unfolding validate_config validate_notifiers validate_notifier validate_settings validate_targets
    validate_target validate_selection is_repeat_severity contains lookup scalar_repeat interval_for
    insert validate check_entries
validate_config-IsSound_example = validate_config-IsSound platform config refl
