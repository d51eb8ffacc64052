-- ===== src/Config/Validate/Targets.antt =====
-- What a configuration that passes `Validate` of internal/config/config.go promises to the decision.
use certel.Prelude.{
  String, true, false, Option, none, some, List, [], ◌∷◌, ◌≡◌, ◌≢◌, refl, arith, All, All-map,
  eq_iff,
}
use certel.Prelude.Int.{ℤ, pos, ◌≤ℤ◌, ltb_ℤ}
use certel.Prelude.Assoc.{Assoc, lookup}
use certel.Clock.{Duration}
use certel.Config.Repeat.{contains, is_repeat_severity, repeat_severities, interval_for}
use certel.Config.Repeat.Laws.{validate_iff, IsCadence}
use certel.Config.Target.{AlertConfig, Target, Config, Platform, key}
use certel.Config.Validate.{
  ConfigError, bad_target, refuse, deref, validate_notifier, validate_notifiers, validate_selection,
  validate_target, validate_targets, validate_config,
}

-- A target that the decision can work on.
pub record IsSound (notifiers : Assoc AlertConfig) (check_interval : Duration) (t : Target)
    : Type 0 where
  pub attached : t.notifiers ≢ []
  pub resolves : All (λ name. lookup name notifiers ≢ none) t.notifiers
  pub streak : (n : ℤ) × (t.flap_streak ≡ some n) × (pos 1 ≤ℤ n)
  pub cadence :
      All (λ s. IsCadence check_interval (interval_for t.alert_repeat_interval s)) repeat_severities

-- No two targets share a key.
abbrev pub Unique : List Target → Type 0
Unique [] = Unit
Unique (t ∷ rest) = All (λ u. key u ≢ key t) rest × Unique rest

selection-resolves :
    (notifiers : Assoc AlertConfig) (t : Target) (seen names : List String)
    → validate_selection notifiers t seen names ≡ none
    → All (λ name. lookup name notifiers ≢ none) names
unfolding validate_selection
selection-resolves notifiers t seen [] h = tt
selection-resolves notifiers t seen (name ∷ rest) h = (
  λ e. ground (arith, h, e),
  selection-resolves notifiers t (name ∷ seen) rest (ground (arith, h)),
)

streak-set :
    (o : Option ℤ) (e : ConfigError)
    → deref o (λ n. refuse (ltb_ℤ n (pos 1)) e) ≡ none
    → (n : ℤ) × (o ≡ some n) × (pos 1 ≤ℤ n)
streak-set none e h = cc
streak-set (some n) e h = (n, refl, ground (arith, h))

validate_target-IsSound :
    (os : Platform) (notifiers : Assoc AlertConfig) (ci : Duration) (t : Target)
    → validate_target os notifiers ci t ≡ none
    → IsSound notifiers ci t
unfolding validate_target
validate_target-IsSound os notifiers ci t h = record {
  attached = λ e. ground (arith, h, e);
  resolves = selection-resolves notifiers t [] t.notifiers (ground (arith, h));
  streak = streak-set t.flap_streak (bad_target t "flap_streak") (ground (arith, h));
  cadence = ((validate_iff t.alert_repeat_interval ci).0 (ground (arith, h))).0;
}

-- A key that is not among those seen differs from each of them.
fresh-tail :
    (k j : String) (seen : List String)
    → contains k (j ∷ seen) ≡ false
    → (k ≢ j) × (contains k seen ≡ false)
unfolding contains
fresh-tail k j seen h = (λ e. ground (arith, h, eq_iff j k, e), ground (arith, h))

-- The targets are sound, and none has a key that was seen before.
validate_targets-none :
    (os : Platform) (notifiers : Assoc AlertConfig) (ci : Duration) (seen : List String)
    (targets : List Target)
    → validate_targets os notifiers ci seen targets ≡ none
    → All (IsSound notifiers ci) targets
      × Unique targets
      × All (λ u. contains (key u) seen ≡ false) targets
unfolding validate_targets
validate_targets-none os notifiers ci seen [] h = (tt, tt, tt)
validate_targets-none os notifiers ci seen (t ∷ rest) h =
    let (sound, unique, fresh) =
      validate_targets-none os notifiers ci (key t ∷ seen) rest (ground (arith, h)) in
    (
      (validate_target-IsSound os notifiers ci t (ground (arith, h)), sound),
      (All-map _ _ (λ u f. (fresh-tail (key u) (key t) seen f).0) rest fresh, unique),
      (ground (arith, h), All-map _ _ (λ u f. (fresh-tail (key u) (key t) seen f).1) rest fresh),
    )

-- A notifier's floor names an alerting severity.
validate_notifiers-floor :
    (os : Platform) (notifiers : Assoc AlertConfig)
    → validate_notifiers os notifiers ≡ none
    → All (λ e. is_repeat_severity e.1.min_severity ≡ true) notifiers
unfolding validate_notifiers validate_notifier
validate_notifiers-floor os [] h = tt
validate_notifiers-floor os ((name, n) ∷ rest) h =
    (ground (arith, h), validate_notifiers-floor os rest (ground (arith, h)))

-- A configuration that passes has targets that the decision can work on, each with a key of its
-- own: a target has notifiers, each of them is defined, its streak is at least 1 and its cadences
-- are positive and at least the probe interval; and every floor names an alerting severity.
pub validate_config-IsSound :
    (os : Platform) (c : Config)
    → validate_config os c ≡ none
    → All (IsSound c.notifiers c.probe.check_interval) c.targets
      × Unique c.targets
      × All (λ e. is_repeat_severity e.1.min_severity ≡ true) c.notifiers
unfolding validate_config
validate_config-IsSound os c h =
    let (sound, unique, _) =
      validate_targets-none os c.notifiers c.probe.check_interval [] c.targets
        (ground (arith, h)) in
    (sound, unique, validate_notifiers-floor os c.notifiers (ground (arith, h)))
