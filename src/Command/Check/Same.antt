-- ===== src/Command/Check/Same.antt =====
-- The check command accepts a target exactly where the monitor does: cmd/certel/check.go against
-- Validate and applyDefaults of internal/config/config.go.
use certel.Prelude.{
  String, Bool, true, false, Option, none, some, List, [], ◌∷◌, ◌≡◌, refl, arith, not, ◌&&◌, str_eq,
  if◌then◌else◌, Bool-cases, inl, inr, eq_iff,
}
use certel.Prelude.Int.{ℤ, pos, leb_ℤ, ltb_ℤ}
use certel.Prelude.Assoc.{Assoc, lookup}
use certel.Clock.{Duration}
use certel.Token.{Fallible, error, ok}
use certel.Config.Repeat.{RepeatInterval, validate, unset}
use certel.Config.Defaults.{
  default_address, with_port, default_target, default_params, inherit, or_notifiers,
}
use certel.Config.Target.{AlertConfig, Target, TargetParams, Platform, default_ports}
use certel.Config.Validate.{
  ConfigError, or_else, refuse, missing_file, is_empty, is_none, validate_selection,
  validate_target,
}
use certel.Command.Check.{
  CheckParams, UsageError, bad_timeout, negative_retries, bad_thresholds, bad_ca_file, flag_target,
  check_knobs, with_default_port, build_check_target,
}

-- How a target is alerted on, where that part passes `Validate`.
pub record Policy (notifiers : Assoc AlertConfig) (check_interval : Duration) : Type 0 where
  pub names : List String
  pub streak : ℤ
  pub cadence : RepeatInterval
  pub named : is_empty names ≡ false
  pub selected : (t : Target) → validate_selection notifiers t [] names ≡ none
  pub set : unset cadence ≡ false
  pub positive : ltb_ℤ streak (pos 1) ≡ false
  pub paced : validate cadence check_interval ≡ none

-- The target of the flags at an address, with that policy.
abbrev pub alerted_at :
    (notifiers : Assoc AlertConfig) (ci : Duration)
    → CheckParams
    → Policy notifiers ci
    → String
    → Target
alerted_at notifiers ci p policy address =
    let t = flag_target p address in
    record t {
      params = record t.params {
        notifiers = policy.names;
        flap_streak = some policy.streak;
        alert_repeat_interval = policy.cadence;
      };
    }

-- The target that a configuration holds for the same flags, with the defaults of its targets
-- applied.
abbrev pub monitored :
    (notifiers : Assoc AlertConfig) (ci : Duration)
    → Platform
    → TargetParams
    → CheckParams
    → Policy notifiers ci
    → Target
monitored notifiers ci os defaults p policy =
    default_target os (default_params defaults) (alerted_at notifiers ci p policy p.address)

or_notifiers-set : (ns d : List String) → is_empty ns ≡ false → or_notifiers ns d ≡ ns
or_notifiers-set [] d h = cc
or_notifiers-set (n ∷ ns) d h = refl

-- A protocol that is set is kept, and so are the knobs, which the flags all set.
monitored-alerted :
    (notifiers : Assoc AlertConfig) (ci : Duration) (os : Platform) (defaults : TargetParams)
    (p : CheckParams) (policy : Policy notifiers ci)
    → str_eq p.protocol "" ≡ false
    → monitored notifiers ci os defaults p policy
      ≡ alerted_at notifiers ci p policy (default_address os p.protocol p.address)
unfolding default_target inherit
monitored-alerted notifiers ci os defaults p policy h =
    rw
      (
        h,
        or_notifiers-set policy.names (default_params defaults).notifiers policy.named,
        policy.set,
      )
      refl

abbrev pub is_ok : Fallible UsageError Target → Bool
is_ok (error e) = false
is_ok (ok t) = true

-- The tests of both, in the order of each: `a` the address is empty, `s` it splits, `j` it splits
-- with the default port, and one for each knob.
abbrev knobs : Bool → Bool → Bool → Bool → Bool
knobs timeout retries days file = not timeout && not retries && not days && not file

check_knobs-is_ok :
    (os : Platform) (p : CheckParams) (address : String)
    → is_ok (check_knobs os p address)
      ≡ knobs
          (leb_ℤ p.timeout (pos 0))
          (ltb_ℤ p.retries (pos 0))
          (ltb_ℤ p.warning_days p.critical_days)
          (missing_file os p.ca_file)
check_knobs-is_ok os p address =
    pick (leb_ℤ p.timeout (pos 0)) (ltb_ℤ p.retries (pos 0)) (ltb_ℤ p.warning_days p.critical_days)
      (missing_file os p.ca_file)
  where
    pick :
        (a b c d : Bool)
        → is_ok (
            if a
            then error bad_timeout
            else (if b
                then error negative_retries
                else (if c
                    then error bad_thresholds
                    else (if d then error bad_ca_file else ok (flag_target p address)))))
          ≡ knobs a b c d
    pick true b c d = refl
    pick false true c d = refl
    pick false false true d = refl
    pick false false false true = refl
    pick false false false false = refl

chain-is_none :
    (a u s f d t r : Bool) (e₁ e₂ e₃ e₄ e₅ e₆ e₇ : ConfigError)
    → is_none (
        or_else (refuse a e₁) (
          or_else (refuse u e₂) (
            or_else (refuse s e₃) (
              or_else
                (refuse f e₄)
                (or_else (refuse d e₅) (or_else (refuse t e₆) (or_else (refuse r e₇) none)))))))
      ≡ (not a && not u && not s && knobs t r d f)
chain-is_none a u s f d t r e₁ e₂ e₃ e₄ e₅ e₆ e₇ = ground arith

-- What `Validate` tests of the target, once its policy is valid.
validate_target-tests :
    (notifiers : Assoc AlertConfig) (ci : Duration) (os : Platform) (p : CheckParams)
    (policy : Policy notifiers ci) (address : String)
    → is_none (validate_target os notifiers ci (alerted_at notifiers ci p policy address)) ≡ (
        not (str_eq address "")
        && not (is_none (lookup p.protocol default_ports))
        && not (not (os.splits address))
        && knobs
            (leb_ℤ p.timeout (pos 0))
            (ltb_ℤ p.retries (pos 0))
            (ltb_ℤ p.warning_days p.critical_days)
            (missing_file os p.ca_file))
unfolding validate_target
validate_target-tests notifiers ci os p policy address =
    rw
      (
        policy.named,
        policy.positive,
        policy.selected (alerted_at notifiers ci p policy address),
        policy.paced,
      )
      (chain-is_none (str_eq address "") (is_none (lookup p.protocol default_ports))
        (not (os.splits address)) (missing_file os p.ca_file) (ltb_ℤ p.warning_days p.critical_days)
        (leb_ℤ p.timeout (pos 0)) (ltb_ℤ p.retries (pos 0)) _ _ _ _ _ _ _)

abbrev tests : Platform → CheckParams → Bool
tests os p =
    knobs (leb_ℤ p.timeout (pos 0)) (ltb_ℤ p.retries (pos 0)) (ltb_ℤ p.warning_days p.critical_days)
      (missing_file os p.ca_file)

build-tests :
    (os : Platform) (p : CheckParams)
    → ((host port : String) → str_eq (os.join host port) "" ≡ false)
    → (o : Option String) (e : Bool) → str_eq p.address "" ≡ e
    → (s : Bool) → os.splits p.address ≡ s
    → is_ok (with_default_port os p o) ≡ (
        not (str_eq (if not s && not e then with_port os p.address o else p.address) "")
        && not (is_none o)
        && not (not (os.splits (if not s && not e then with_port os p.address o else p.address)))
        && tests os p)
build-tests os p joins none e h s k = ground arith
build-tests os p joins (some port) true h true k = rw h
build-tests os p joins (some port) true h false k = rw h
build-tests os p joins (some port) false h true k = rw (h, k) (check_knobs-is_ok os p p.address)
build-tests os p joins (some port) false h false k =
    let there = joins p.address port in
    elim (Bool-cases (os.splits (os.join p.address port))) [
      | inl e ↦ rw (h, k, there, e) (check_knobs-is_ok os p (os.join p.address port))
      | inr e ↦ rw (h, k, there, e)
    ]

build-validate :
    (notifiers : Assoc AlertConfig) (ci : Duration) (os : Platform) (p : CheckParams)
    (policy : Policy notifiers ci)
    → ((host port : String) → str_eq (os.join host port) "" ≡ false)
    → is_ok (build_check_target os p)
      ≡ is_none (
          validate_target os notifiers ci
            (alerted_at notifiers ci p policy (default_address os p.protocol p.address)))
unfolding build_check_target default_address
build-validate notifiers ci os p policy joins =
    rw (validate_target-tests notifiers ci os p policy (default_address os p.protocol p.address)) (
      build-tests os p joins (lookup p.protocol default_ports) (str_eq p.address "") refl
        (os.splits p.address) refl)

no_protocol :
    (os : Platform) (p : CheckParams) → p.protocol ≡ "" → is_ok (build_check_target os p) ≡ false
unfolding build_check_target lookup
no_protocol os p h = rw h refl

-- The check command accepts the flags of a target exactly where their protocol is not empty and
-- Validate accepts the target that a configuration holds for them with its defaults, whatever the
-- defaults that it gives and its valid policy of alerts are; a joined host and port is not empty.
pub build_check_target-Same :
    (notifiers : Assoc AlertConfig) (ci : Duration) (os : Platform) (defaults : TargetParams)
    (p : CheckParams) (policy : Policy notifiers ci)
    → ((host port : String) → str_eq (os.join host port) "" ≡ false)
    → is_ok (build_check_target os p) ≡ (
        not (str_eq p.protocol "")
        && is_none (validate_target os notifiers ci (monitored notifiers ci os defaults p policy)))
build_check_target-Same notifiers ci os defaults p policy joins =
    elim (Bool-cases (str_eq p.protocol "")) [
      | inl e ↦ rw e (no_protocol os p ((eq_iff p.protocol "").0 e))
      | inr e ↦
          rw (e, monitored-alerted notifiers ci os defaults p policy e)
            (build-validate notifiers ci os p policy joins)
    ]
