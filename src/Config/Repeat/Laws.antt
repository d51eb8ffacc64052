-- ===== src/Config/Repeat/Laws.antt =====
-- What a validated cadence promises to the alert decision, which reads it by `interval_for`.
use certel.Prelude.{
  String, ◌≡◌, refl, Bool-cases, inl, inr, true, none, List, [], ◌∷◌, ◌<◌, ◌↔◌, arith, All,
}
use certel.Prelude.Int.{pos_part, ◌≤ℤ◌}
use certel.Prelude.Assoc.{lookup, lookup-insert}
use certel.Clock.{Duration}
use certel.Config.Repeat.{
  contains, place, sort, RepeatInterval, repeat_severities, interval_for, scalar_repeat,
  check_entries, check_keys, unknown_keys, missing_keys, is_repeat_severity, entries, validate,
}

-- A cadence that can fire: positive, and no tighter than the probe loop.
pub record IsCadence (check_interval d : Duration) : Type 0 where
  pub positive : 0 < pos_part d
  pub reachable : check_interval ≤ℤ d

-- One entry passes exactly when it is a cadence.
check_entries_iff :
    (r : RepeatInterval) (ci : Duration) (severities : List String)
    → (check_entries r ci severities ≡ none) ↔ All (λ s. IsCadence ci (interval_for r s)) severities
unfolding check_entries
check_entries_iff r ci [] = (λ h. tt, λ h. refl)
check_entries_iff r ci (s ∷ rest) =
    let (only_if, if_all) = check_entries_iff r ci rest in
    (λ h. ground (arith, only_if), λ h. ground (arith, if_all))

-- Every key of the map names an alerting severity.
abbrev pub KnownKeys : List (String × Duration) → Type 0
KnownKeys = All (λ e. is_repeat_severity e.0 ≡ true)

unknown_keys_iff : (m : List (String × Duration)) → (unknown_keys m ≡ []) ↔ KnownKeys m
unfolding unknown_keys
unknown_keys_iff [] = (λ h. tt, λ h. refl)
unknown_keys_iff ((k, d) ∷ m) =
    let (only_if, if_all) = unknown_keys_iff m in
    (λ h. ground (arith, only_if), λ h. ground (arith, if_all))

-- A severity with no entry reads as 0, which is no cadence: so cadences leave none missing.
missing_keys-cadence :
    (r : RepeatInterval) (ci : Duration) (severities : List String)
    → All (λ s. IsCadence ci (interval_for r s)) severities
    → missing_keys severities (entries r.per_severity) ≡ []
unfolding missing_keys interval_for
missing_keys-cadence r ci [] h = refl
missing_keys-cadence r ci (s ∷ rest) h = ground (arith, missing_keys-cadence r ci rest h.1)

check_keys-none : (m : List (String × Duration)) → check_keys m ≡ none → unknown_keys m ≡ []
unfolding check_keys
check_keys-none m h = ground arith

check_keys_passes :
    (m : List (String × Duration))
    → unknown_keys m ≡ []
    → missing_keys repeat_severities m ≡ []
    → check_keys m ≡ none
unfolding check_keys
check_keys_passes m h k = rw (h, check_keys) (rw k refl)

-- An alert_repeat_interval passes validation exactly when the cadence of each alerting severity
-- is positive and at least the probe interval and, in the map form, no key but an alerting
-- severity is written.
pub validate_iff :
    (r : RepeatInterval) (ci : Duration)
    → (validate r ci ≡ none) ↔ (
        All (λ s. IsCadence ci (interval_for r s)) repeat_severities
        × (r.is_map ≡ true → KnownKeys (entries r.per_severity)))
unfolding validate
validate_iff r ci = (
  λ h. (
    (check_entries_iff r ci repeat_severities).0 (ground arith),
    λ m. (unknown_keys_iff _).0 (check_keys-none _ (ground arith)),
  ),
  λ h.
      let passes = (check_entries_iff r ci repeat_severities).1 h.0 in
      elim (Bool-cases r.is_map) [
        | inl m ↦
            simp
              (
                m,
                check_keys_passes _ ((unknown_keys_iff _).1 (h.1 m))
                    (missing_keys-cadence r ci repeat_severities h.0),
              )
              passes
        | inr m ↦ simp m passes
      ],
)

-- The scalar form of alert_repeat_interval gives every alerting severity the one cadence that was
-- written.
pub interval_for-scalar_repeat :
    (d : Duration) (s : String) → is_repeat_severity s ≡ true → interval_for (scalar_repeat d) s ≡ d
unfolding interval_for scalar_repeat is_repeat_severity
interval_for-scalar_repeat d s h = simp lookup-insert (unfold lookup in ground arith)

contains-place : (k s : String) (xs : List String) → contains k (place s xs) ≡ contains k (s ∷ xs)
unfolding contains place
contains-place k s [] = refl
contains-place k s (t ∷ rest) = ground (arith, contains-place k s rest)

-- Sorting keeps the members.
pub contains-sort : (k : String) (xs : List String) → contains k (sort xs) ≡ contains k xs
unfolding contains sort
contains-sort k [] = refl
contains-sort k (s ∷ rest) = ground (arith, contains-place k s (sort rest), contains-sort k rest)
