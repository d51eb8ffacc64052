-- ===== src/Examples/Config.antt =====
-- Cadences and floors at concrete values.
use certel.Prelude.{◌≡◌, ◌↔◌, true, none, All}
use certel.Prelude.Int.{pos}
use certel.Config.Repeat.{scalar_repeat, interval_for, validate, repeat_severities, entries}
use certel.Config.Repeat.Laws.{validate_iff, IsCadence, KnownKeys}
use certel.Alert.Channel.{clamp_view}
use certel.Alert.Channel.Ladder.{clamp_view-NoLevel}
use certel.Examples.Data.{hour}

validate_iff_example : (validate (scalar_repeat hour) (pos 60) ≡ none) ↔ (
    All (λ s. IsCadence (pos 60) (interval_for (scalar_repeat hour) s)) repeat_severities
    × ((scalar_repeat hour).is_map ≡ true → KnownKeys (entries (scalar_repeat hour).per_severity)))
validate_iff_example = validate_iff (scalar_repeat hour) (pos 60)

clamp_view-NoLevel_example :
    clamp_view "warning" "expiring_soon" "crit" ≡ ("warning", "expiring_soon")
clamp_view-NoLevel_example =
    clamp_view-NoLevel "warning" "expiring_soon" "crit" (λ e. cc, λ e. cc, λ e. cc)
