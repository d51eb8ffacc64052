-- ===== src/Config/Repeat.antt =====
-- The repeat cadence of internal/config/config.go: `RepeatInterval`, its lookup and its validation.
pub mod Laws
use Prim.Native.Nat.{Ordering}
use Prim.Native.String.{compare}
use certel.Prelude.{
  ◌≡◌, refl, String, Bool, true, false, Option, none, some, List, [], ◌∷◌, ◌||◌, not, ◌+◌, str_eq,
  ltb, if◌then◌else◌,
}
use certel.Prelude.Int.{ℤ, pos, pos_part, neg_part, leb_ℤ, ltb_ℤ}
use certel.Prelude.Assoc.{Assoc, lookup, insert}
use certel.Clock.{Duration, max_int64}

abbrev pub repeat_severities : List String
repeat_severities = "warning" ∷ "critical" ∷ "emergency" ∷ []

-- `none` is the nil map, which reads as empty.
pub record RepeatInterval : Type 0 where
  pub per_severity : Option (Assoc Duration)
  pub is_map : Bool

-- "never": the longest duration.
abbrev pub repeat_never : Duration
repeat_never = pos max_int64

fill : List String → Duration → Assoc Duration → Assoc Duration
fill [] d m = m
fill (s ∷ rest) d m = fill rest d (insert s d m)

unfoldable pub scalar_repeat : Duration → RepeatInterval
unfolding fill
scalar_repeat d = record { per_severity = some (fill repeat_severities d []); is_map = false }

unfoldable pub unset : RepeatInterval → Bool
unset r = elim r.per_severity [ none ↦ true | some m ↦ false ]

pub scalar_repeat-set : (d : Duration) → unset (scalar_repeat d) ≡ false
unfolding unset scalar_repeat
scalar_repeat-set d = refl

abbrev pub entries : Option (Assoc Duration) → Assoc Duration
entries none = []
entries (some m) = m

abbrev pub duration_or_zero : Option Duration → Duration
duration_or_zero none = pos 0
duration_or_zero (some d) = d

-- `For` of the source; a missing key reads as 0.
unfoldable pub interval_for : RepeatInterval → String → Duration
interval_for r severity = duration_or_zero (lookup severity (entries r.per_severity))

unfoldable pub contains : String → List String → Bool
contains s [] = false
contains s (v ∷ rest) = str_eq v s || contains s rest

unfoldable pub is_repeat_severity : String → Bool
unfolding contains
is_repeat_severity s = contains s repeat_severities

-- What `validate` reports; the messages are not modelled, their parts are.
pub data RepeatError : Type 0 where
  unknown_severities : List String → RepeatError
  missing_severities : List String → RepeatError
  not_positive : String → RepeatError
  shorter_than_interval : String → RepeatError

-- sort.Strings.
unfoldable place : String → List String → List String
place s [] = s ∷ []
place s (t ∷ rest) = elim (compare s t) [ Ordering.gt ↦ t ∷ place s rest | _ ↦ s ∷ t ∷ rest ]

unfoldable pub sort : List String → List String
unfolding place
sort [] = []
sort (s ∷ rest) = place s (sort rest)

unfoldable pub unknown_keys : Assoc Duration → List String
unfolding is_repeat_severity
unknown_keys [] = []
unknown_keys ((k, d) ∷ m) =
    let rest = unknown_keys m in if is_repeat_severity k then rest else k ∷ rest

unfoldable pub missing_keys : List String → Assoc Duration → List String
missing_keys [] m = []
missing_keys (s ∷ rest) m = elim (lookup s m) [
  | none ↦ s ∷ missing_keys rest m
  | some d ↦ missing_keys rest m
]

-- The second half of `validate`: each severity's entry in turn.
unfoldable pub check_entries : RepeatInterval → Duration → List String → Option RepeatError
check_entries r check_interval [] = none
check_entries r check_interval (s ∷ rest) =
    let others = check_entries r check_interval rest in
    let d = interval_for r s in
    if leb_ℤ d (pos 0)
    then some (not_positive s)
    else if ltb_ℤ d check_interval
    then some (shorter_than_interval s)
    else others

-- The first half, which only the map form goes through.
unfoldable pub check_keys : Assoc Duration → Option RepeatError
unfolding sort
check_keys m = elim (unknown_keys m) [
  | [] ↦ elim (missing_keys repeat_severities m) [
    | [] ↦ none
    | s ∷ rest ↦ some (missing_severities (s ∷ rest))
  ]
  | k ∷ rest ↦ some (unknown_severities (sort (k ∷ rest)))
]

abbrev or_else : Option RepeatError → Option RepeatError → Option RepeatError
or_else none later = later
or_else (some e) later = some e

unfoldable pub validate : RepeatInterval → Duration → Option RepeatError
validate r check_interval =
    or_else (if r.is_map then check_keys (entries r.per_severity) else none)
      (check_entries r check_interval repeat_severities)
