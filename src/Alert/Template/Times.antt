-- ===== src/Alert/Template/Times.antt =====
-- The time formats of internal/alert/template.go. time.Format is a parameter: the text of a time in
-- UTC, by a layout.
use certel.Prelude.{
  ℕ, Bool, true, false, Option, none, some, List, [], ◌∷◌, ◌++◌, ◌==◌, if◌then◌else◌,
}
use certel.Prelude.Text.{Text, codes, eq_text}
use certel.Clock.{Time, is_zero}
use certel.Token.{Fallible, error, ok}

-- What can be wrong with a body.
pub data TemplateError : Type 0 where
  empty_body : TemplateError
  unknown_field : Text → TemplateError
  not_timestamp : Text → Text → TemplateError
  unknown_format : Text → TemplateError
  no_namespace : Text → TemplateError
  unknown_namespace : Text → TemplateError
  not_encoded : TemplateError

abbrev pub layout_datetime : Text
layout_datetime = codes "2006-01-02 15:04:05"

abbrev pub preset_layouts : List (Text × Text)
preset_layouts =
    (codes "datetime", layout_datetime)
    ∷ (codes "date", codes "2006-01-02")
    ∷ (codes "time", codes "15:04:05")
    ∷ (codes "human", codes "Jan 02, 2006 15:04")
    ∷ (codes "rfc3339", codes "2006-01-02T15:04:05Z07:00")
    ∷ []

unfoldable pub find_text : {A : Type 0} → Text → List (Text × A) → Option A
find_text k [] = none
find_text k ((j, v) ∷ rest) = if eq_text j k then some v else find_text k rest

abbrev pub strftime_map : List (Text × Text)
strftime_map =
    (codes "%Y", codes "2006")
    ∷ (codes "%y", codes "06")
    ∷ (codes "%m", codes "01")
    ∷ (codes "%d", codes "02")
    ∷ (codes "%e", codes "_2")
    ∷ (codes "%H", codes "15")
    ∷ (codes "%I", codes "03")
    ∷ (codes "%M", codes "04")
    ∷ (codes "%S", codes "05")
    ∷ (codes "%p", codes "PM")
    ∷ (codes "%b", codes "Jan")
    ∷ (codes "%B", codes "January")
    ∷ (codes "%a", codes "Mon")
    ∷ (codes "%A", codes "Monday")
    ∷ (codes "%Z", codes "MST")
    ∷ (codes "%z", codes "-0700")
    ∷ (codes "%%", codes "%")
    ∷ []

-- The directive that stands first, or the first character as it is.
abbrev directive : ℕ → Option Text → Text → Text → Text
directive a (some repl) after_two after_one = repl ++ after_two
directive a none after_two after_one = a ∷ after_one

unfoldable pub strftime_to_layout : Text → Text
unfolding find_text
strftime_to_layout [] = []
strftime_to_layout (a ∷ []) = a ∷ []
strftime_to_layout (a ∷ b ∷ s) =
    let after_two = strftime_to_layout s in
    let after_one = strftime_to_layout (b ∷ s) in
    if a == 37
    then directive a (find_text (a ∷ b ∷ []) strftime_map) after_two after_one
    else a ∷ after_one

unfoldable pub has_percent : Text → Bool
has_percent [] = false
has_percent (a ∷ s) = if a == 37 then true else has_percent s

abbrev pub by_preset : (Text → Text) → Text → Option Text → Fallible TemplateError Text
by_preset write_by f none = error (unknown_format f)
by_preset write_by f (some layout) = ok (write_by layout)

-- The layout of a format, and the text that it gives.
unfoldable pub by_format : (Text → Text) → Text → Fallible TemplateError Text
unfolding has_percent strftime_to_layout find_text
by_format write_by [] = ok (write_by layout_datetime)
by_format write_by (a ∷ f) =
    if has_percent (a ∷ f)
    then ok (write_by (strftime_to_layout (a ∷ f)))
    else by_preset write_by (a ∷ f) (find_text (a ∷ f) preset_layouts)

unfoldable pub format_time : (Time → Text → Text) → Time → Text → Fallible TemplateError Text
unfolding by_format
format_time in_utc t f = if is_zero t then ok [] else by_format (in_utc t) f
