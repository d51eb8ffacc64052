-- ===== src/Examples/Template.antt =====
-- A body with a reference of each kind, its recovery body, and a secret of the environment.
use certel.Prelude.{
  ◌≡◌, refl, ap, Bool, true, false, not, Option, none, some, [], ◌∷◌, if◌then◌else◌,
}
use certel.Prelude.Text.{
  Text, codes, eq_text, cut, trim, trim_left, trim_right, has_prefix, join_texts, digits,
}
use certel.Token.{token_at, scan, ok, replace_pieces}
use certel.Config.Tree.{null, dict, text, Fields, end, field, field_at, put_field}
use certel.Config.Expand.{Environment}
use certel.Config.Expand.Missing.{missing}
use certel.Alert.Types.{Bytes, NotifierRuntime}
use certel.Examples.Data.{channel_config, fine}
use certel.Alert.Template.Times.{find_text, strftime_to_layout, has_percent, by_format, format_time}
use certel.Alert.Template.Payload.{
  Formats, new_payload, sample_payload, to_string, string_of, resolve_string, native_of,
  resolve_native,
}
use certel.Alert.Template.Body.{
  cut_namespace, parse_ref, substitute_piece, substitute, whole_alert_ref, has_text,
  check_string_refs, validate_refs,
}
use certel.Alert.Template.Render.{
  render_string, render_value, deep_merge, Body, render, parse_body, notifier_runtime,
}
use certel.Alert.Template.Merge.{field_at-deep_merge}
use certel.Alert.Template.Renders.Numbers.{encodable, Marshals}
use certel.Alert.Template.Renders.Accepted.{parse_body-renders}

-- Of the numbers that YAML writes and JSON does not have, one stands for all.
abbrev finite : Text → Bool
finite s = not (eq_text s (codes ".nan"))

abbrev marshal_if : Bool → Option Bytes
marshal_if true = some (codes "{}")
marshal_if false = none

abbrev formats : Formats Bytes
formats = record {
  split_host_port = λ a. none;
  in_utc = λ t layout. layout;
  marshal = λ v. marshal_if (encodable finite v);
}

marshal_if-some : (b : Bool) (x : Bytes) → marshal_if b ≡ some x → b ≡ true
marshal_if-some true x h = refl
marshal_if-some false x h = cc

formats-Marshals : Marshals formats
formats-Marshals = record {
  finite = finite;
  accepts = λ v h. (codes "{}", ap marshal_if h);
  refuses = λ v x h. marshal_if-some (encodable finite v) x h;
}

abbrev firing : Fields
firing =
    field "text" (text (codes "${alert.Host} until ${ alert.Cert.NotAfter | %d.%m. } $${alert.x}"))
      (field "days" (text (codes "${alert.DaysLeft}")) end)

abbrev recovering : Fields
recovering = field "text" (text (codes "ok")) end

abbrev loaded : Body
loaded = record { fire = firing; recovery = some (deep_merge firing recovering) }

-- The sample renders, so that the body is accepted.
loaded_test : parse_body formats firing recovering ≡ ok loaded
unfolding parse_body eq_text cut trim trim_left trim_right has_prefix join_texts digits token_at
    scan replace_pieces field_at put_field find_text strftime_to_layout has_percent by_format
    format_time new_payload sample_payload to_string string_of resolve_string native_of
    resolve_native cut_namespace parse_ref substitute_piece substitute whole_alert_ref has_text
    check_string_refs validate_refs render_string render_value deep_merge render encodable
loaded_test = refl

parse_body-renders_example :
    (x : Bytes) × (NotifierRuntime.render
        (notifier_runtime formats (channel_config "warning") loaded)
        fine
        true
      ≡ some x)
parse_body-renders_example =
    parse_body-renders formats formats-Marshals (channel_config "warning") firing recovering loaded
      loaded_test fine true

-- A map inside a map, of which the overlay changes one key.
abbrev labels : Fields
labels = field "labels" (dict (field "team" (text []) (field "site" (text []) end))) end

abbrev silenced : Fields
silenced = field "labels" (dict (field "site" null end)) (field "days" null end)

field_at-deep_merge_example :
    field_at "labels" (deep_merge labels silenced)
    ≡ some (
        dict (
          deep_merge (field "team" (text []) (field "site" (text []) end)) (field "site" null end)))
unfolding field_at
field_at-deep_merge_example = field_at-deep_merge labels silenced "labels" (refl, (refl, tt))

abbrev environment : Environment
environment name = if eq_text name (codes "TOKEN") then some (codes "s3cret") else none

abbrev header : Text
header = codes "Bearer ${env.TOKEN} ${ env.NONE } $${env.X} ${alert.Host}"

missing_test : missing environment (scan 0 header) ≡ codes "NONE" ∷ []
unfolding missing scan token_at cut trim trim_left trim_right has_prefix eq_text
missing_test = refl

abbrev reference : Text
reference = codes "on ${alert.Host}"
