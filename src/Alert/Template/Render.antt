-- ===== src/Alert/Template/Render.antt =====
-- Rendering and loading a body: ParseBody, Render and deepMerge of internal/alert/template.go, and
-- the rendering that a notifier has at run time.
use certel.Prelude.{Bool, true, false, Option, none, some, String}
use certel.Prelude.Text.{Text}
use certel.Token.{Fallible, error, ok}
use certel.Config.Tree.{
  Value, text, boolean, integer, number, null, words, list, dict, Items, nil, cons, Fields, end,
  field, field_at, put_field,
}
use certel.Config.Target.{AlertConfig}
use certel.Alert.Types.{Bytes, NotifierRuntime}
use certel.Alert.Template.Times.{TemplateError, empty_body, not_encoded}
use certel.Alert.Template.Payload.{
  Payload, Formats, as_text, new_payload, sample_payload, resolve_string, resolve_native,
}
use certel.Alert.Template.Body.{
  alert_namespace, parse_ref, substitute, whole_alert_ref, validate_fields,
}

module _ (lib : Formats Bytes) where
  abbrev pub rendered_ref : Payload → Text → Option (Text × Text) → Fallible TemplateError Value
  rendered_ref p s (some (path, f)) = resolve_native lib p path f
  rendered_ref p s none = as_text lib (
      substitute s alert_namespace
        (λ rest. let ref = parse_ref rest in resolve_string lib p ref.0 ref.1))

  unfoldable pub render_string : Payload → Text → Fallible TemplateError Value
  render_string p s = rendered_ref p s (whole_alert_ref s)

abbrev pub as_list : Fallible TemplateError Items → Fallible TemplateError Value
as_list (error e) = error e
as_list (ok xs) = ok (list xs)

abbrev pub as_dict : Fallible TemplateError Fields → Fallible TemplateError Value
as_dict (error e) = error e
as_dict (ok fs) = ok (dict fs)

-- The first error ends the walk.
abbrev pub with_item :
    Fallible TemplateError Value → Fallible TemplateError Items → Fallible TemplateError Items
with_item (error e) rest = error e
with_item (ok v) (error e) = error e
with_item (ok v) (ok xs) = ok (cons v xs)

abbrev pub with_field :
    String
    → Fallible TemplateError Value
    → Fallible TemplateError Fields
    → Fallible TemplateError Fields
with_field k (error e) rest = error e
with_field k (ok v) (error e) = error e
with_field k (ok v) (ok fs) = ok (field k v fs)

unfoldable mutual
  unfolding render_string

  pub render_value : Formats Bytes → Payload → Value → Fallible TemplateError Value
  render_value lib p (text s) = render_string lib p s
  render_value lib p (boolean b) = ok (boolean b)
  render_value lib p (integer n) = ok (integer n)
  render_value lib p (number s) = ok (number s)
  render_value lib p null = ok null
  render_value lib p (words ss) = ok (words ss)
  render_value lib p (list xs) = as_list (render_items lib p xs)
  render_value lib p (dict fs) = as_dict (render_fields lib p fs)

  pub render_items : Formats Bytes → Payload → Items → Fallible TemplateError Items
  render_items lib p nil = ok nil
  render_items lib p (cons v xs) = with_item (render_value lib p v) (render_items lib p xs)

  pub render_fields : Formats Bytes → Payload → Fields → Fallible TemplateError Fields
  render_fields lib p end = ok end
  render_fields lib p (field k v fs) = with_field k (render_value lib p v) (render_fields lib p fs)

unfoldable mutual
  unfolding field_at put_field

  -- `over` on `base`, one key after the other.
  pub deep_merge : Fields → Fields → Fields
  deep_merge base end = base
  deep_merge base (field k v over) =
      deep_merge (put_field k (overlay v (field_at k base)) base) over

  -- A map on a map is merged; any other value replaces.
  pub overlay : Value → Option Value → Value
  overlay (dict over) (some (dict base)) = dict (deep_merge base over)
  overlay v old = v

-- The compiled body; `recovery` is `none` with no recovery body.
pub record Body : Type 0 where
  pub fire : Fields
  pub recovery : Option Fields

abbrev pub source_of : Body → Bool → Fields
source_of b false = b.fire
source_of b true = elim b.recovery [ none ↦ b.fire | some fs ↦ fs ]

abbrev pub encoded : Option Bytes → Fallible TemplateError Bytes
encoded none = error not_encoded
encoded (some x) = ok x

abbrev pub marshalled : Formats Bytes → Fallible TemplateError Fields → Fallible TemplateError Bytes
marshalled lib (error e) = error e
marshalled lib (ok fs) = encoded (lib.marshal (dict fs))

unfoldable pub render : Formats Bytes → Body → Payload → Fallible TemplateError Bytes
unfolding render_fields
render lib b p = marshalled lib (render_fields lib p (source_of b p.recovered))

-- The sample renders: the firing body, and the recovery body where there is one.
abbrev pub checked_recovery : Formats Bytes → Body → Option Fields → Fallible TemplateError Body
checked_recovery lib b none = ok b
checked_recovery lib b (some fs) =
    elim (render lib b (record (sample_payload lib) { recovered = true })) [
      | error e ↦ error e
      | ok x ↦ ok b
    ]

abbrev pub sampled : Formats Bytes → Body → Fallible TemplateError Body
sampled lib b = elim (render lib b (sample_payload lib)) [
  | error e ↦ error e
  | ok x ↦ checked_recovery lib b b.recovery
]

abbrev pub with_recovery :
    Formats Bytes → Fields → Fields → Option TemplateError → Fallible TemplateError Body
with_recovery lib body over (some e) = error e
with_recovery lib body over none =
    sampled lib (record { fire = body; recovery = some (deep_merge body over) })

abbrev pub compiled :
    Formats Bytes → Fields → Fields → Option TemplateError → Fallible TemplateError Body
compiled lib body over (some e) = error e
compiled lib body end none = sampled lib (record { fire = body; recovery = none })
compiled lib body (field k v fs) none =
    with_recovery lib body (field k v fs) (validate_fields (field k v fs))

unfoldable pub parse_body : Formats Bytes → Fields → Fields → Fallible TemplateError Body
unfolding render sample_payload deep_merge validate_fields
parse_body lib end over = error empty_body
parse_body lib (field k v fs) over =
    compiled lib (field k v fs) over (validate_fields (field k v fs))

-- A notifier at run time, with the body that was compiled when it was loaded.
abbrev pub rendering : Fallible TemplateError Bytes → Option Bytes
rendering (error e) = none
rendering (ok x) = some x

unfoldable pub notifier_runtime : Formats Bytes → AlertConfig → Body → NotifierRuntime
unfolding render new_payload
notifier_runtime lib cfg b = record {
  config = cfg;
  render = λ r recovered. rendering (render lib b (new_payload lib r recovered));
}
