-- ===== src/Alert/Template/Renders/Numbers.antt =====
-- A rendered body of internal/alert/template.go has the numbers of its source, so that json.Marshal
-- accepts the one where it accepts the other.
use certel.Prelude.{◌≡◌, refl, Bool, true, ◌&&◌, Option, none, some, [], ◌∷◌, String}
use certel.Prelude.Text.{Text}
use certel.Token.{Fallible, error, ok}
use certel.Config.Tree.{
  Value, text, boolean, integer, number, null, words, list, dict, Items, nil, cons, Fields, end,
  field,
}
use certel.Alert.Types.{Bytes}
use certel.Alert.Template.Times.{TemplateError, find_text, format_time}
use certel.Alert.Template.Payload.{
  Payload, Formats, FieldVal, as_text, native_of, resolve_native, only_plain, word, flag, count,
  names, timestamp,
}
use certel.Alert.Template.Body.{whole_alert_ref}
use certel.Alert.Template.Render.{
  rendered_ref, render_string, as_list, as_dict, with_item, with_field, render_value, render_items,
  render_fields,
}

-- The numbers in a value that JSON has.
unfoldable mutual
  pub encodable : (Text → Bool) → Value → Bool
  encodable finite (number s) = finite s
  encodable finite (list xs) = encodable_items finite xs
  encodable finite (dict fs) = encodable_fields finite fs
  encodable finite _ = true

  pub encodable_items : (Text → Bool) → Items → Bool
  encodable_items finite nil = true
  encodable_items finite (cons v xs) = encodable finite v && encodable_items finite xs

  pub encodable_fields : (Text → Bool) → Fields → Bool
  encodable_fields finite end = true
  encodable_fields finite (field k v fs) = encodable finite v && encodable_fields finite fs

-- json.Marshal, of a tree of maps, arrays and scalars: it refuses a number that is not finite, and
-- nothing else.
pub record Marshals (lib : Formats Bytes) : Type 0 where
  pub finite : Text → Bool
  pub accepts : (v : Value) → encodable finite v ≡ true → (x : Bytes) × (lib.marshal v ≡ some x)
  pub refuses : (v : Value) (x : Bytes) → lib.marshal v ≡ some x → encodable finite v ≡ true

-- A rendered value has the numbers of its source.
abbrev Keeps : (Text → Bool) → Bool → Fallible TemplateError Value → Type 0
Keeps finite b (error e) = Unit
Keeps finite b (ok v) = encodable finite v ≡ b

abbrev KeepsItems : (Text → Bool) → Bool → Fallible TemplateError Items → Type 0
KeepsItems finite b (error e) = Unit
KeepsItems finite b (ok xs) = encodable_items finite xs ≡ b

abbrev pub KeepsFields : (Text → Bool) → Bool → Fallible TemplateError Fields → Type 0
KeepsFields finite b (error e) = Unit
KeepsFields finite b (ok fs) = encodable_fields finite fs ≡ b

module _ (lib : Formats Bytes) (finite : Text → Bool) where
  as_text-Keeps : (r : Fallible TemplateError Text) → Keeps finite true (as_text lib r)
  unfolding encodable
  as_text-Keeps (error e) = tt
  as_text-Keeps (ok s) = refl

  only_plain-Keeps :
      (path f : Text) (v : Value)
      → encodable finite v ≡ true
      → Keeps finite true (only_plain path f v)
  only_plain-Keeps path [] v h = h
  only_plain-Keeps path (b ∷ f) v h = tt

  native_of-Keeps :
      (path f : Text) (o : Option FieldVal) → Keeps finite true (native_of lib path f o)
  unfolding native_of encodable
  native_of-Keeps path f none = tt
  native_of-Keeps path f (some (word s)) = only_plain-Keeps path f (text s) refl
  native_of-Keeps path f (some (flag b)) = only_plain-Keeps path f (boolean b) refl
  native_of-Keeps path f (some (count n)) = only_plain-Keeps path f (integer n) refl
  native_of-Keeps path f (some (names ss)) = only_plain-Keeps path f (words ss) refl
  native_of-Keeps path f (some (timestamp t)) = as_text-Keeps (format_time lib.in_utc t f)

  render_string-Keeps : (p : Payload) (s : Text) → Keeps finite true (render_string lib p s)
  unfolding render_string resolve_native
  render_string-Keeps p s = keep (whole_alert_ref s)
    where
      keep : (o : Option (Text × Text)) → Keeps finite true (rendered_ref lib p s o)
      keep none = as_text-Keeps _
      keep (some (path, f)) = native_of-Keeps path f (find_text path p.fields)

  with_item-Keeps :
      (b d : Bool) (r : Fallible TemplateError Value) (rest : Fallible TemplateError Items)
      → Keeps finite b r
      → KeepsItems finite d rest
      → KeepsItems finite (b && d) (with_item r rest)
  unfolding encodable
  with_item-Keeps b d (error e) rest h k = tt
  with_item-Keeps b d (ok v) (error e) h k = tt
  with_item-Keeps b d (ok v) (ok xs) h k = rw (h, k)

  with_field-Keeps :
      (name : String) (b d : Bool) (r : Fallible TemplateError Value)
      (rest : Fallible TemplateError Fields)
      → Keeps finite b r
      → KeepsFields finite d rest
      → KeepsFields finite (b && d) (with_field name r rest)
  unfolding encodable
  with_field-Keeps name b d (error e) rest h k = tt
  with_field-Keeps name b d (ok v) (error e) h k = tt
  with_field-Keeps name b d (ok v) (ok fs) h k = rw (h, k)

  as_list-Keeps :
      (b : Bool) (r : Fallible TemplateError Items)
      → KeepsItems finite b r
      → Keeps finite b (as_list r)
  unfolding encodable
  as_list-Keeps b (error e) h = tt
  as_list-Keeps b (ok xs) h = h

  as_dict-Keeps :
      (b : Bool) (r : Fallible TemplateError Fields)
      → KeepsFields finite b r
      → Keeps finite b (as_dict r)
  unfolding encodable
  as_dict-Keeps b (error e) h = tt
  as_dict-Keeps b (ok fs) h = h

  mutual
    unfolding render_value encodable

    render_value-Keeps :
        (p : Payload) (v : Value) → Keeps finite (encodable finite v) (render_value lib p v)
    render_value-Keeps p (text s) = render_string-Keeps p s
    render_value-Keeps p (boolean b) = refl
    render_value-Keeps p (integer n) = refl
    render_value-Keeps p (number s) = refl
    render_value-Keeps p null = refl
    render_value-Keeps p (words ss) = refl
    render_value-Keeps p (list xs) =
        as_list-Keeps (encodable_items finite xs) (render_items lib p xs) (render_items-Keeps p xs)
    render_value-Keeps p (dict fs) =
        as_dict-Keeps (encodable_fields finite fs) (render_fields lib p fs)
          (render_fields-Keeps p fs)

    render_items-Keeps :
        (p : Payload) (xs : Items)
        → KeepsItems finite (encodable_items finite xs) (render_items lib p xs)
    render_items-Keeps p nil = refl
    render_items-Keeps p (cons v xs) =
        with_item-Keeps (encodable finite v) (encodable_items finite xs) (render_value lib p v)
          (render_items lib p xs) (render_value-Keeps p v) (render_items-Keeps p xs)

    pub render_fields-Keeps :
        (p : Payload) (fs : Fields)
        → KeepsFields finite (encodable_fields finite fs) (render_fields lib p fs)
    render_fields-Keeps p end = refl
    render_fields-Keeps p (field k v fs) =
        with_field-Keeps k (encodable finite v) (encodable_fields finite fs) (render_value lib p v)
          (render_fields lib p fs) (render_value-Keeps p v) (render_fields-Keeps p fs)
