-- ===== src/Alert/Template/Renders/Accepted.antt =====
-- A body that ParseBody of internal/alert/template.go accepts renders on every result.
use certel.Prelude.{◌≡◌, subst, refl, sym, ◌∙◌, Bool, true, false, Option, none, some, String}
use certel.Prelude.Text.{Text}
use certel.Token.{Fallible, error, ok}
use certel.Config.Tree.{
  Value, text, boolean, integer, number, null, words, list, dict, Items, nil, cons, Fields, end,
  field,
}
use certel.Config.Target.{AlertConfig}
use certel.Probe.Result.{Result}
use certel.Alert.Types.{Bytes, NotifierRuntime}
use certel.Alert.Template.Times.{TemplateError}
use certel.Alert.Template.Payload.{Payload, Formats, new_payload, sample_payload}
use certel.Alert.Template.Body.{alert_namespace, parse_ref, whole_alert_ref, validate_fields}
use certel.Alert.Template.Render.{
  rendered_ref, render_string, as_list, as_dict, with_item, with_field, render_value, render_items,
  render_fields, deep_merge, Body, source_of, encoded, marshalled, render, checked_recovery,
  sampled, with_recovery, compiled, parse_body, rendering, notifier_runtime,
}
use certel.Alert.Template.Renders.Numbers.{
  encodable, encodable_fields, Marshals, KeepsFields, render_fields-Keeps,
}
use certel.Alert.Template.Renders.Fields.{
  IsOk, Alike, resolve_string-IsOk, resolve_native-IsOk, sample-Alike, as_text-IsOk,
  as_text-IsOk_back,
}
use certel.Alert.Template.Renders.Substitution.{substitute-IsOk}

-- Rendering succeeds on every payload that has the fields of one on which it does.
module _ (lib : Formats Bytes) (p q : Payload) (alike : Alike p.fields q.fields) where
  render_string-IsOk : (s : Text) → IsOk (render_string lib p s) → IsOk (render_string lib q s)
  unfolding render_string
  render_string-IsOk s = pick (whole_alert_ref s)
    where
      pick :
          (o : Option (Text × Text)) → IsOk (rendered_ref lib p s o) → IsOk (rendered_ref lib q s o)
      pick none h = as_text-IsOk lib _ (
          substitute-IsOk _ _
            (λ rest. resolve_string-IsOk lib p q (parse_ref rest).0 (parse_ref rest).1 alike) s
            alert_namespace (as_text-IsOk_back lib _ h))
      pick (some (path, f)) h = resolve_native-IsOk lib p q path f alike h

  with_item-IsOk :
      (r r' : Fallible TemplateError Value) (s s' : Fallible TemplateError Items)
      → (IsOk r → IsOk r')
      → (IsOk s → IsOk s')
      → IsOk (with_item r s)
      → IsOk (with_item r' s')
  with_item-IsOk (error e) r' s s' h k i = elim i [ ]
  with_item-IsOk (ok v) r' (error e) s' h k i = elim i [ ]
  with_item-IsOk (ok v) (error e) (ok xs) s' h k i = elim (h tt) [ ]
  with_item-IsOk (ok v) (ok v') (ok xs) (error e) h k i = elim (k tt) [ ]
  with_item-IsOk (ok v) (ok v') (ok xs) (ok xs') h k i = tt

  with_field-IsOk :
      (k : String) (r r' : Fallible TemplateError Value) (s s' : Fallible TemplateError Fields)
      → (IsOk r → IsOk r')
      → (IsOk s → IsOk s')
      → IsOk (with_field k r s)
      → IsOk (with_field k r' s')
  with_field-IsOk n (error e) r' s s' h k i = elim i [ ]
  with_field-IsOk n (ok v) r' (error e) s' h k i = elim i [ ]
  with_field-IsOk n (ok v) (error e) (ok xs) s' h k i = elim (h tt) [ ]
  with_field-IsOk n (ok v) (ok v') (ok xs) (error e) h k i = elim (k tt) [ ]
  with_field-IsOk n (ok v) (ok v') (ok xs) (ok xs') h k i = tt

  as_list-IsOk :
      (r s : Fallible TemplateError Items) → (IsOk r → IsOk s) → IsOk (as_list r) → IsOk (as_list s)
  as_list-IsOk (error e) s h i = elim i [ ]
  as_list-IsOk (ok xs) (error e) h i = elim (h tt) [ ]
  as_list-IsOk (ok xs) (ok ys) h i = tt

  as_dict-IsOk :
      (r s : Fallible TemplateError Fields)
      → (IsOk r → IsOk s)
      → IsOk (as_dict r)
      → IsOk (as_dict s)
  as_dict-IsOk (error e) s h i = elim i [ ]
  as_dict-IsOk (ok xs) (error e) h i = elim (h tt) [ ]
  as_dict-IsOk (ok xs) (ok ys) h i = tt

  mutual
    unfolding render_value

    render_value-IsOk : (v : Value) → IsOk (render_value lib p v) → IsOk (render_value lib q v)
    render_value-IsOk (text s) h = render_string-IsOk s h
    render_value-IsOk (boolean b) h = tt
    render_value-IsOk (integer n) h = tt
    render_value-IsOk (number s) h = tt
    render_value-IsOk null h = tt
    render_value-IsOk (words ss) h = tt
    render_value-IsOk (list xs) h =
        as_list-IsOk (render_items lib p xs) (render_items lib q xs) (render_items-IsOk xs) h
    render_value-IsOk (dict fs) h =
        as_dict-IsOk (render_fields lib p fs) (render_fields lib q fs) (render_fields-IsOk fs) h

    render_items-IsOk : (xs : Items) → IsOk (render_items lib p xs) → IsOk (render_items lib q xs)
    render_items-IsOk nil h = tt
    render_items-IsOk (cons v xs) h =
        with_item-IsOk (render_value lib p v) (render_value lib q v) (render_items lib p xs)
          (render_items lib q xs) (render_value-IsOk v) (render_items-IsOk xs) h

    render_fields-IsOk :
        (fs : Fields) → IsOk (render_fields lib p fs) → IsOk (render_fields lib q fs)
    render_fields-IsOk end h = tt
    render_fields-IsOk (field k v fs) h =
        with_field-IsOk k (render_value lib p v) (render_value lib q v) (render_fields lib p fs)
          (render_fields lib q fs) (render_value-IsOk v) (render_fields-IsOk fs) h

-- What json.Marshal accepts once it accepts again, of values with the same numbers.
module _ (lib : Formats Bytes) (m : Marshals lib) where
  encoded-some : (o : Option Bytes) → IsOk (encoded o) → (x : Bytes) × (o ≡ some x)
  encoded-some none h = elim h [ ]
  encoded-some (some x) h = (x, refl)

  marshalled-IsOk :
      (b : Bool) (r s : Fallible TemplateError Fields)
      → KeepsFields m.finite b r
      → KeepsFields m.finite b s
      → (IsOk r → IsOk s)
      → IsOk (marshalled lib r)
      → IsOk (marshalled lib s)
  unfolding encodable
  marshalled-IsOk b (error e) s h k rs i = elim i [ ]
  marshalled-IsOk b (ok fs) (error e) h k rs i = elim (rs tt) [ ]
  marshalled-IsOk b (ok fs) (ok gs) h k rs i =
      let old = encoded-some (lib.marshal (dict fs)) i in
      let good = m.refuses (dict fs) old.0 old.1 in
      let new = m.accepts (dict gs) (k ∙ sym h ∙ good) in
      subst (λ (o : Option Bytes). IsOk (encoded o)) (sym new.1) tt

  fields_everywhere :
      (p q : Payload) (fs : Fields)
      → Alike p.fields q.fields
      → IsOk (marshalled lib (render_fields lib p fs))
      → IsOk (marshalled lib (render_fields lib q fs))
  fields_everywhere p q fs alike =
      marshalled-IsOk (encodable_fields m.finite fs) (render_fields lib p fs)
        (render_fields lib q fs) (render_fields-Keeps lib m.finite p fs)
        (render_fields-Keeps lib m.finite q fs) (render_fields-IsOk lib p q alike fs)

abbrev Sampled : Formats Bytes → Fields → Type 0
Sampled lib fs =
    (recovered : Bool) × IsOk (
      marshalled lib (render_fields lib (record (sample_payload lib) { recovered = recovered }) fs))

abbrev RecoverySampled : Formats Bytes → Option Fields → Type 0
RecoverySampled lib none = Unit
RecoverySampled lib (some fs) = Sampled lib fs

-- What ParseBody has rendered where it succeeds.
record Loaded (lib : Formats Bytes) (b : Body) : Type 0 where
  fire : Sampled lib b.fire
  recovery : RecoverySampled lib b.recovery

after_render :
    (rr : Fallible TemplateError Bytes) (next : Fallible TemplateError Body) (b : Body)
    → elim rr [ error e ↦ error e | ok x ↦ next ] ≡ ok b
    → IsOk rr × (next ≡ ok b)
after_render (error e) next b h = cc
after_render (ok x) next b h = (tt, h)

ok_inj : {a b : Body} → ◌≡◌ {A = Fallible TemplateError Body} (ok a) (ok b) → a ≡ b
ok_inj h = cc

module _ (lib : Formats Bytes) where
  sampled-fire :
      (fs : Fields) (b : Body)
      → sampled lib (record { fire = fs; recovery = none }) ≡ ok b
      → Loaded lib b
  unfolding render sample_payload
  sampled-fire fs b h =
      let done = after_render _ _ b h in
      subst (λ (x : Body). Loaded lib x) (ok_inj done.1)
        (record { fire = (false, done.0); recovery = tt })

  sampled-both :
      (fs gs : Fields) (b : Body)
      → sampled lib (record { fire = fs; recovery = some gs }) ≡ ok b
      → Loaded lib b
  unfolding render sample_payload
  sampled-both fs gs b h =
      let c : Body = record { fire = fs; recovery = some gs } in
      let done =
        after_render (render lib c (sample_payload lib)) (checked_recovery lib c (some gs)) b h in
      let both =
        after_render (render lib c (record (sample_payload lib) { recovered = true })) (ok c) b
          done.1 in
      let loaded : Loaded lib c = record { fire = (false, done.0); recovery = (true, both.0) } in
      subst (λ (x : Body). Loaded lib x) (ok_inj both.1) loaded

  compiled-Loaded :
      (body over : Fields) (o : Option TemplateError) (b : Body)
      → compiled lib body over o ≡ ok b
      → Loaded lib b
  compiled-Loaded body over (some e) b h = cc
  compiled-Loaded body end none b h = sampled-fire body b h
  compiled-Loaded body (field k v over) none b h = merged (validate_fields (field k v over)) h
    where
      merged :
          (o : Option TemplateError)
          → with_recovery lib body (field k v over) o ≡ ok b
          → Loaded lib b
      merged (some e) i = cc
      merged none i = sampled-both body (deep_merge body (field k v over)) b i

  parse_body-Loaded :
      (body over : Fields) (b : Body) → parse_body lib body over ≡ ok b → Loaded lib b
  unfolding parse_body
  parse_body-Loaded end over b h = cc
  parse_body-Loaded (field k v fs) over b h =
      compiled-Loaded (field k v fs) over (validate_fields (field k v fs)) b h

  Loaded-renders :
      (m : Marshals lib) (b : Body) (r : Result) (recovered : Bool)
      → Loaded lib b
      → IsOk (render lib b (new_payload lib r recovered))
  unfolding render new_payload
  Loaded-renders m b r recovered h = pick recovered b.recovery h.recovery
    where
      everywhere :
          (fs : Fields)
          → Sampled lib fs
          → IsOk (marshalled lib (render_fields lib (new_payload lib r recovered) fs))
      everywhere fs (was, s) =
          fields_everywhere lib m (record (sample_payload lib) { recovered = was })
            (new_payload lib r recovered) fs (sample-Alike lib r recovered) s

      pick :
          (x : Bool) (o : Option Fields)
          → RecoverySampled lib o
          → IsOk (
              marshalled lib (
                render_fields lib
                  (new_payload lib r recovered)
                  (source_of (record { fire = b.fire; recovery = o }) x)))
      pick false o s = everywhere b.fire h.fire
      pick true none s = everywhere b.fire h.fire
      pick true (some fs) s = everywhere fs s

rendering-some : (o : Fallible TemplateError Bytes) → IsOk o → (x : Bytes) × (rendering o ≡ some x)
rendering-some (error e) h = elim h [ ]
rendering-some (ok x) h = (x, refl)

-- A body that ParseBody accepts, with or without a recovery body, renders to bytes on every
-- result, for a problem and for a recovery, so that a notifier never meets a render error;
-- json.Marshal refuses a number that is not finite, and nothing else.
pub parse_body-renders :
    (lib : Formats Bytes) (m : Marshals lib) (cfg : AlertConfig) (body over : Fields) (b : Body)
    → parse_body lib body over ≡ ok b
    → (r : Result) (recovered : Bool)
    → (x : Bytes) × (NotifierRuntime.render (notifier_runtime lib cfg b) r recovered ≡ some x)
unfolding notifier_runtime
parse_body-renders lib m cfg body over b h r recovered =
    rendering-some _ (Loaded-renders lib m b r recovered (parse_body-Loaded lib body over b h))
