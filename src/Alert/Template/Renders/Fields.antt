-- ===== src/Alert/Template/Renders/Fields.antt =====
-- Two payloads that have the same fields resolve the same references: resolveString, resolveNative
-- and substitute of internal/alert/template.go.
use certel.Prelude.{◌≡◌, refl, Bool, true, false, Option, none, some, List, [], ◌∷◌, if◌then◌else◌}
use certel.Prelude.Int.{ℤ}
use certel.Prelude.Text.{Text, eq_text}
use certel.Clock.{Time, is_zero}
use certel.Token.{Fallible, error, ok}
use certel.Probe.Result.{Result}
use certel.Alert.Template.Times.{
  TemplateError, preset_layouts, find_text, strftime_to_layout, has_percent, by_preset, by_format,
  format_time,
}
use certel.Alert.Template.Payload.{
  FieldVal, word, flag, count, names, timestamp, Payload, Formats, new_payload, sample_payload,
  only_plain, string_of, resolve_string, as_text, native_of, resolve_native,
}

abbrev pub IsOk : {E A : Type 0} → Fallible E A → Type 0
IsOk (error e) = ⊥
IsOk (ok a) = Unit

-- Fields of one kind, the first of them not a zero time.
pub data FieldAlike : Option FieldVal → Option FieldVal → Type 0 where
  absent : FieldAlike none none
  word_alike : (s t : Text) → FieldAlike (some (word s)) (some (word t))
  flag_alike : (b d : Bool) → FieldAlike (some (flag b)) (some (flag d))
  count_alike : (m n : ℤ) → FieldAlike (some (count m)) (some (count n))
  names_alike : (s t : List Text) → FieldAlike (some (names s)) (some (names t))
  time_alike :
      (t u : Time) → is_zero t ≡ false → FieldAlike (some (timestamp t)) (some (timestamp u))

-- Two lists of fields with the same names, alike at each.
infixr 5 ◌&◌
pub data Alike : List (Text × FieldVal) → List (Text × FieldVal) → Type 0 where
  no_more : Alike [] []
  ◌&◌ :
      {k : Text} {u v : FieldVal} {ps qs : List (Text × FieldVal)}
      → FieldAlike (some u) (some v)
      → Alike ps qs
      → Alike ((k, u) ∷ ps) ((k, v) ∷ qs)

find_text-Alike :
    (path : Text) (ps qs : List (Text × FieldVal))
    → Alike ps qs
    → FieldAlike (find_text path ps) (find_text path qs)
unfolding find_text
find_text-Alike path [] [] no_more = absent
find_text-Alike path [] (q ∷ qs) h = elim h [ ]
find_text-Alike path (p ∷ ps) [] h = elim h [ ]
find_text-Alike path ((k, u) ∷ ps) ((_, v) ∷ qs) (a & h) =
    pick (eq_text k path) (find_text-Alike path ps qs h)
  where
    pick :
        (b : Bool)
        → FieldAlike (find_text path ps) (find_text path qs)
        → FieldAlike
            (if b then some u else find_text path ps)
            (if b then some v else find_text path qs)
    pick true ih = a
    pick false ih = ih

by_preset-IsOk :
    (w w' : Text → Text) (f : Text) (o : Option Text)
    → IsOk (by_preset w f o)
    → IsOk (by_preset w' f o)
by_preset-IsOk w w' f none h = h
by_preset-IsOk w w' f (some layout) h = tt

by_format-IsOk : (w w' : Text → Text) (f : Text) → IsOk (by_format w f) → IsOk (by_format w' f)
unfolding by_format
by_format-IsOk w w' [] = λ h. tt
by_format-IsOk w w' (a ∷ f) = pick (has_percent (a ∷ f))
  where
    pick :
        (b : Bool)
        → IsOk (
            if b
            then ok (w (strftime_to_layout (a ∷ f)))
            else by_preset w (a ∷ f) (find_text (a ∷ f) preset_layouts))
        → IsOk (
            if b
            then ok (w' (strftime_to_layout (a ∷ f)))
            else by_preset w' (a ∷ f) (find_text (a ∷ f) preset_layouts))
    pick true h = tt
    pick false h = by_preset-IsOk w w' (a ∷ f) (find_text (a ∷ f) preset_layouts) h

-- A format that serves for one time that is not zero serves for all.
format_time-IsOk :
    (in_utc : Time → Text → Text) (t u : Time) (f : Text)
    → is_zero t ≡ false
    → IsOk (format_time in_utc t f)
    → IsOk (format_time in_utc u f)
unfolding format_time
format_time-IsOk in_utc t u f h k =
    pick (is_zero u) (by_format-IsOk (in_utc t) (in_utc u) f (simp h at k))
  where
    pick :
        (b : Bool)
        → IsOk (by_format (in_utc u) f)
        → IsOk (if b then ok [] else by_format (in_utc u) f)
    pick true i = tt
    pick false i = i

only_plain-IsOk :
    {A : Type 0} (path f : Text) (a b : A) → IsOk (only_plain path f a) → IsOk (only_plain path f b)
only_plain-IsOk path [] a b h = tt
only_plain-IsOk path (c ∷ f) a b h = h

module _ {Bytes : Type 0} (lib : Formats Bytes) where
  pub as_text-IsOk : (r : Fallible TemplateError Text) → IsOk r → IsOk (as_text lib r)
  as_text-IsOk (error e) h = h
  as_text-IsOk (ok s) h = tt

  pub as_text-IsOk_back : (r : Fallible TemplateError Text) → IsOk (as_text lib r) → IsOk r
  as_text-IsOk_back (error e) h = h
  as_text-IsOk_back (ok s) h = tt

  string_of-IsOk :
      (path f : Text) (o o' : Option FieldVal)
      → FieldAlike o o'
      → IsOk (string_of lib path f o)
      → IsOk (string_of lib path f o')
  unfolding string_of
  string_of-IsOk path f o o' absent h = h
  string_of-IsOk path f o o' (word_alike s t) h = only_plain-IsOk path f _ _ h
  string_of-IsOk path f o o' (flag_alike b d) h = only_plain-IsOk path f _ _ h
  string_of-IsOk path f o o' (count_alike m n) h = only_plain-IsOk path f _ _ h
  string_of-IsOk path f o o' (names_alike s t) h = only_plain-IsOk path f _ _ h
  string_of-IsOk path f o o' (time_alike t u z) h = format_time-IsOk lib.in_utc t u f z h

  native_of-IsOk :
      (path f : Text) (o o' : Option FieldVal)
      → FieldAlike o o'
      → IsOk (native_of lib path f o)
      → IsOk (native_of lib path f o')
  unfolding native_of
  native_of-IsOk path f o o' absent h = h
  native_of-IsOk path f o o' (word_alike s t) h = only_plain-IsOk path f _ _ h
  native_of-IsOk path f o o' (flag_alike b d) h = only_plain-IsOk path f _ _ h
  native_of-IsOk path f o o' (count_alike m n) h = only_plain-IsOk path f _ _ h
  native_of-IsOk path f o o' (names_alike s t) h = only_plain-IsOk path f _ _ h
  native_of-IsOk path f o o' (time_alike t u z) h =
      as_text-IsOk _ (format_time-IsOk lib.in_utc t u f z (as_text-IsOk_back _ h))

  pub resolve_string-IsOk :
      (p q : Payload) (path f : Text)
      → Alike p.fields q.fields
      → IsOk (resolve_string lib p path f)
      → IsOk (resolve_string lib q path f)
  unfolding resolve_string
  resolve_string-IsOk p q path f a =
      string_of-IsOk path f _ _ (find_text-Alike path p.fields q.fields a)

  pub resolve_native-IsOk :
      (p q : Payload) (path f : Text)
      → Alike p.fields q.fields
      → IsOk (resolve_native lib p path f)
      → IsOk (resolve_native lib q path f)
  unfolding resolve_native
  resolve_native-IsOk p q path f a =
      native_of-IsOk path f _ _ (find_text-Alike path p.fields q.fields a)

  -- The payloads of all results have the fields of the sample, whose times are not zero.
  pub sample-Alike :
      (r : Result) (recovered : Bool)
      → Alike (Payload.fields (sample_payload lib)) (Payload.fields (new_payload lib r recovered))
  unfolding sample_payload new_payload
  sample-Alike r recovered =
      word_alike _ _
      & word_alike _ _
      & word_alike _ _
      & word_alike _ _
      & word_alike _ _
      & word_alike _ _
      & word_alike _ _
      & flag_alike _ _
      & count_alike _ _
      & time_alike _ _ refl
      & word_alike _ _
      & word_alike _ _
      & word_alike _ _
      & word_alike _ _
      & word_alike _ _
      & word_alike _ _
      & word_alike _ _
      & names_alike _ _
      & time_alike _ _ refl
      & time_alike _ _ refl
      & time_alike _ _ refl
      & no_more
