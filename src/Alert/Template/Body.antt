-- ===== src/Alert/Template/Body.antt =====
-- The body of an alert in internal/alert/template.go: its references, how it is checked when it is
-- loaded, and how it is rendered. A map is walked in the order of its list, where the source walks
-- it in any order, so that the error that is told may be another.
use certel.Prelude.{Bool, true, false, Option, none, some, List, [], ◌∷◌, ◌++◌, if◌then◌else◌}
use certel.Prelude.Text.{Text, codes, eq_text, cut, trim}
use certel.Token.{Piece, plain, token, scan, spelled, Fallible, ok, replace_pieces}
use certel.Config.Tree.{Value, text, list, dict, Items, nil, cons, Fields, end, field}
use certel.Alert.Template.Times.{
  TemplateError, unknown_field, not_timestamp, no_namespace, unknown_namespace,
}

-- "namespace.rest", split at the first dot.
unfoldable pub cut_namespace : Text → Option (Text × Text)
unfolding cut trim
cut_namespace inner = cut 46 (trim inner)

abbrev ref_parts : Text → Option (Text × Text) → Text × Text
ref_parts rest none = (trim rest, [])
ref_parts rest (some (u, v)) = (trim u, trim v)

-- The path and the format of a reference.
unfoldable pub parse_ref : Text → Text × Text
unfolding cut trim
parse_ref rest = ref_parts rest (cut 124 rest)

abbrev pub alert_namespace : Text
alert_namespace = codes "alert"

-- The function that substitute gives to ReplaceAllStringFunc.
abbrev pub in_namespace :
    Text
    → (Text → Fallible TemplateError Text)
    → Bool
    → Text
    → Option (Text × Text)
    → Fallible TemplateError Text
in_namespace ns resolve escaped inner none = ok (spelled (token escaped inner))
in_namespace ns resolve escaped inner (some (name, rest)) =
    if eq_text name ns
    then (if escaped then ok (36 ∷ 123 ∷ (trim inner ++ (125 ∷ []))) else resolve rest)
    else ok (spelled (token escaped inner))

unfoldable pub substitute_piece :
    Text → (Text → Fallible TemplateError Text) → Piece → Fallible TemplateError Text
unfolding cut_namespace
substitute_piece ns resolve (plain a) = ok (a ∷ [])
substitute_piece ns resolve (token escaped inner) =
    in_namespace ns resolve escaped inner (cut_namespace inner)

-- Of several errors the last is told.
abbrev pub last_error : TemplateError → TemplateError → TemplateError
last_error e later = later

unfoldable pub substitute :
    Text → Text → (Text → Fallible TemplateError Text) → Fallible TemplateError Text
unfolding scan replace_pieces substitute_piece
substitute s ns resolve = replace_pieces last_error (substitute_piece ns resolve) (scan 0 s)

-- A text that is one reference and nothing else.
abbrev alert_ref : Option (Text × Text) → Option (Text × Text)
alert_ref none = none
alert_ref (some (name, rest)) = if eq_text name alert_namespace then some (parse_ref rest) else none

abbrev whole : List Piece → Option (Text × Text)
whole (token false inner ∷ []) = alert_ref (cut_namespace inner)
whole ps = none

unfoldable pub whole_alert_ref : Text → Option (Text × Text)
unfolding scan cut_namespace parse_ref
whole_alert_ref s = whole (scan 0 s)

abbrev pub alert_fields : List Text
alert_fields =
    codes "Host"
    ∷ codes "Address"
    ∷ codes "Port"
    ∷ codes "Protocol"
    ∷ codes "Status"
    ∷ codes "Severity"
    ∷ codes "Message"
    ∷ codes "Recovered"
    ∷ codes "DaysLeft"
    ∷ codes "CheckedAt"
    ∷ codes "Cert.Subject"
    ∷ codes "Cert.SubjectCN"
    ∷ codes "Cert.Issuer"
    ∷ codes "Cert.IssuerCN"
    ∷ codes "Cert.IssuerOrg"
    ∷ codes "Cert.NotBefore"
    ∷ codes "Cert.NotAfter"
    ∷ codes "Cert.EarliestNotAfter"
    ∷ codes "Cert.SigAlg"
    ∷ codes "Cert.Serial"
    ∷ codes "Cert.SANs"
    ∷ []

abbrev pub alert_time_fields : List Text
alert_time_fields =
    codes "CheckedAt"
    ∷ codes "Cert.NotBefore"
    ∷ codes "Cert.NotAfter"
    ∷ codes "Cert.EarliestNotAfter"
    ∷ []

unfoldable pub has_text : List Text → Text → Bool
has_text [] s = false
has_text (t ∷ rest) s = if eq_text t s then true else has_text rest s

abbrev refused_if : Bool → TemplateError → Option TemplateError → Option TemplateError
refused_if true e next = some e
refused_if false e next = next

abbrev is_empty : Text → Bool
is_empty [] = true
is_empty (a ∷ s) = false

abbrev check_path : Text × Text → Option TemplateError
check_path (path, f) =
    if has_text alert_fields path
    then (if is_empty f
        then none
        else (if has_text alert_time_fields path then none else some (not_timestamp path f)))
    else some (unknown_field path)

abbrev check_namespace : Text → Option (Text × Text) → Option TemplateError
check_namespace inner none = some (no_namespace (trim inner))
check_namespace inner (some (name, rest)) =
    if eq_text name alert_namespace
    then check_path (parse_ref rest)
    else (if eq_text name (codes "env") then none else some (unknown_namespace (trim inner)))

abbrev first_of : Option TemplateError → Option TemplateError → Option TemplateError
first_of none next = next
first_of (some e) next = some e

abbrev check_piece : Piece → Option TemplateError
check_piece (plain a) = none
check_piece (token true inner) = none
check_piece (token false inner) = check_namespace inner (cut_namespace inner)

abbrev check_pieces : List Piece → Option TemplateError
check_pieces [] = none
check_pieces (p ∷ ps) = first_of (check_piece p) (check_pieces ps)

unfoldable pub check_string_refs : Text → Option TemplateError
unfolding scan cut_namespace parse_ref has_text
check_string_refs s = check_pieces (scan 0 s)

unfoldable mutual
  unfolding check_string_refs

  pub validate_refs : Value → Option TemplateError
  validate_refs (text s) = check_string_refs s
  validate_refs (list xs) = validate_items xs
  validate_refs (dict fs) = validate_fields fs
  validate_refs _ = none

  pub validate_items : Items → Option TemplateError
  validate_items nil = none
  validate_items (cons v xs) = first_of (validate_refs v) (validate_items xs)

  pub validate_fields : Fields → Option TemplateError
  validate_fields end = none
  validate_fields (field k v fs) = first_of (validate_refs v) (validate_fields fs)
