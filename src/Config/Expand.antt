-- ===== src/Config/Expand.antt =====
-- expandEnv and expandEnvTree of internal/config/config.go. The environment is a function.
use certel.Prelude.{
  ℕ, String, Bool, true, false, Option, none, some, List, [], ◌∷◌, ◌++◌, if◌then◌else◌,
}
use certel.Prelude.Text.{Text, codes, has_prefix, drop_text, trim}
use certel.Token.{Piece, plain, token, scan, spelled, Fallible, error, ok, replace_pieces}
use certel.Config.Tree.{
  Value, text, boolean, integer, number, null, words, list, dict, Items, nil, cons, Fields, end,
  field,
}
pub mod Untouched
pub mod Missing

abbrev pub Environment : Type 0
Environment = Text → Option Text

-- `strings.CutPrefix(trimmed, "env.")`.
abbrev pub env_prefix : Text
env_prefix = codes "env."

abbrev pub looked_up : Text → Option Text → Fallible (List Text) Text
looked_up name none = error (name ∷ [])
looked_up name (some v) = ok v

-- The function that expandEnv gives to ReplaceAllStringFunc; an error holds the missing names.
unfoldable pub expand_piece : Environment → Piece → Fallible (List Text) Text
expand_piece env (plain a) = ok (a ∷ [])
expand_piece env (token escaped inner) =
    let trimmed = trim inner in
    let name = trim (drop_text 4 trimmed) in
    if has_prefix trimmed env_prefix
    then (if escaped then ok (36 ∷ 123 ∷ (trimmed ++ (125 ∷ []))) else looked_up name (env name))
    else ok (spelled (token escaped inner))

unfoldable pub expand_env : Environment → Text → Fallible (List Text) Text
unfolding scan replace_pieces expand_piece
expand_env env s = replace_pieces ◌++◌ (expand_piece env) (scan 0 s)

abbrev as_text : Fallible (List Text) Text → Fallible (List Text) Value
as_text (error e) = error e
as_text (ok s) = ok (text s)

abbrev as_list : Fallible (List Text) Items → Fallible (List Text) Value
as_list (error e) = error e
as_list (ok xs) = ok (list xs)

abbrev as_dict : Fallible (List Text) Fields → Fallible (List Text) Value
as_dict (error e) = error e
as_dict (ok fs) = ok (dict fs)

-- The first error ends the walk.
abbrev with_item :
    Fallible (List Text) Value → Fallible (List Text) Items → Fallible (List Text) Items
with_item (error e) rest = error e
with_item (ok v) (error e) = error e
with_item (ok v) (ok xs) = ok (cons v xs)

abbrev pub with_field :
    String → Fallible (List Text) Value → Fallible (List Text) Fields → Fallible (List Text) Fields
with_field k (error e) rest = error e
with_field k (ok v) (error e) = error e
with_field k (ok v) (ok fs) = ok (field k v fs)

unfoldable mutual
  unfolding expand_env

  pub expand_env_tree : Environment → Value → Fallible (List Text) Value
  expand_env_tree env (text s) = as_text (expand_env env s)
  expand_env_tree env (boolean b) = ok (boolean b)
  expand_env_tree env (integer n) = ok (integer n)
  expand_env_tree env (number s) = ok (number s)
  expand_env_tree env null = ok null
  expand_env_tree env (words ss) = ok (words ss)
  expand_env_tree env (list xs) = as_list (expand_items env xs)
  expand_env_tree env (dict fs) = as_dict (expand_fields env fs)

  pub expand_items : Environment → Items → Fallible (List Text) Items
  expand_items env nil = ok nil
  expand_items env (cons v xs) = with_item (expand_env_tree env v) (expand_items env xs)

  pub expand_fields : Environment → Fields → Fallible (List Text) Fields
  expand_fields env end = ok end
  expand_fields env (field k v fs) = with_field k (expand_env_tree env v) (expand_fields env fs)
