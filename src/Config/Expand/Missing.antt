-- ===== src/Config/Expand/Missing.antt =====
-- When expandEnv of internal/config/config.go fails, and what it gives otherwise.
use certel.Prelude.{not, ◌&&◌, Option, none, some, List, [], ◌∷◌, ◌++◌, if◌then◌else◌}
use certel.Prelude.Text.{Text, has_prefix, drop_text, trim}
use certel.Token.{Piece, plain, token, spelled, Fallible, error, ok}
use certel.Config.Expand.{Environment, env_prefix}

-- A reference to a variable: its name.
abbrev pub variable_of : Piece → Option Text
variable_of (plain a) = none
variable_of (token escaped inner) =
    if not escaped && has_prefix (trim inner) env_prefix
    then some (trim (drop_text 4 (trim inner)))
    else none

abbrev unset_of : Environment → Option Text → List Text
unset_of env none = []
unset_of env (some name) = elim (env name) [ none ↦ name ∷ [] | some v ↦ [] ]

-- The variables that a text refers to and that are not set, in order.
unfoldable pub missing : Environment → List Piece → List Text
missing env [] = []
missing env (p ∷ ps) = unset_of env (variable_of p) ++ missing env ps

abbrev value_of : Environment → Text → Option Text → Text
value_of env text none = text
value_of env text (some name) = elim (env name) [ none ↦ [] | some v ↦ v ]

-- A token as it is written once its escape is taken away.
abbrev kept : Piece → Text
kept (plain a) = a ∷ []
kept (token escaped inner) =
    if escaped && has_prefix (trim inner) env_prefix
    then 36 ∷ 123 ∷ (trim inner ++ (125 ∷ []))
    else spelled (token escaped inner)

-- The text with the value of each variable in the place of its reference.
unfoldable pub filled : Environment → List Piece → Text
filled env [] = []
filled env (p ∷ ps) = value_of env (kept p) (variable_of p) ++ filled env ps

abbrev pub verdict : List Text → Text → Fallible (List Text) Text
verdict [] s = ok s
verdict (n ∷ ns) s = error (n ∷ ns)
