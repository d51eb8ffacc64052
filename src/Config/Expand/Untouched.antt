-- ===== src/Config/Expand/Untouched.antt =====
-- What expandEnv of internal/config/config.go leaves alone.
use certel.Prelude.{◌≡◌, refl, ap, ◌∙◌, false, List, [], ◌∷◌, ◌++◌, All}
use certel.Prelude.Text.{Text, has_prefix, trim}
use certel.Token.{Piece, plain, token, scan, spelled, ok}
use certel.Token.Laws.{spell-scan, replace_pieces-keeps}
use certel.Config.Expand.{Environment, env_prefix, expand_piece, expand_env}

-- A piece that is no token of the namespace env.
abbrev pub NoEnv : Piece → Type 0
NoEnv (plain a) = Unit
NoEnv (token escaped inner) = has_prefix (trim inner) env_prefix ≡ false

expand_piece-keeps : (env : Environment) (p : Piece) → NoEnv p → expand_piece env p ≡ ok (spelled p)
unfolding expand_piece
expand_piece-keeps env (plain a) h = refl
expand_piece-keeps env (token escaped inner) h = rw h refl

keeps_All :
    (env : Environment) (ps : List Piece)
    → All NoEnv ps
    → All (λ (p : Piece). expand_piece env p ≡ ok (spelled p)) ps
keeps_All env [] h = tt
keeps_All env (p ∷ ps) h = (expand_piece-keeps env p h.0, keeps_All env ps h.1)

-- expandEnv gives a text back as it is when no token of it is in the namespace env, so that
-- references to the alert survive the load.
pub expand_env-untouched :
    (env : Environment) (s : Text) → All NoEnv (scan 0 s) → expand_env env s ≡ ok s
unfolding expand_env
expand_env-untouched env s h =
    replace_pieces-keeps ◌++◌ (expand_piece env) (scan 0 s) (keeps_All env (scan 0 s) h)
    ∙ ap (λ (x : Text). ok x) (spell-scan s)
