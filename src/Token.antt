-- ===== src/Token.antt =====
-- The interpolation tokens of refRe in internal/alert/template.go and envRe in
-- internal/config/config.go, which are one regular expression: (\$?)\$\{([^}]*)\}.
use certel.Prelude.{
  ℕ, zero, suc, ◌+◌, ◌≡◌, refl, Bool, true, false, ◌&&◌, Option, none, some, List, [], ◌∷◌, ◌++◌,
  ◌==◌, if◌then◌else◌, length,
}
use certel.Prelude.Text.{Text, cut}
pub mod Laws

-- A character that no token holds, or a token: escaped or not, and what stands between its braces.
pub data Piece : Type 0 where
  plain : ℕ → Piece
  token : Bool → Text → Piece

abbrev closed : Bool → Option (Text × Text) → Option (Bool × Text)
closed escaped none = none
closed escaped (some (inner, rest)) = some (escaped, inner)

-- The token that a text starts with. The optional `$` is taken where the match goes on after it.
unfoldable pub token_at : Text → Option (Bool × Text)
unfolding cut
token_at [] = none
token_at (a ∷ []) = none
token_at (a ∷ b ∷ []) = none
token_at (a ∷ b ∷ d ∷ s) =
    if (a == 36) && ((b == 36) && (d == 123))
    then closed true (cut 125 s)
    else (if (a == 36) && (b == 123) then closed false (cut 125 (d ∷ s)) else none)

abbrev pub token_tail : Bool → Text → ℕ
token_tail escaped inner = length inner + (if escaped then 3 else 2)

-- The matches of ReplaceAllStringFunc, from left to right and without overlap, and the characters
-- between them; `skip` characters belong to the match before.
abbrev pub found : ℕ → Option (Bool × Text) → (ℕ → List Piece) → List Piece
found a none next = plain a ∷ next 0
found a (some (escaped, inner)) next = token escaped inner ∷ next (token_tail escaped inner)

unfoldable pub scan : (skip : ℕ) → Text → List Piece
scan skip [] = []
scan (suc skip) (a ∷ s) = scan skip s
scan zero (a ∷ s) = found a (token_at (a ∷ s)) (λ k. scan k s)

-- What a piece is written as.
abbrev pub spelled : Piece → Text
spelled (plain a) = a ∷ []
spelled (token true inner) = 36 ∷ 36 ∷ 123 ∷ (inner ++ (125 ∷ []))
spelled (token false inner) = 36 ∷ 123 ∷ (inner ++ (125 ∷ []))

pub data Fallible (E A : Type 0) : Type 0 where
  error : E → Fallible E A
  ok : A → Fallible E A

-- Two replacements, one after the other; `both` says which of two errors is told.
abbrev pub joined : {E : Type 0} → (E → E → E) → Fallible E Text → Fallible E Text → Fallible E Text
joined both (ok u) (ok v) = ok (u ++ v)
joined both (ok u) (error e) = error e
joined both (error e) (ok v) = error e
joined both (error e) (error f) = error (both e f)

unfoldable pub replace_pieces :
    {E : Type 0} → (E → E → E) → (Piece → Fallible E Text) → List Piece → Fallible E Text
replace_pieces both f [] = ok []
replace_pieces both f (p ∷ ps) = joined both (f p) (replace_pieces both f ps)
