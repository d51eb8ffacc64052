-- ===== src/Alert/Template/Renders/Substitution.antt =====
-- A text substitutes alike with two ways to resolve its references: substitute of
-- internal/alert/template.go.
use certel.Prelude.{Bool, true, false, Option, none, some, List, [], ◌∷◌, ◌++◌, if◌then◌else◌}
use certel.Prelude.Text.{Text, eq_text, trim}
use certel.Token.{Piece, plain, token, scan, spelled, Fallible, error, ok, joined, replace_pieces}
use certel.Alert.Template.Times.{TemplateError}
use certel.Alert.Template.Body.{
  in_namespace, cut_namespace, last_error, substitute_piece, substitute,
}
use certel.Alert.Template.Renders.Fields.{IsOk}

-- Substitution, with two ways to resolve a reference.
module _ (f g : Text → Fallible TemplateError Text)
    (fg : (s : Text) → IsOk (f s) → IsOk (g s)) where
  in_namespace-IsOk :
      (ns inner : Text) (escaped : Bool) (o : Option (Text × Text))
      → IsOk (in_namespace ns f escaped inner o)
      → IsOk (in_namespace ns g escaped inner o)
  in_namespace-IsOk ns inner escaped none h = tt
  in_namespace-IsOk ns inner escaped (some (name, rest)) h = pick (eq_text name ns) escaped h
    where
      pick :
          (b d : Bool)
          → IsOk (
              if b
              then (if d then ok (36 ∷ 123 ∷ (trim inner ++ (125 ∷ []))) else f rest)
              else ok (spelled (token escaped inner)))
          → IsOk (
              if b
              then (if d then ok (36 ∷ 123 ∷ (trim inner ++ (125 ∷ []))) else g rest)
              else ok (spelled (token escaped inner)))
      pick true true k = tt
      pick true false k = fg rest k
      pick false d k = tt

  substitute_piece-IsOk :
      (ns : Text) (p : Piece) → IsOk (substitute_piece ns f p) → IsOk (substitute_piece ns g p)
  unfolding substitute_piece
  substitute_piece-IsOk ns (plain a) h = tt
  substitute_piece-IsOk ns (token escaped inner) h =
      in_namespace-IsOk ns inner escaped (cut_namespace inner) h

  joined-IsOk :
      (r s r' s' : Fallible TemplateError Text)
      → (IsOk r → IsOk r')
      → (IsOk s → IsOk s')
      → IsOk (joined last_error r s)
      → IsOk (joined last_error r' s')
  joined-IsOk (error e) (error d) r' s' h k i = elim i [ ]
  joined-IsOk (error e) (ok v) r' s' h k i = elim i [ ]
  joined-IsOk (ok u) (error d) r' s' h k i = elim i [ ]
  joined-IsOk (ok u) (ok v) (ok u') (ok v') h k i = tt
  joined-IsOk (ok u) (ok v) (error e) s' h k i = elim (h tt) [ ]
  joined-IsOk (ok u) (ok v) (ok u') (error e) h k i = elim (k tt) [ ]

  replaced-IsOk :
      (ns : Text) (ps : List Piece)
      → IsOk (replace_pieces last_error (substitute_piece ns f) ps)
      → IsOk (replace_pieces last_error (substitute_piece ns g) ps)
  unfolding replace_pieces
  replaced-IsOk ns [] h = tt
  replaced-IsOk ns (p ∷ ps) h =
      joined-IsOk _ _ _ _ (substitute_piece-IsOk ns p) (replaced-IsOk ns ps) h

  pub substitute-IsOk : (s ns : Text) → IsOk (substitute s ns f) → IsOk (substitute s ns g)
  unfolding substitute
  substitute-IsOk s ns h = replaced-IsOk ns (scan 0 s) h
