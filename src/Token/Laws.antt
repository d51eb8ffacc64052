-- ===== src/Token/Laws.antt =====
-- Splitting a text into tokens loses nothing, and a replacement that keeps every piece keeps the text.
use mathlib.Core.List.{append_assoc}
use certel.Prelude.{
  ℕ, zero, suc, ◌+◌, ◌≡◌, refl, sym, ap, ◌∙◌, subst, arith, Bool, true, false, Option, none, some,
  List, [], ◌∷◌, ◌++◌, ◌&&◌, ◌==◌, if◌then◌else◌, length, All, length-append,
}
use certel.Prelude.Text.{Text, cut, before_first, drop_text}
use certel.Token.{
  Piece, token, token_at, token_tail, found, scan, spelled, Fallible, ok, replace_pieces, closed,
}

-- The texts of all pieces, in order.
unfoldable pub spell : List Piece → Text
spell [] = []
spell (p ∷ ps) = spelled p ++ spell ps

abbrev CutAt : ℕ → Text → Option (Text × Text) → Type 0
CutAt b s none = Unit
CutAt b s (some (u, v)) = s ≡ u ++ (b ∷ v)

before_first-CutAt :
    (a b : ℕ) (s : Text) (o : Option (Text × Text))
    → CutAt b s o
    → CutAt b (a ∷ s) (before_first a o)
before_first-CutAt a b s none h = tt
before_first-CutAt a b s (some (u, v)) h = ap (λ (x : Text). a ∷ x) h

cut-CutAt : (b : ℕ) (s : Text) → CutAt b s (cut b s)
unfolding cut
cut-CutAt b [] = tt
cut-CutAt b (a ∷ s) = pick (cut-CutAt b s) (a == b) refl
  where
    pick :
        CutAt b s (cut b s)
        → (t : Bool) → (a == b) ≡ t
        → CutAt b (a ∷ s) (if t then some ([], s) else before_first a (cut b s))
    pick ih true h = let e : a ≡ b = ground (arith, h) in ap (λ (x : ℕ). x ∷ s) e
    pick ih false h = before_first-CutAt a b s (cut b s) ih

abbrev TokenAt : Text → Option (Bool × Text) → Type 0
TokenAt s none = Unit
TokenAt s (some (escaped, inner)) = (rest : Text) × (s ≡ spelled (token escaped inner) ++ rest)

closed-TokenAt :
    (escaped : Bool) (s t : Text) (o : Option (Text × Text))
    → ((inner rest : Text) → t ≡ inner ++ (125 ∷ rest) → s ≡ spelled (token escaped inner) ++ rest)
    → CutAt 125 t o
    → TokenAt s (closed escaped o)
closed-TokenAt escaped s t none f h = tt
closed-TokenAt escaped s t (some (inner, rest)) f h = (rest, f inner rest h)

token_at-TokenAt : (s : Text) → TokenAt s (token_at s)
unfolding token_at
token_at-TokenAt [] = tt
token_at-TokenAt (a ∷ []) = tt
token_at-TokenAt (a ∷ b ∷ []) = tt
token_at-TokenAt (a ∷ b ∷ d ∷ s) =
    pick ((a == 36) && ((b == 36) && (d == 123))) ((a == 36) && (b == 123)) refl refl
  where
    close : (inner rest : Text) → (inner ++ (125 ∷ [])) ++ rest ≡ inner ++ (125 ∷ rest)
    close inner rest = append_assoc inner (125 ∷ []) rest

    pick :
        (t u : Bool)
        → ((a == 36) && ((b == 36) && (d == 123))) ≡ t
        → ((a == 36) && (b == 123)) ≡ u
        → TokenAt (a ∷ b ∷ d ∷ s) (
            if t
            then closed true (cut 125 s)
            else (if u then closed false (cut 125 (d ∷ s)) else none))
    pick true u h k =
        let p : a ≡ 36 = ground (arith, h) in
        let q : b ≡ 36 = ground (arith, h) in
        let r : d ≡ 123 = ground (arith, h) in
        closed-TokenAt true (a ∷ b ∷ d ∷ s) s (cut 125 s)
          (λ inner rest e. cc (p, q, r, e, close inner rest)) (cut-CutAt 125 s)
    pick false true h k =
        let p : a ≡ 36 = ground (arith, k) in
        let q : b ≡ 123 = ground (arith, k) in
        closed-TokenAt false (a ∷ b ∷ d ∷ s) (d ∷ s) (cut 125 (d ∷ s))
          (λ inner rest e. cc (p, q, e, close inner rest)) (cut-CutAt 125 (d ∷ s))
    pick false false h k = tt

drop_text-append : (n : ℕ) (s t : Text) → n ≡ length s → drop_text n (s ++ t) ≡ t
drop_text-append zero [] t h = refl
drop_text-append zero (a ∷ s) t h = let no : ⊥ = omega (arith, h) in elim no [ ]
drop_text-append (suc n) [] t h = let no : ⊥ = omega (arith, h) in elim no [ ]
drop_text-append (suc n) (a ∷ s) t h = drop_text-append n s t (omega (arith, h))

drop_text-zero : (s : Text) → drop_text 0 s ≡ s
drop_text-zero s = refl

-- What is left of `a ∷ s` after the token that it is.
after_token :
    (a : ℕ) (s inner rest : Text) (escaped : Bool)
    → a ∷ s ≡ spelled (token escaped inner) ++ rest
    → drop_text (token_tail escaped inner) s ≡ rest
after_token a s inner rest true h =
    let e : s ≡ (36 ∷ 123 ∷ (inner ++ (125 ∷ []))) ++ rest = ap (drop_text 1) h in
    let size = length-append inner (125 ∷ []) in
    subst (λ (x : Text). drop_text (length inner + 3) x ≡ rest) (sym e)
      (drop_text-append (length inner + 3) (36 ∷ 123 ∷ (inner ++ (125 ∷ []))) rest
        (omega (arith, size)))
after_token a s inner rest false h =
    let e : s ≡ (123 ∷ (inner ++ (125 ∷ []))) ++ rest = ap (drop_text 1) h in
    let size = length-append inner (125 ∷ []) in
    subst (λ (x : Text). drop_text (length inner + 2) x ≡ rest) (sym e)
      (drop_text-append (length inner + 2) (123 ∷ (inner ++ (125 ∷ []))) rest (omega (arith, size)))

spell-found :
    (a : ℕ) (s : Text) (o : Option (Bool × Text))
    → TokenAt (a ∷ s) o
    → ((k : ℕ) → spell (scan k s) ≡ drop_text k s)
    → spell (found a o (λ k. scan k s)) ≡ a ∷ s
unfolding spell
spell-found a s none h next = ap (λ (x : Text). a ∷ x) (next 0)
spell-found a s (some (escaped, inner)) (rest, e) next =
    let f = spelled (token escaped inner) in
    ap (λ (x : Text). f ++ x)
      (next (token_tail escaped inner) ∙ after_token a s inner rest escaped e)
    ∙ sym e

spell-scan_from : (s : Text) (k : ℕ) → spell (scan k s) ≡ drop_text k s
unfolding spell scan
spell-scan_from [] zero = refl
spell-scan_from [] (suc k) = refl
spell-scan_from (a ∷ s) (suc k) = spell-scan_from s k
spell-scan_from (a ∷ s) zero =
    spell-found a s (token_at (a ∷ s)) (token_at-TokenAt (a ∷ s)) (spell-scan_from s)

-- The tokens of a text and the characters between them, written one after the other, are the
-- text.
pub spell-scan : (s : Text) → spell (scan 0 s) ≡ s
spell-scan s = spell-scan_from s 0

-- A replacement that spells every piece as it stands gives the text back.
pub replace_pieces-keeps :
    {E : Type 0} (both : E → E → E) (f : Piece → Fallible E Text) (ps : List Piece)
    → All (λ (p : Piece). f p ≡ ok (spelled p)) ps
    → replace_pieces both f ps ≡ ok (spell ps)
unfolding replace_pieces spell
replace_pieces-keeps both f [] h = refl
replace_pieces-keeps both f (p ∷ ps) h = rw (h.0, replace_pieces-keeps both f ps h.1) refl
