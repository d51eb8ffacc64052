-- ===== src/Prelude/Text.antt =====
-- Texts as lists of numbers, for the code that walks them: bytes on a connection, code points in a
-- template. The functions are those of Go's package strings that the program calls.
use Prim.Native.Nat.{◌+◌, ◌/◌, ◌%◌, ℕ, zero, suc}
use Prim.Native.Char.{code}
use Prim.Native.String.{String}
use mathlib.Core.Path.{◌≡◌, refl}
use mathlib.Core.Bool.{Bool, true, false, ◌&&◌, ◌||◌}
use mathlib.Core.Option.{Option, none, some}
use mathlib.Core.List.{List, [], ◌∷◌, ◌++◌}
use native.Mathlib.Omega.{arith}
use certel.Prelude.Tests.{ltb, leb, ◌==◌, if◌then◌else◌}

abbrev pub Text : Type 0
Text = List ℕ

-- The code points of a text: its bytes, if it is ASCII.
abbrev pub codes : String → Text
codes String.[] = []
codes (String.◌∷◌ c s) = code c ∷ codes s

unfoldable pub eq_text : Text → Text → Bool
eq_text [] [] = true
eq_text [] (b ∷ t) = false
eq_text (a ∷ s) [] = false
eq_text (a ∷ s) (b ∷ t) = (a == b) && eq_text s t

pub and_parts : (p q : Bool) → (p && q) ≡ true → (p ≡ true) × (q ≡ true)
and_parts true q h = (refl, h)
and_parts false q h = cc

equal_numbers : (a b : ℕ) → (a == b) ≡ true → a ≡ b
equal_numbers a b h = ground arith

pub eq_text_sound : (s t : Text) → eq_text s t ≡ true → s ≡ t
unfolding eq_text
eq_text_sound [] [] h = refl
eq_text_sound [] (b ∷ t) h = cc
eq_text_sound (a ∷ s) [] h = cc
eq_text_sound (a ∷ s) (b ∷ t) h =
    let parts = and_parts (a == b) (eq_text s t) h in
    cc (equal_numbers a b parts.0, eq_text_sound s t parts.1)

pub eq_text_refl : (s : Text) → eq_text s s ≡ true
unfolding eq_text
eq_text_refl [] = refl
eq_text_refl (a ∷ s) = ground (arith, eq_text_refl s)

-- strings.HasPrefix, the text first.
unfoldable pub has_prefix : Text → Text → Bool
has_prefix s [] = true
has_prefix [] (b ∷ t) = false
has_prefix (a ∷ s) (b ∷ t) = (a == b) && has_prefix s t

-- strings.Contains.
unfoldable pub contains_text : Text → Text → Bool
unfolding has_prefix
contains_text [] t = has_prefix [] t
contains_text (a ∷ s) t = has_prefix (a ∷ s) t || contains_text s t

-- The text before and the text after the first `b`.
abbrev pub before_first : ℕ → Option (Text × Text) → Option (Text × Text)
before_first a none = none
before_first a (some (s, t)) = some (a ∷ s, t)

unfoldable pub cut : ℕ → Text → Option (Text × Text)
cut b [] = none
cut b (a ∷ s) = let rest = cut b s in if a == b then some ([], s) else before_first a rest

-- strings.Join.
unfoldable pub join_texts : Text → List Text → Text
join_texts between [] = []
join_texts between (s ∷ []) = s
join_texts between (s ∷ t ∷ rest) = s ++ between ++ join_texts between (t ∷ rest)

-- strings.TrimSpace. `width s` is the length of the white space that `s` starts with, 0 if none.
module _ (width : Text → ℕ) where
  unfoldable pub trim_left : ℕ → Text → Text
  trim_left skip [] = []
  trim_left (suc skip) (a ∷ s) = trim_left skip s
  trim_left zero (a ∷ s) = elim (width (a ∷ s)) [ zero ↦ a ∷ s | suc skip ↦ trim_left skip s ]

  unfoldable pub is_blank : ℕ → Text → Bool
  is_blank skip [] = true
  is_blank (suc skip) (a ∷ s) = is_blank skip s
  is_blank zero (a ∷ s) = elim (width (a ∷ s)) [ zero ↦ false | suc skip ↦ is_blank skip s ]

  unfoldable pub trim_right : Text → Text
  unfolding is_blank
  trim_right [] = []
  trim_right (a ∷ s) = let rest = trim_right s in if is_blank zero (a ∷ s) then [] else a ∷ rest

  unfoldable pub trim_space : Text → Text
  unfolding trim_left trim_right
  trim_space s = trim_right (trim_left zero s)

-- The six ASCII characters that unicode.IsSpace accepts.
abbrev pub is_ascii_space : ℕ → Bool
is_ascii_space a = (leb 9 a && leb a 13) || (a == 32)

-- unicode.IsSpace, of a code point: the white space that a text of code points starts with.
abbrev pub is_space : ℕ → Bool
is_space a =
    is_ascii_space a
    || (a == 133)
    || (a == 160)
    || (a == 5760)
    || (leb 8192 a && leb a 8202)
    || (a == 8232)
    || (a == 8233)
    || (a == 8239)
    || (a == 8287)
    || (a == 12288)

abbrev pub space_width : Text → ℕ
space_width [] = 0
space_width (a ∷ s) = if is_space a then 1 else 0

unfoldable pub trim : Text → Text
unfolding trim_space
trim s = trim_space space_width s

-- The text after its first `n` characters.
abbrev pub drop_text : ℕ → Text → Text
drop_text zero s = s
drop_text (suc n) [] = []
drop_text (suc n) (a ∷ s) = drop_text n s

-- strconv.Itoa, of a number that is not negative: the digits, by fuel above the number.
unfoldable pub digits : ℕ → ℕ → Text
digits zero n = []
digits (suc fuel) n = elim (ltb n 10) [
  | true ↦ (48 + n) ∷ []
  | false ↦ digits fuel (n / 10) ++ ((48 + n % 10) ∷ [])
]
