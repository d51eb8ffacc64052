-- ===== src/Prelude/Assoc.antt =====
-- A Go map with text keys, as an association list: a missing key reads as `none`, and a key that is
-- written twice keeps its place. The program never depends on the order of a map's entries.
use Prim.Native.String.{String}
use mathlib.Core.Path.{◌≡◌, refl}
use mathlib.Core.Bool.{false}
use mathlib.Core.Option.{Option, none, some}
use mathlib.Core.List.{List, [], ◌∷◌}
use native.Mathlib.Omega.{arith}
use text.Mathlib.Text.{◌==◌ as str_eq}
use text.Mathlib.TextEquality.{eq_iff}
use certel.Prelude.Tests.{if◌then◌else◌, str_refl}

abbrev pub Assoc {ℓ} : Type ℓ → Type ℓ
Assoc A = List (String × A)

module _ {ℓ} {A : Type ℓ} where
  unfoldable pub lookup : String → Assoc A → Option A
  lookup k [] = none
  lookup k ((j, v) ∷ rows) = if str_eq j k then some v else lookup k rows

  unfoldable pub insert : String → A → Assoc A → Assoc A
  insert k v [] = (k, v) ∷ []
  insert k v ((j, old) ∷ rows) = if str_eq j k then (k, v) ∷ rows else (j, old) ∷ insert k v rows

  unfoldable pub without : String → Assoc A → Assoc A
  without k [] = []
  without k ((j, v) ∷ rows) =
      let rest = without k rows in if str_eq j k then rest else (j, v) ∷ rest

  pub lookup-insert :
      (k j : String) (v : A) (rows : Assoc A)
      → lookup j (insert k v rows) ≡ (if str_eq k j then some v else lookup j rows)
  unfolding lookup insert
  lookup-insert k j v [] = refl
  lookup-insert k j v ((i, old) ∷ rows) =
      ground (arith, lookup-insert k j v rows, eq_iff i j, eq_iff i k, eq_iff k j)

  pub lookup-insert_self :
      (k : String) (v : A) (rows : Assoc A) → lookup k (insert k v rows) ≡ some v
  lookup-insert_self k v rows = simp (lookup-insert, str_refl)

  pub lookup-insert_ne :
      (k j : String) (v : A) (rows : Assoc A)
      → str_eq k j ≡ false
      → lookup j (insert k v rows) ≡ lookup j rows
  lookup-insert_ne k j v rows h = rw (lookup-insert k j v rows, h)

  pub lookup-without :
      (k j : String) (rows : Assoc A)
      → lookup j (without k rows) ≡ (if str_eq k j then none else lookup j rows)
  unfolding lookup without
  lookup-without k j [] = ground arith
  lookup-without k j ((i, v) ∷ rows) =
      ground (arith, eq_iff k j, eq_iff i k, eq_iff i j, lookup-without k j rows)
