-- ===== src/Alert/Template/Merge.antt =====
-- What deepMerge of internal/alert/template.go gives at each key.
use certel.Prelude.{
  ◌≡◌, refl, subst, arith, Option, none, some, String, str_eq, eq_iff, ◌∙◌, if◌then◌else◌,
  Bool-cases, inl, inr,
}
use certel.Config.Tree.{
  Value, text, boolean, integer, number, null, words, list, dict, Fields, end, field, field_at,
  put_field,
}
use certel.Alert.Template.Render.{deep_merge, overlay}

-- A Go map has each key once.
abbrev pub DistinctKeys : Fields → Type 0
DistinctKeys end = Unit
DistinctKeys (field k v rest) = (field_at k rest ≡ none) × DistinctKeys rest

field_at-put_field :
    (k j : String) (v : Value) (fs : Fields)
    → field_at j (put_field k v fs) ≡ (if str_eq k j then some v else field_at j fs)
unfolding field_at put_field
field_at-put_field k j v end = refl
field_at-put_field k j v (field i w rest) =
    ground (arith, field_at-put_field k j v rest, eq_iff i j, eq_iff i k, eq_iff k j)

abbrev overlaid : Option Value → Option Value → Option Value
overlaid old none = old
overlaid old (some v) = some (overlay v old)

field_at-overlaid :
    (base over : Fields) (k : String)
    → DistinctKeys over
    → field_at k (deep_merge base over) ≡ overlaid (field_at k base) (field_at k over)
unfolding deep_merge field_at
field_at-overlaid base end k h = refl
field_at-overlaid base (field j v rest) k (fresh, h) =
    let ih = field_at-overlaid (put_field j (overlay v (field_at j base)) base) rest k h in
    let put = field_at-put_field j k (overlay v (field_at j base)) base in
    elim (Bool-cases (str_eq j k)) [
      | inl e ↦
          let same : j ≡ k = (eq_iff j k).0 e in
          let gone = subst (λ (x : String). field_at x rest ≡ none) same fresh in
          rw (ih, put, e, gone, same)
      | inr e ↦ rw (ih, put, e)
    ]

-- What is expected at a key: the value of the only map that has it; the merge of both values where
-- they are maps; and the new value elsewhere.
abbrev pub merged_at : Option Value → Option Value → Option Value
merged_at none old = old
merged_at (some (dict over)) (some (dict base)) = some (dict (deep_merge base over))
merged_at (some v) old = some v

some-overlay : (v : Value) (old : Option Value) → some (overlay v old) ≡ merged_at (some v) old
unfolding overlay
some-overlay (text s) old = refl
some-overlay (boolean b) old = refl
some-overlay (integer n) old = refl
some-overlay (number s) old = refl
some-overlay null old = refl
some-overlay (words ss) old = refl
some-overlay (list xs) old = refl
some-overlay (dict over) none = refl
some-overlay (dict over) (some (dict base)) = refl
some-overlay (dict over) (some (text s)) = refl
some-overlay (dict over) (some (boolean b)) = refl
some-overlay (dict over) (some (integer n)) = refl
some-overlay (dict over) (some (number s)) = refl
some-overlay (dict over) (some null) = refl
some-overlay (dict over) (some (words ss)) = refl
some-overlay (dict over) (some (list xs)) = refl

-- Where the overlay has each key once, a merge has at a key of the overlay the merge of both
-- values where both are maps, and the value of the overlay otherwise; at any other key it has
-- what the base has.
pub field_at-deep_merge :
    (base over : Fields) (k : String)
    → DistinctKeys over
    → field_at k (deep_merge base over) ≡ merged_at (field_at k over) (field_at k base)
field_at-deep_merge base over k h = field_at-overlaid base over k h ∙ pick (field_at k over)
  where
    pick : (o : Option Value) → overlaid (field_at k base) o ≡ merged_at o (field_at k base)
    pick none = refl
    pick (some v) = some-overlay v (field_at k base)
