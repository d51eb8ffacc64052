-- ===== src/Config/Tree.antt =====
-- A decoded YAML value, as the bodies of a notifier hold it (`map[string]any` in
-- internal/config/config.go): the keys of a map differ from each other.
use Prim.Native.String.{String}
use certel.Prelude.{Bool, Option, none, some, List, str_eq, if◌then◌else◌}
use certel.Prelude.Int.{ℤ}
use certel.Prelude.Text.{Text}

-- `number` is a scalar that is no integer, as it is written, and `words` a Go []string.
mutual
  pub data Value : Type 0 where
    text : Text → Value
    boolean : Bool → Value
    integer : ℤ → Value
    number : Text → Value
    null : Value
    words : List Text → Value
    list : Items → Value
    dict : Fields → Value

  pub data Items : Type 0 where
    nil : Items
    cons : Value → Items → Items

  pub data Fields : Type 0 where
    end : Fields
    field : String → Value → Fields → Fields

unfoldable pub field_at : String → Fields → Option Value
field_at k end = none
field_at k (field j v rest) = if str_eq j k then some v else field_at k rest

unfoldable pub put_field : String → Value → Fields → Fields
put_field k v end = field k v end
put_field k v (field j old rest) =
    if str_eq j k then field k v rest else field j old (put_field k v rest)
