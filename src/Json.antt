-- ===== src/Json.antt =====
-- `serde_json::Value` and its accessors, as nauti-fabric/src/plan.rs uses them. The fields of an
-- object stand in the ascending order of `serde_json::Map`. A number is its `f64`.
use nauti_virtualizer.Prelude.{
  String, Bool, Option, none, some, List, [], ◌∷◌, str_eq, if◌then◌else◌,
}

module _ (F : Type 0) where
  mutual
    pub data Value : Type 0 where
      null : Value
      boolean : Bool → Value
      number : F → Value
      text : String → Value
      array : Items → Value
      object : Fields → Value

    pub data Items : Type 0 where
      nil : Items
      cons : Value → Items → Items

    pub data Fields : Type 0 where
      end : Fields
      field : String → Value → Fields → Fields

module _ {F : Type 0} where
  abbrev pub items : Items F → List (Value F)
  items nil = []
  items (cons v vs) = v ∷ items vs

  abbrev pub entries : Fields F → List (String × Value F)
  entries end = []
  entries (field k v fs) = (k, v) ∷ entries fs

  -- `map.get(key)`
  unfoldable pub get_field : String → Fields F → Option (Value F)
  get_field k end = none
  get_field k (field j v fs) = if str_eq j k then some v else get_field k fs

  unfoldable pub or_null : Option (Value F) → Value F
  or_null none = null
  or_null (some v) = v

  -- `value[key]`: null where there is no such field
  unfoldable pub at : Value F → String → Value F
  unfolding or_null get_field
  at (object fs) k = or_null (get_field k fs)
  at _ k = null

  unfoldable pub as_str : Value F → Option String
  as_str (text s) = some s
  as_str _ = none

  unfoldable pub as_bool : Value F → Option Bool
  as_bool (boolean b) = some b
  as_bool _ = none

  unfoldable pub as_f64 : Value F → Option F
  as_f64 (number x) = some x
  as_f64 _ = none

  -- `value.as_array().into_iter().flatten()`
  unfoldable pub elements : Value F → List (Value F)
  elements (array vs) = items vs
  elements _ = []

  unfoldable pub as_object : Value F → Option (Fields F)
  as_object (object fs) = some fs
  as_object _ = none
