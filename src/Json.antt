-- ===== src/Json.antt =====
-- `serde_json::Value` as its documentation gives it, and the accessors that the crate uses. Numbers
-- are those that `as_u64` reads.
pub mod Shapes
use aerogram.Prelude.{ℕ, Bool, Option, none, some, List, [], ◌∷◌, if◌then◌else◌, Text, text_eq}

mutual
  pub data Value : Type 0 where
    null : Value
    bool : Bool → Value
    number : ℕ → Value
    string : Text → Value
    array : Values → Value
    object : Fields → Value

  pub data Values : Type 0 where
    nil : Values
    cons : Value → Values → Values

  pub data Fields : Type 0 where
    end : Fields
    field : Text → Value → Fields → Fields

abbrev pub get_field : Text → Fields → Option Value
get_field k end = none
get_field k (field j v fs) = if text_eq j k then some v else get_field k fs

-- `Value::get` with a key: nothing, if the value is no object.
abbrev pub get : Text → Value → Option Value
get k (object fs) = get_field k fs
get k _ = none

abbrev pub as_str : Value → Option Text
as_str (string s) = some s
as_str _ = none

abbrev pub as_u64 : Value → Option ℕ
as_u64 (number n) = some n
as_u64 _ = none

-- `params.get(key).and_then(Value::as_str)`, and the same at a number.
abbrev pub get_str : Text → Value → Option Text
get_str k v = elim (get k v) [ none ↦ none | some x ↦ as_str x ]

abbrev pub get_u64 : Text → Value → Option ℕ
get_u64 k v = elim (get k v) [ none ↦ none | some x ↦ as_u64 x ]

abbrev pub from_values : Values → List Value
from_values nil = []
from_values (cons v vs) = v ∷ from_values vs

-- `Value::as_array`
abbrev pub as_array : Value → Option (List Value)
as_array (array vs) = some (from_values vs)
as_array _ = none
