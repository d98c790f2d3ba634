-- ===== src/Json/Shapes.antt =====
-- What a JSON value may look like: an independent description of the answers that a caller reads.
use aerogram.Prelude.{
  Bool, true, false, ◌&&◌, ◌||◌, is_some, any, none, some, List, [], ◌∷◌, Text, text_eq,
}
use aerogram.Json.{Value, bool, object, Fields, end, field, as_str, as_u64, as_array, get}

mutual
  pub data Shape : Type 0 where
    text amount flag : Shape
    one_of : List Text → Shape
    list_of : Shape → Shape
    either : Shape → Shape → Shape
    record_of : FieldShapes → Shape

  -- The fields of an object: those that it needs and those that it may have.
  pub data FieldShapes : Type 0 where
    no_more : FieldShapes
    needs may : Text → Shape → FieldShapes → FieldShapes

abbrev pub is_bool : Value → Bool
is_bool (bool b) = true
is_bool _ = false

abbrev pub every : (Value → Bool) → List Value → Bool
every p [] = true
every p (v ∷ vs) = let rest = every p vs in p v && rest

abbrev pub has_name : Text → FieldShapes → Bool
has_name k no_more = false
has_name k (needs j s more) = let rest = has_name k more in text_eq j k || rest
has_name k (may j s more) = let rest = has_name k more in text_eq j k || rest

abbrev pub all_named : FieldShapes → Fields → Bool
all_named shapes end = true
all_named shapes (field k v fs) = let rest = all_named shapes fs in has_name k shapes && rest

-- An object has no other fields than those that its shape names.
abbrev pub no_others : FieldShapes → Value → Bool
no_others shapes (object fs) = all_named shapes fs
no_others shapes _ = false

unfoldable mutual
  pub fits : Shape → Value → Bool
  fits text v = is_some (as_str v)
  fits amount v = is_some (as_u64 v)
  fits flag v = is_bool v
  fits (one_of ts) v = elim (as_str v) [ none ↦ false | some s ↦ any (λ t. text_eq s t) ts ]
  fits (list_of s) v = elim (as_array v) [ none ↦ false | some vs ↦ every (fits s) vs ]
  fits (either a b) v = fits a v || fits b v
  fits (record_of shapes) v = fits_fields shapes v && no_others shapes v

  pub fits_fields : FieldShapes → Value → Bool
  fits_fields no_more v = true
  fits_fields (needs k s more) v = elim (get k v) [
    | none ↦ false
    | some x ↦ fits s x && fits_fields more v
  ]
  fits_fields (may k s more) v = elim (get k v) [
    | none ↦ fits_fields more v
    | some x ↦ fits s x && fits_fields more v
  ]
