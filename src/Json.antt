-- ===== src/Json.antt =====
-- `serde_json::Value` as its documentation has it, with the reads that the translators use. A number
-- that is no `u64` keeps its text. Objects are association lists; only reads by key are modelled,
-- so the order in which a printer writes the fields plays no part.
use xrouter.Common.{ℕ, Bool, Option, none, some, List, [], ◌∷◌, Text, text_eq, if◌then◌else◌}

mutual
  pub data Value : Type 0 where
    null : Value
    bool : Bool → Value
    number : ℕ → Value
    other_number : Text → Value
    string : Text → Value
    array : Items → Value
    object : Fields → Value

  pub data Items : Type 0 where
    nil : Items
    cons : Value → Items → Items

  pub data Fields : Type 0 where
    end : Fields
    field : Text → Value → Fields → Fields

abbrev pub to_list : Items → List Value
to_list nil = []
to_list (cons v vs) = v ∷ to_list vs

abbrev pub of_list : List Value → Items
of_list [] = nil
of_list (v ∷ vs) = cons v (of_list vs)

-- `json!({ … })` with distinct keys.
abbrev pub of_fields : List (Text × Value) → Fields
of_fields [] = end
of_fields ((k, v) ∷ fs) = field k v (of_fields fs)

abbrev pub obj : List (Text × Value) → Value
obj fs = object (of_fields fs)

abbrev pub arr : List Value → Value
arr vs = array (of_list vs)

unfoldable pub find_field : Fields → Text → Option Value
find_field end key = none
find_field (field k v fs) key = if text_eq k key then some v else find_field fs key

-- `value.get(key)`
abbrev pub get : Value → Text → Option Value
get (object fs) key = find_field fs key
get v key = none

-- `o.and_then(|v| v.get(key))`
abbrev pub get_in : Option Value → Text → Option Value
get_in none key = none
get_in (some v) key = get v key

abbrev pub as_str : Option Value → Option Text
as_str (some (string s)) = some s
as_str v = none

abbrev pub as_u64 : Option Value → Option ℕ
as_u64 (some (number n)) = some n
as_u64 v = none

abbrev pub as_bool : Option Value → Option Bool
as_bool (some (bool b)) = some b
as_bool v = none

abbrev pub as_array : Option Value → Option (List Value)
as_array (some (array vs)) = some (to_list vs)
as_array v = none

-- `as_array().and_then(|a| a.first())`
abbrev pub first : Option (List Value) → Option Value
first none = none
first (some []) = none
first (some (v ∷ vs)) = some v

unfoldable pub set_field : Fields → Text → Value → Fields
set_field end key v = field key v end
set_field (field k w fs) key v =
    if text_eq k key then field key v fs else field k w (set_field fs key v)

-- `out[key] = v`: a `null` becomes an object, and any other value panics; the sources index objects
-- only, and so does the model.
abbrev pub put : Value → Text → Value → Value
put (object fs) key v = object (set_field fs key v)
put w key v = w
