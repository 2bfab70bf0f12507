-- ===== src/ToolCalls/Schema/Values.antt =====
-- ResolveReference, JsonEqual and TypeMatches of src/runtime/tool_call_parser.cpp, and the accessors of
-- json::Value in src/util/json.h.
--
-- `none` stands for the exception of std::get on a value of another type. `format` is what a stream prints
-- for a double.
use gem16gb.Prelude.{ℕ, Bool, true, false, Option, none, some, List, if◌then◌else◌}
use gem16gb.Json.Value.{
  ℤ, Value, null, bool, integer, double, string, array, object, Items, find, stringified,
}
use gem16gb.Json.Double.{as_number, double_equal}
use gem16gb.Json.Parse.{strip_prefix}
use gem16gb.Safetensors.{codes, bytes_eq}
use gem16gb.ToolCalls.Schema.{definitions_prefix}

infixl 5 ◌>>=◌
abbrev pub ◌>>=◌ {ℓ κ} : {A : Type ℓ} {B : Type κ} → Option A → (A → Option B) → Option B
none >>= next = none
some value >>= next = next value

-- Value::as_string, as_array and as_integer.
unfoldable pub as_string : Value → Option (List ℕ)
as_string (string text) = some text
as_string value = none

unfoldable pub as_array : Value → Option Items
as_array (array items) = some items
as_array value = none

unfoldable pub as_integer : Value → Option ℤ
as_integer (integer n) = some n
as_integer value = none

-- `if (!first) return false;`, and then the rest.
unfoldable pub and_also : Option Bool → Option Bool → Option Bool
and_also none later = none
and_also (some false) later = some false
and_also (some true) later = later

-- A keyword that is not there matches.
unfoldable pub if_present : (Value → Option Bool) → Option Value → Option Bool
if_present check none = some true
if_present check (some value) = check value

unfoldable pub definitions_of : Option Value → List ℕ → Option Value
unfolding find
definitions_of (some (object members)) name = find name (object members)
definitions_of definitions name = none

unfoldable pub resolve_reference : Value → List ℕ → Option Value
unfolding definitions_of strip_prefix find
resolve_reference root reference = elim (strip_prefix definitions_prefix reference) [
  | none ↦ none
  | some name ↦ definitions_of (find (codes "$defs") root) name
]

-- Both numbers are compared as doubles, all other values by their text.
abbrev pub number_or_text : (ℕ → List ℕ) → Value → Value → Option ℕ → Option ℕ → Bool
unfolding double_equal stringified bytes_eq
number_or_text format left right (some x) (some y) = double_equal x y
number_or_text format left right x y = bytes_eq (stringified format left) (stringified format right)

unfoldable pub json_equal : (ℕ → List ℕ) → Value → Value → Bool
unfolding number_or_text as_number
json_equal format left right = number_or_text format left right (as_number left) (as_number right)

abbrev pub is_null : Value → Bool
is_null null = true
is_null value = false

abbrev pub is_bool : Value → Bool
is_bool (bool b) = true
is_bool value = false

abbrev pub is_integer : Value → Bool
is_integer (integer n) = true
is_integer value = false

abbrev pub is_number : Value → Bool
is_number (integer n) = true
is_number (double bits) = true
is_number value = false

abbrev pub is_string : Value → Bool
is_string (string text) = true
is_string value = false

abbrev pub is_array : Value → Bool
is_array (array items) = true
is_array value = false

abbrev pub is_object : Value → Bool
is_object (object members) = true
is_object value = false

unfoldable pub type_matches : Value → List ℕ → Bool
unfolding bytes_eq
type_matches value type =
    if bytes_eq type (codes "null")
    then is_null value
    else if bytes_eq type (codes "boolean")
    then is_bool value
    else if bytes_eq type (codes "object")
    then is_object value
    else if bytes_eq type (codes "array")
    then is_array value
    else if bytes_eq type (codes "number")
    then is_number value
    else if bytes_eq type (codes "integer")
    then is_integer value
    else if bytes_eq type (codes "string")
    then is_string value
    else false
