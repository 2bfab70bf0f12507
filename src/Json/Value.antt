-- ===== src/Json/Value.antt =====
-- json::Value of src/util/json.h, and its printer, AppendStringified and Stringify of
-- src/util/json.cpp.
--
-- A string is the list of its bytes. A double is its 64-bit pattern: what the parser and the printer do with
-- one is left to strtod and to the stream formatter, which are arguments. A std::map is a list of its
-- entries in the order of their keys.
pub mod Order
pub mod Numbers
pub mod Exact
use gem16gb.Prelude.{
  ℕ, zero, suc, ◌+◌, ◌-◌, ◌*◌, ◌/◌, ◌%◌, Bool, true, false, Option, none, some, List, [], ◌∷◌, ◌++◌,
  ltb, ◌==◌, if◌then◌else◌, length,
}
use gem16gb.Json.Escape.{quote}

-- int64_t: `pos n` is n, and `negsuc n` is -(n + 1).
pub data ℤ : Type 0 where
  pos negsuc : ℕ → ℤ

mutual
  pub data Value : Type 0 where
    null : Value
    bool : Bool → Value
    integer : ℤ → Value
    double : ℕ → Value
    string : List ℕ → Value
    array : Items → Value
    object : Members → Value

  pub data Items : Type 0 where
    nil : Items
    cons : Value → Items → Items

  pub data Members : Type 0 where
    empty : Members
    entry : List ℕ → Value → Members → Members

-- The order of std::string: by bytes, a prefix first.
unfoldable pub key_less : List ℕ → List ℕ → Bool
key_less left [] = false
key_less [] (y ∷ right) = true
key_less (x ∷ left) (y ∷ right) =
    let rest = key_less left right in if ltb x y then true else if ltb y x then false else rest

-- std::map::emplace; `none` if the key is there already.
unfoldable pub emplace : List ℕ → Value → Members → Option Members
unfolding key_less
emplace key value empty = some (entry key value empty)
emplace key value (entry key' value' rest) =
    let further : Option Members = elim (emplace key value rest) [
      | none ↦ none
      | some more ↦ some (entry key' value' more)
    ] in
    if key_less key' key
    then further
    else if key_less key key'
    then some (entry key value (entry key' value' rest))
    else none

-- Value::find, on an object.
unfoldable pub find_member : List ℕ → Members → Option Value
unfolding key_less
find_member key empty = none
find_member key (entry key' value rest) =
    let further = find_member key rest in
    if key_less key' key then further else if key_less key key' then none else some value

unfoldable pub find : List ℕ → Value → Option Value
unfolding find_member
find key (object members) = find_member key members
find key value = none

-- std::to_string: the last digit first. An int64_t has at most 19 digits.
unfoldable pub decimal_chars : ℕ → ℕ → List ℕ → List ℕ
decimal_chars zero value digits = digits
decimal_chars (suc fuel) value digits =
    let more = decimal_chars fuel (value / 10) ((b'0' + value % 10) ∷ digits) in
    if ltb value 10 then (b'0' + value) ∷ digits else more

unfoldable pub int_chars : ℤ → List ℕ
unfolding decimal_chars
int_chars (pos n) = decimal_chars 20 n []
int_chars (negsuc n) = b'-' ∷ decimal_chars 20 (suc n) []

abbrev pub null_text : List ℕ
null_text = b'n' ∷ b'u' ∷ b'l' ∷ b'l' ∷ []

abbrev pub true_text : List ℕ
true_text = b't' ∷ b'r' ∷ b'u' ∷ b'e' ∷ []

abbrev pub false_text : List ℕ
false_text = b'f' ∷ b'a' ∷ b'l' ∷ b's' ∷ b'e' ∷ []

-- `if (!first) output.push_back(',');`
abbrev pub comma : Bool → List ℕ
comma true = []
comma false = b',' ∷ []

-- AppendStringified: what is appended. `format` is what the stream prints for a double.
unfoldable mutual
  unfolding int_chars quote

  pub stringified : (ℕ → List ℕ) → Value → List ℕ
  stringified format null = null_text
  stringified format (bool true) = true_text
  stringified format (bool false) = false_text
  stringified format (integer n) = int_chars n
  stringified format (double bits) = format bits
  stringified format (string text) = quote text
  stringified format (array items) = b'[' ∷ (stringified_items format true items ++ b']' ∷ [])
  stringified format (object members) =
      b'{' ∷ (stringified_members format true members ++ b'}' ∷ [])

  pub stringified_items : (ℕ → List ℕ) → Bool → Items → List ℕ
  stringified_items format first nil = []
  stringified_items format first (cons item items) =
      comma first ++ (stringified format item ++ stringified_items format false items)

  pub stringified_members : (ℕ → List ℕ) → Bool → Members → List ℕ
  stringified_members format first empty = []
  stringified_members format first (entry key item members) =
      comma first
      ++ (quote key ++ b':' ∷ (stringified format item ++ stringified_members format false members))
