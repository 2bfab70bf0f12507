-- ===== src/ToolCalls/Schema.antt =====
-- The strict tool schemas of src/runtime/tool_call_parser.cpp: IsProtocolName, IsSchemaType and
-- ValidateSchemaDefinition.
--
-- A schema is a JSON value. The path that the source puts in front of a message is left out. `fuel` is
-- 33 less the depth, so that the check of the depth is the case of no fuel.
pub mod Values
pub mod Match
pub mod Calls
pub mod Sound
pub mod Safe
pub mod Total
pub mod Generated
pub mod Served
pub mod Conforms
mod Tests
use gem16gb.Prelude.{
  ℕ, zero, suc, Bool, true, false, not, ◌&&◌, ◌||◌, Option, none, some, List, [], ◌∷◌, leb, ◌==◌,
  length, String,
}
use gem16gb.Status.{Result, ok, fail, refuse_if, ◌>>=◌, ◌>>◌, invalid_argument, unsupported}
use gem16gb.Json.Value.{
  ℤ, pos, Value, bool, integer, double, string, array, object, Items, nil, cons, Members, empty,
  entry, find,
}
use gem16gb.Json.Double.{is_finite}
use gem16gb.Json.Parse.{is_nil, strip_prefix}
use gem16gb.Safetensors.{codes, bytes_eq}
use gem16gb.ToolCalls.Arguments.{is_alnum}

-- InvalidTool.
abbrev pub invalid_tool {ℓ} : {A : Type ℓ} → String → Result A
invalid_tool message = fail invalid_argument message

-- std::set::contains.
unfoldable pub is_one_of : List ℕ → List (List ℕ) → Bool
unfolding bytes_eq
is_one_of name [] = false
is_one_of name (x ∷ names) = let rest = is_one_of name names in bytes_eq name x || rest

-- std::all_of.
unfoldable pub every : (ℕ → Bool) → List ℕ → Bool
every test [] = true
every test (c ∷ text) = let rest = every test text in test c && rest

unfoldable pub is_protocol_name : List ℕ → Bool
unfolding every
is_protocol_name name =
    not (is_nil name) && (leb (length name) 64 && every (λ c. is_alnum c || c == b'_') name)

unfoldable pub is_schema_type : List ℕ → Bool
unfolding is_one_of
is_schema_type name = is_one_of name (
    codes "null"
    ∷ codes "boolean"
    ∷ codes "object"
    ∷ codes "array"
    ∷ codes "number"
    ∷ codes "integer"
    ∷ codes "string"
    ∷ [])

abbrev pub supported_keywords : List (List ℕ)
supported_keywords =
    codes "$defs"
    ∷ codes "$ref"
    ∷ codes "additionalProperties"
    ∷ codes "allOf"
    ∷ codes "anyOf"
    ∷ codes "const"
    ∷ codes "default"
    ∷ codes "description"
    ∷ codes "enum"
    ∷ codes "exclusiveMaximum"
    ∷ codes "exclusiveMinimum"
    ∷ codes "items"
    ∷ codes "maximum"
    ∷ codes "maxItems"
    ∷ codes "maxLength"
    ∷ codes "minimum"
    ∷ codes "minItems"
    ∷ codes "minLength"
    ∷ codes "oneOf"
    ∷ codes "properties"
    ∷ codes "required"
    ∷ codes "title"
    ∷ codes "type"
    ∷ []

-- The loops: over an object, over an array, and over some keywords of a schema.
unfoldable pub each_member : (List ℕ → Value → Result (Unit {0})) → Members → Result (Unit {0})
each_member check empty = ok tt
each_member check (entry name value rest) = check name value >> each_member check rest

unfoldable pub each_item : (Value → Result (Unit {0})) → Items → Result (Unit {0})
each_item check nil = ok tt
each_item check (cons item rest) = check item >> each_item check rest

unfoldable pub each_keyword :
    (Option Value → Result (Unit {0})) → Value → List (List ℕ) → Result (Unit {0})
each_keyword check schema [] = ok tt
each_keyword check schema (keyword ∷ rest) =
    check (find keyword schema) >> each_keyword check schema rest

unfoldable pub check_supported : Bool → Members → Result (Unit {0})
unfolding each_member is_one_of
check_supported false members = ok tt
check_supported true members =
    each_member
      (λ keyword value.
        refuse_if (not (is_one_of keyword supported_keywords)) unsupported
          "uses unsupported strict-schema keyword")
      members

abbrev pub check_union_entry : Value → Result (Unit {0})
check_union_entry (string name) =
    refuse_if (not (is_schema_type name)) invalid_argument "has an invalid schema type union"
check_union_entry value = invalid_tool "has an invalid schema type union"

unfoldable pub check_type : Option Value → Result (Unit {0})
unfolding each_item is_schema_type
check_type none = ok tt
check_type (some (string name)) =
    refuse_if (not (is_schema_type name)) invalid_argument "has an unknown schema type"
check_type (some (array (cons item rest))) = each_item check_union_entry (cons item rest)
check_type (some value) = invalid_tool "type must be a string or non-empty array"

unfoldable pub check_text : Option Value → Result (Unit {0})
check_text none = ok tt
check_text (some (string text)) = ok tt
check_text (some value) = invalid_tool "must be a string"

unfoldable pub check_properties : (Value → Result (Unit {0})) → Option Value → Result (Unit {0})
unfolding each_member is_protocol_name
check_properties rec none = ok tt
check_properties rec (some (object members)) =
    each_member
      (λ name child.
        refuse_if (not (is_protocol_name name)) unsupported
          "property cannot be represented by the Gemma tool protocol"
        >> rec child)
      members
check_properties rec (some value) = invalid_tool "properties must be an object"

unfoldable pub check_required_names : List (List ℕ) → Items → Result (Unit {0})
unfolding is_protocol_name is_one_of
check_required_names seen nil = ok tt
check_required_names seen (cons (string name) rest) =
    refuse_if (not (is_protocol_name name)) invalid_argument
      "required entries must be protocol-safe names"
    >> (refuse_if (is_one_of name seen) invalid_argument "required entries must be unique"
        >> check_required_names (name ∷ seen) rest)
check_required_names seen (cons value rest) =
    invalid_tool "required entries must be protocol-safe names"

unfoldable pub check_required : Option Value → Result (Unit {0})
unfolding check_required_names
check_required none = ok tt
check_required (some (array items)) = check_required_names [] items
check_required (some value) = invalid_tool "required must be an array"

unfoldable pub check_additional : (Value → Result (Unit {0})) → Option Value → Result (Unit {0})
check_additional rec none = ok tt
check_additional rec (some (bool b)) = ok tt
check_additional rec (some value) = rec value

unfoldable pub check_items : (Value → Result (Unit {0})) → Option Value → Result (Unit {0})
check_items rec none = ok tt
check_items rec (some value) = rec value

unfoldable pub check_alternatives : (Value → Result (Unit {0})) → Option Value → Result (Unit {0})
unfolding each_item
check_alternatives rec none = ok tt
check_alternatives rec (some (array (cons item rest))) = each_item rec (cons item rest)
check_alternatives rec (some value) = invalid_tool "must be a non-empty array"

unfoldable pub check_definitions : (Value → Result (Unit {0})) → Option Value → Result (Unit {0})
unfolding each_member
check_definitions rec none = ok tt
check_definitions rec (some (object members)) = each_member (λ name child. rec child) members
check_definitions rec (some value) = invalid_tool "$defs must be an object"

abbrev pub definitions_prefix : List ℕ
definitions_prefix = codes "#/$defs/"

-- A reference, and whether it starts with the prefix.
abbrev pub starts_with : Option (List ℕ) → Bool
starts_with none = false
starts_with (some rest) = true

unfoldable pub check_reference : Option Value → Result (Unit {0})
unfolding strip_prefix
check_reference none = ok tt
check_reference (some (string text)) =
    refuse_if (not (starts_with (strip_prefix definitions_prefix text))) unsupported
      "supports only local #/$defs references"
check_reference (some value) = fail unsupported "supports only local #/$defs references"

unfoldable pub check_enumeration : Option Value → Result (Unit {0})
check_enumeration none = ok tt
check_enumeration (some (array (cons item rest))) = ok tt
check_enumeration (some value) = invalid_tool "enum must be a non-empty array"

-- An int64_t is a finite double.
unfoldable pub check_bound : Option Value → Result (Unit {0})
unfolding is_finite
check_bound none = ok tt
check_bound (some (integer n)) = ok tt
check_bound (some (double bits)) =
    refuse_if (not (is_finite bits)) invalid_argument "must be finite numeric data"
check_bound (some value) = invalid_tool "must be finite numeric data"

unfoldable pub check_length : Option Value → Result (Unit {0})
check_length none = ok tt
check_length (some (integer (pos n))) = ok tt
check_length (some value) = invalid_tool "must be a non-negative integer"

abbrev pub bound_keywords : List (List ℕ)
bound_keywords =
    codes "minimum" ∷ codes "maximum" ∷ codes "exclusiveMinimum" ∷ codes "exclusiveMaximum" ∷ []

abbrev pub length_keywords : List (List ℕ)
length_keywords = codes "minLength" ∷ codes "maxLength" ∷ codes "minItems" ∷ codes "maxItems" ∷ []

abbrev pub alternative_keywords : List (List ℕ)
alternative_keywords = codes "anyOf" ∷ codes "oneOf" ∷ codes "allOf" ∷ []

-- ValidateSchemaDefinition.
unfoldable pub validate_schema : Bool → ℕ → Value → Result (Unit {0})
unfolding check_supported check_type check_text check_properties check_required check_additional
    check_items check_alternatives check_definitions check_reference check_enumeration check_bound
    check_length each_keyword find
validate_schema strict zero (object members) = invalid_tool "exceeds the schema depth limit"
validate_schema strict (suc fuel) (object members) = do
  check_supported strict members
  check_type (find (codes "type") (object members))
  each_keyword check_text (object members) (codes "description" ∷ codes "title" ∷ [])
  check_properties (validate_schema strict fuel) (find (codes "properties") (object members))
  check_required (find (codes "required") (object members))
  check_additional (validate_schema strict fuel)
      (find (codes "additionalProperties") (object members))
  check_items (validate_schema strict fuel) (find (codes "items") (object members))
  each_keyword (check_alternatives (validate_schema strict fuel)) (object members)
      alternative_keywords
  check_definitions (validate_schema strict fuel) (find (codes "$defs") (object members))
  check_reference (find (codes "$ref") (object members))
  check_enumeration (find (codes "enum") (object members))
  each_keyword check_bound (object members) bound_keywords
  each_keyword check_length (object members) length_keywords
validate_schema strict fuel value = invalid_tool "must be a JSON Schema object"
