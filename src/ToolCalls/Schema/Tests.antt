-- ===== src/ToolCalls/Schema/Tests.antt =====
-- Runs of the checks of src/runtime/tool_call_parser.cpp on a tool with a strict schema, and the theorems
-- at these runs.
use gem16gb.Prelude.{false, ℕ, ◌+◌, ◌*◌, ◌^◌, ◌≡◌, refl, true, Option, none, some, List, [], ◌∷◌}
use gem16gb.Status.{Result, ok, fail, data_loss}
use gem16gb.Responses.{auto_mode, none_mode}
use gem16gb.Json.Strings.{parse_string}
use gem16gb.ToolCalls.{skip_code_point, skip_width, width_of, are_continuations, is_bad_pair}
use gem16gb.Json.Value.{
  pos, negsuc, Value, bool, string, array, object, nil, cons, Members, empty, entry,
}
use gem16gb.Json.Double.{to_double, double_less, double_equal}
use gem16gb.Safetensors.{codes}
use gem16gb.ToolCalls.Stream.{StreamedCall}
use gem16gb.ToolCalls.Schema.Calls.{
  DeclaredTool, ToolChoice, validate_tool_definitions, validate_generated_tool_calls,
}
use gem16gb.ToolCalls.Schema.Generated.{IsVerdict, validate_generated_tool_calls-IsVerdict}
use gem16gb.ToolCalls.Schema.Match.{matches_schema}
use gem16gb.ToolCalls.Schema.Conforms.{Conforms, matches_schema-Conforms}
use gem16gb.ToolCalls.Schema.Served.{AreServed, validate_generated_tool_calls-AreServed}

abbrev no_strtod : List ℕ → Option ℕ
no_strtod token = none

abbrev no_format : ℕ → List ℕ
no_format bits = []

abbrev forecast : DeclaredTool
forecast = record {
  name = codes "forecast";
  parameters_json =
      codes
        "{\"type\":\"object\",\"properties\":{\"city\":{\"$ref\":\"#/$defs/name\"},\"days\":{\"type\":[\"integer\",\"null\"],\"minimum\":1,\"maximum\":7}},\"required\":[\"city\"],\"additionalProperties\":false,\"$defs\":{\"name\":{\"type\":\"string\",\"minLength\":2}}}";
  strict = true;
}

abbrev asks : List ℕ → List ℕ → StreamedCall
asks id arguments = record { id = id; name = codes "forecast"; arguments_json = arguments }

abbrev any_function : ToolChoice
any_function = record { mode = auto_mode; function_name = [] }

abbrev two_calls : List StreamedCall
two_calls =
    asks (codes "call_0") (codes "{\"city\":\"Oslo\",\"days\":3}")
    ∷ asks (codes "call_1") (codes "{\"city\":\"Bergen\"}")
    ∷ []

forecast-valid : validate_tool_definitions no_strtod (forecast ∷ []) ≡ ok tt
unfolding validate_tool_definitions parse_string
forecast-valid = refl

abbrev outcome : List StreamedCall → Option (Result (Unit {0}))
outcome calls = validate_generated_tool_calls no_strtod no_format (forecast ∷ []) any_function calls

two_calls-accepted : outcome two_calls ≡ some (ok tt)
unfolding validate_generated_tool_calls parse_string skip_code_point skip_width width_of
    are_continuations is_bad_pair
two_calls-accepted = refl

-- Eight days, a city of one letter, an unknown member, no city, the same identifier twice.
refusals :
    (outcome (asks (codes "a") (codes "{\"city\":\"Oslo\",\"days\":8}") ∷ [])
      ≡ some (fail data_loss "arguments violate its schema: "))
    × (outcome (asks (codes "a") (codes "{\"city\":\"O\"}") ∷ [])
        ≡ some (fail data_loss "arguments violate its schema: "))
    × (outcome (asks (codes "a") (codes "{\"city\":\"Oslo\",\"unit\":null}") ∷ [])
        ≡ some (fail data_loss "arguments violate its schema: "))
    × (outcome (asks (codes "a") (codes "{\"days\":2}") ∷ [])
        ≡ some (fail data_loss "arguments violate its schema: "))
    × (outcome (
          asks (codes "a") (codes "{\"city\":\"Oslo\"}")
          ∷ asks (codes "a") (codes "{\"city\":\"Oslo\"}")
          ∷ [])
        ≡ some (fail data_loss "model emitted an empty or duplicate tool-call ID"))
unfolding validate_generated_tool_calls parse_string skip_code_point skip_width width_of
    are_continuations is_bad_pair
refusals = (refl, refl, refl, refl, refl)

-- One, minus two, and 2 ^ 53 + 1, which becomes the even neighbour; the two zeros are equal.
doubles :
    (to_double (pos 1) ≡ 1023 * 2 ^ 52)
    × (to_double (negsuc 1) ≡ 2 ^ 63 + 1024 * 2 ^ 52)
    × (to_double (pos (2 ^ 53 + 1)) ≡ 1076 * 2 ^ 52)
    × (to_double (pos (2 ^ 53 + 3)) ≡ 1076 * 2 ^ 52 + 2)
    × (double_equal 0 (2 ^ 63) ≡ true)
    × (double_less (to_double (negsuc 1)) (to_double (pos 1)) ≡ true)
unfolding to_double double_equal double_less
doubles = (refl, refl, refl, refl, refl, refl)

validate_generated_tool_calls-IsVerdict_example : IsVerdict (outcome two_calls)
validate_generated_tool_calls-IsVerdict_example =
    validate_generated_tool_calls-IsVerdict no_strtod no_format (forecast ∷ []) any_function
      two_calls forecast-valid

validate_generated_tool_calls-AreServed_example :
    (any_function.mode ≡ none_mode → two_calls ≡ [])
    × AreServed no_strtod no_format (forecast ∷ []) any_function [] two_calls
validate_generated_tool_calls-AreServed_example =
    validate_generated_tool_calls-AreServed no_strtod no_format (forecast ∷ []) any_function
      two_calls two_calls-accepted

-- One required name, and no others.
abbrev only_city : Value
only_city = object (
    entry (codes "additionalProperties") (bool false) (
      entry (codes "properties") (object (entry (codes "city") (object empty) empty))
        (entry (codes "required") (array (cons (string (codes "city")) nil)) empty)))

abbrev oslo : Members
oslo = entry (codes "city") (string (codes "Oslo")) empty

oslo-matches : matches_schema no_format only_city 2 (object oslo) only_city ≡ some true
unfolding matches_schema skip_code_point skip_width width_of are_continuations is_bad_pair
oslo-matches = refl

matches_schema-Conforms_example : Conforms no_format only_city 1 oslo only_city
matches_schema-Conforms_example =
    matches_schema-Conforms no_format only_city 1 oslo only_city oslo-matches
