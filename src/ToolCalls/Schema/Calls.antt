-- ===== src/ToolCalls/Schema/Calls.antt =====
-- ValidateToolDefinitions and ValidateGeneratedToolCalls of src/runtime/tool_call_parser.cpp: the tools of a
-- request, and the calls that the model makes of them.
--
-- `strtod` reads a double for the JSON parser, and `format` prints one. Where the source puts the name
-- of a tool into a message, the model keeps the fixed part. `none` stands for an exception.
use gem16gb.Prelude.{
  ℕ, ◌*◌, Bool, true, false, not, ◌&&◌, ◌||◌, Option, none, some, List, [], ◌∷◌, if◌then◌else◌,
}
use gem16gb.Status.{
  Result, ok, err, fail, refuse_if, ◌>>◌, data_loss, unsupported, invalid_argument, internal,
}
use gem16gb.Responses.{GenerationToolChoiceMode, none_mode, function_mode}
use gem16gb.Json.Strings.{Parsed, parsed}
use gem16gb.Json.Value.{Value, string, object, find}
use gem16gb.Json.Parse.{ParseLimits, parse, is_nil}
use gem16gb.Safetensors.{codes, bytes_eq}
use gem16gb.ToolCalls.Arguments.{parse_error}
use gem16gb.ToolCalls.Stream.{StreamedCall}
use gem16gb.ToolCalls.Schema.{is_one_of, is_protocol_name, validate_schema, invalid_tool}
use gem16gb.ToolCalls.Schema.Match.{matches_schema}

-- GenerationToolDefinition and GenerationToolChoice, with their texts as bytes.
pub record DeclaredTool : Type 0 where
  pub name : List ℕ
  pub parameters_json : List ℕ
  pub strict : Bool

pub record ToolChoice : Type 0 where
  pub mode : GenerationToolChoiceMode
  pub function_name : List ℕ

abbrev pub tool_limits : ParseLimits
tool_limits = record { max_depth = 32; max_values = 10000; max_string_bytes = 1024 * 1024 }

-- A value that was parsed; why it was not is left out.
abbrev pub value_of : Option (Parsed Value) → Option Value
value_of (some (parsed value c)) = some value
value_of parse = none

unfoldable pub parse_json : (List ℕ → Option ℕ) → List ℕ → Option Value
unfolding parse
parse_json strtod text = value_of (parse strtod tool_limits text)

abbrev pub schema_fuel : ℕ
schema_fuel = 33

abbrev pub is_object_type : Option Value → Bool
unfolding bytes_eq
is_object_type (some (string type)) = bytes_eq type (codes "object")
is_object_type value = false

-- The checks of one tool's parameters.
unfoldable pub validate_parameters : Bool → Option Value → Result (Unit {0})
unfolding validate_schema find
validate_parameters strict none = invalid_tool "parameters are invalid JSON: "
validate_parameters strict (some schema) =
    validate_schema strict schema_fuel schema
    >> refuse_if (not (is_object_type (find (codes "type") schema))) invalid_argument
        "parameters must have root type object"

-- ValidateToolDefinitions, from the names so far.
unfoldable pub validate_tools_from :
    (List ℕ → Option ℕ) → List (List ℕ) → List DeclaredTool → Result (Unit {0})
unfolding is_protocol_name is_one_of validate_parameters parse_json
validate_tools_from strtod names [] = ok tt
validate_tools_from strtod names (tool ∷ tools) = do
  refuse_if (not (is_protocol_name tool.name)) unsupported
      "tool name must contain 1..64 ASCII letters, digits, or underscores"
  refuse_if (is_one_of tool.name names) invalid_argument "tool names must be unique: "
  validate_parameters tool.strict (parse_json strtod tool.parameters_json)
  validate_tools_from strtod (tool.name ∷ names) tools

unfoldable pub validate_tool_definitions :
    (List ℕ → Option ℕ) → List DeclaredTool → Result (Unit {0})
unfolding validate_tools_from
validate_tool_definitions strtod tools = validate_tools_from strtod [] tools

-- std::find_if by the name.
unfoldable pub find_tool : List ℕ → List DeclaredTool → Option DeclaredTool
unfolding bytes_eq
find_tool name [] = none
find_tool name (tool ∷ tools) =
    let later = find_tool name tools in if bytes_eq tool.name name then some tool else later

abbrev pub is_none_mode : GenerationToolChoiceMode → Bool
is_none_mode none_mode = true
is_none_mode mode = false

abbrev pub is_function_mode : GenerationToolChoiceMode → Bool
is_function_mode function_mode = true
is_function_mode mode = false

-- What MatchesStrictSchema returned.
abbrev pub match_outcome : Option Bool → Option (Result (Unit {0}))
match_outcome none = none
match_outcome (some matched) =
    some (refuse_if (not matched) data_loss "arguments violate its schema: ")

-- The strict check of parsed arguments against the tool's schema.
unfoldable pub check_strict :
    (ℕ → List ℕ) → Bool → Value → Option Value → Option (Result (Unit {0}))
unfolding matches_schema
check_strict format false arguments schema = some (ok tt)
check_strict format true arguments none =
    some (fail internal "validated strict tool schema cannot be reparsed")
check_strict format true arguments (some schema) =
    match_outcome (matches_schema format schema schema_fuel arguments schema)

-- Arguments that were not parsed, or are not an object, are refused.
unfoldable pub check_arguments :
    (ℕ → List ℕ) → Bool → Option Value → Option Value → Option (Result (Unit {0}))
unfolding check_strict
check_arguments format strict (some (object members)) schema =
    check_strict format strict (object members) schema
check_arguments format strict arguments schema =
    some (parse_error "model emitted non-object arguments for tool")

-- The checks of one call, for the tool that was found.
unfoldable pub check_call :
    (List ℕ → Option ℕ)
    → (ℕ → List ℕ)
    → ToolChoice
    → StreamedCall
    → Option DeclaredTool
    → Option (Result (Unit {0}))
unfolding check_arguments parse_json bytes_eq
check_call strtod format choice call none = some (parse_error "model emitted undeclared tool")
check_call strtod format choice call (some tool) =
    if is_function_mode choice.mode && not (bytes_eq call.name choice.function_name)
    then some (parse_error "model emitted a tool other than the selected function")
    else check_arguments format tool.strict (parse_json strtod call.arguments_json)
        (parse_json strtod tool.parameters_json)

-- `if (!status.ok()) return status;`, and then the rest.
unfoldable pub then_checks :
    Option (Result (Unit {0})) → Option (Result (Unit {0})) → Option (Result (Unit {0}))
then_checks none later = none
then_checks (some (err status)) later = some (err status)
then_checks (some (ok done)) later = later

-- The loop of ValidateGeneratedToolCalls, from the identifiers so far.
unfoldable pub check_calls :
    (List ℕ → Option ℕ)
    → (ℕ → List ℕ)
    → List DeclaredTool
    → ToolChoice
    → List (List ℕ)
    → List StreamedCall
    → Option (Result (Unit {0}))
unfolding then_checks check_call find_tool is_one_of
check_calls strtod format tools choice ids [] = some (ok tt)
check_calls strtod format tools choice ids (call ∷ calls) =
    then_checks
      (some (
        refuse_if (is_nil call.id || is_one_of call.id ids) data_loss
          "model emitted an empty or duplicate tool-call ID"))
      (then_checks (check_call strtod format choice call (find_tool call.name tools))
        (check_calls strtod format tools choice (call.id ∷ ids) calls))

abbrev pub has_calls : List StreamedCall → Bool
has_calls [] = false
has_calls (call ∷ calls) = true

-- ValidateGeneratedToolCalls.
unfoldable pub validate_generated_tool_calls :
    (List ℕ → Option ℕ)
    → (ℕ → List ℕ)
    → List DeclaredTool
    → ToolChoice
    → List StreamedCall
    → Option (Result (Unit {0}))
unfolding check_calls then_checks
validate_generated_tool_calls strtod format tools choice calls =
    then_checks
      (some (
        refuse_if (is_none_mode choice.mode && has_calls calls) data_loss
          "model emitted a tool call while tool_choice is none"))
      (check_calls strtod format tools choice [] calls)
