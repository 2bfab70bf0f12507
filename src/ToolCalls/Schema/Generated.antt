-- ===== src/ToolCalls/Schema/Generated.antt =====
-- ValidateGeneratedToolCalls of src/runtime/tool_call_parser.cpp, for tools that ValidateToolDefinitions has
-- accepted: how it ends, and what an accepted call is.
use gem16gb.Prelude.{
  ℕ, ◌≡◌, refl, subst, Bool, true, false, not, ◌&&◌, Option, none, some, List, [], ◌∷◌,
  if◌then◌else◌, String,
}
use gem16gb.Status.{Result, ok, fail, refuse_if, data_loss}
use gem16gb.Json.Value.{Value, object}
use gem16gb.Safetensors.{bytes_eq}
use gem16gb.ToolCalls.Arguments.{parse_error}
use gem16gb.ToolCalls.Stream.{StreamedCall}
use gem16gb.ToolCalls.Schema.Calls.{
  DeclaredTool, ToolChoice, parse_json, schema_fuel, validate_parameters, validate_tools_from,
  validate_tool_definitions, find_tool, is_function_mode, match_outcome, check_strict,
  check_arguments, check_call, then_checks, check_calls, validate_generated_tool_calls,
}
use gem16gb.ToolCalls.Schema.Sound.{>>-eq-ok, validate_schema-Accepted}
use gem16gb.ToolCalls.Schema.Safe.{Returns, returns}
use gem16gb.ToolCalls.Schema.Total.{matches_schema-Returns}

-- A verdict on what the model generated: it is accepted, or refused as lost data. There is no
-- exception and no other status.
pub data IsVerdict : Option (Result (Unit {0})) → Type 0 where
  accepted : IsVerdict (some (ok tt))
  rejected : {message : String} → IsVerdict (some (fail data_loss message))

refuse_if-IsVerdict :
    (bad : Bool) (message : String) → IsVerdict (some (refuse_if bad data_loss message))
refuse_if-IsVerdict false message = accepted
refuse_if-IsVerdict true message = rejected

then_checks-IsVerdict :
    {first later : Option (Result (Unit {0}))}
    → IsVerdict first
    → IsVerdict later
    → IsVerdict (then_checks first later)
unfolding then_checks
then_checks-IsVerdict accepted later = later
then_checks-IsVerdict rejected later = rejected

match_outcome-IsVerdict :
    {outcome : Option Bool} → Returns outcome → IsVerdict (match_outcome outcome)
match_outcome-IsVerdict (returns {a = b}) = refuse_if-IsVerdict (not b) _

-- The tool that is found by its name has passed the checks of its parameters.
find_tool-validated :
    (strtod : List ℕ → Option ℕ) (names : List (List ℕ)) (tools : List DeclaredTool) (name : List ℕ)
    {tool : DeclaredTool}
    → validate_tools_from strtod names tools ≡ ok tt
    → find_tool name tools ≡ some tool
    → validate_parameters tool.strict (parse_json strtod tool.parameters_json) ≡ ok tt
unfolding validate_tools_from find_tool
find_tool-validated strtod names [] name h found = cc
find_tool-validated strtod names (t ∷ tools) name h found =
    let (named, h1) = >>-eq-ok _ _ h in
    let (unique, h2) = >>-eq-ok _ _ h1 in
    let (here, later) = >>-eq-ok _ _ h2 in
    either (bytes_eq t.name name) t here
      (find_tool-validated strtod (t.name ∷ names) tools name later) found
  where
    either :
        (b : Bool) (t : DeclaredTool) {tool : DeclaredTool} {further : Option DeclaredTool}
        → validate_parameters t.strict (parse_json strtod t.parameters_json) ≡ ok tt
        → (further ≡ some tool
            → validate_parameters tool.strict (parse_json strtod tool.parameters_json) ≡ ok tt)
        → (if b then some t else further) ≡ some tool
        → validate_parameters tool.strict (parse_json strtod tool.parameters_json) ≡ ok tt
    either true t {tool} here later found =
        let same : t ≡ tool = cc in
        subst (λ u. validate_parameters u.strict (parse_json strtod u.parameters_json) ≡ ok tt) same
          here
    either false t here later found = later found

module _ (strtod : List ℕ → Option ℕ) (format : ℕ → List ℕ) where
  check_strict-IsVerdict :
      (strict : Bool) (arguments : Value) (schema : Option Value)
      → validate_parameters strict schema ≡ ok tt
      → IsVerdict (check_strict format strict arguments schema)
  unfolding check_strict validate_parameters
  check_strict-IsVerdict false arguments schema h = accepted
  check_strict-IsVerdict true arguments none h = cc
  check_strict-IsVerdict true arguments (some schema) h =
      let (valid, typed) = >>-eq-ok _ _ h in
      let good = validate_schema-Accepted true schema_fuel schema valid in
      match_outcome-IsVerdict
        (matches_schema-Returns format schema good schema_fuel arguments schema good)

  check_arguments-IsVerdict :
      (strict : Bool) (arguments : Option Value) (schema : Option Value)
      → validate_parameters strict schema ≡ ok tt
      → IsVerdict (check_arguments format strict arguments schema)
  unfolding check_arguments
  check_arguments-IsVerdict strict (some (object members)) schema h =
      check_strict-IsVerdict strict (object members) schema h
  check_arguments-IsVerdict strict arguments schema h = rejected

  check_call-IsVerdict :
      (choice : ToolChoice) (call : StreamedCall) (found : Option DeclaredTool)
      → ((tool : DeclaredTool)
          → found ≡ some tool
          → validate_parameters tool.strict (parse_json strtod tool.parameters_json) ≡ ok tt)
      → IsVerdict (check_call strtod format choice call found)
  unfolding check_call
  check_call-IsVerdict choice call none h = rejected
  check_call-IsVerdict choice call (some tool) h =
      either (is_function_mode choice.mode && not (bytes_eq call.name choice.function_name))
        (check_arguments-IsVerdict tool.strict _ _ (h tool refl))
    where
      either :
          (b : Bool) {later : Option (Result (Unit {0}))}
          → IsVerdict later
          → IsVerdict (
              if b
              then some (parse_error "model emitted a tool other than the selected function")
              else later)
      either true later = rejected
      either false later = later

  check_calls-IsVerdict :
      (tools : List DeclaredTool) (choice : ToolChoice) (ids : List (List ℕ))
      (calls : List StreamedCall)
      → validate_tool_definitions strtod tools ≡ ok tt
      → IsVerdict (check_calls strtod format tools choice ids calls)
  unfolding check_calls validate_tool_definitions
  check_calls-IsVerdict tools choice ids [] h = accepted
  check_calls-IsVerdict tools choice ids (call ∷ calls) h =
      then_checks-IsVerdict (refuse_if-IsVerdict _ _) (
        then_checks-IsVerdict
          (check_call-IsVerdict choice call _
            λ tool found. find_tool-validated strtod [] tools call.name h found)
          (check_calls-IsVerdict tools choice (call.id ∷ ids) calls h))

-- When ValidateToolDefinitions has accepted the tools, ValidateGeneratedToolCalls ends for any calls and
-- any choice, without the exception of a schema value read as another type and without the internal
-- error of a schema that cannot be parsed again: it accepts the calls or reports lost data.
pub validate_generated_tool_calls-IsVerdict :
    (strtod : List ℕ → Option ℕ) (format : ℕ → List ℕ) (tools : List DeclaredTool)
    (choice : ToolChoice) (calls : List StreamedCall)
    → validate_tool_definitions strtod tools ≡ ok tt
    → IsVerdict (validate_generated_tool_calls strtod format tools choice calls)
unfolding validate_generated_tool_calls
validate_generated_tool_calls-IsVerdict strtod format tools choice calls h =
    then_checks-IsVerdict (refuse_if-IsVerdict _ _)
      (check_calls-IsVerdict strtod format tools choice [] calls h)
