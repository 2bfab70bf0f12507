-- ===== src/ToolCalls/Schema/Served.antt =====
-- ValidateGeneratedToolCalls of src/runtime/tool_call_parser.cpp: what the calls are that it accepts.
use gem16gb.Prelude.{
  ℕ, ◌≡◌, ◌≢◌, refl, ap, sym, subst, ◌∙◌, Bool, true, false, not, ◌&&◌, ◌||◌, Option, none, some,
  List, [], ◌∷◌, if◌then◌else◌, String, arith,
}
use gem16gb.Status.{Result, ok, err, fail, refuse_if, data_loss}
use gem16gb.Responses.{GenerationToolChoiceMode, none_mode, function_mode}
use gem16gb.Json.Value.{Value, object, Members}
use gem16gb.Json.Parse.{is_nil}
use gem16gb.Safetensors.{bytes_eq}
use gem16gb.Safetensors.Directory.Merge.{bytes_eq-eq, bytes_eq_self}
use gem16gb.Safetensors.Directory.Agreement.{IsIn, here, there}
use gem16gb.ToolCalls.Stream.{StreamedCall}
use gem16gb.ToolCalls.Schema.{is_one_of}
use gem16gb.ToolCalls.Schema.Match.{matches_schema}
use gem16gb.ToolCalls.Schema.Calls.{
  DeclaredTool, ToolChoice, parse_json, schema_fuel, find_tool, is_none_mode, is_function_mode,
  match_outcome, check_strict, check_arguments, check_call, then_checks, check_calls, has_calls,
  validate_generated_tool_calls,
}

module _ (strtod : List ℕ → Option ℕ) (format : ℕ → List ℕ) where
  -- The arguments are a JSON object, which matches the schema of a strict tool.
  pub record Fits (tool : DeclaredTool) (call : StreamedCall) : Type 0 where
    pub members : Members
    pub parsed_arguments : parse_json strtod call.arguments_json ≡ some (object members)
    pub matched :
        tool.strict ≡ true
        → (schema : Value) × (parse_json strtod tool.parameters_json ≡ some schema)
          × (matches_schema format schema schema_fuel (object members) schema ≡ some true)

  -- A call of a declared tool, the chosen one where a function was chosen.
  pub record Serves (tools : List DeclaredTool) (choice : ToolChoice) (call : StreamedCall)
      : Type 0 where
    pub tool : DeclaredTool
    pub declared : IsIn tool tools
    pub named : tool.name ≡ call.name
    pub chosen : choice.mode ≡ function_mode → call.name ≡ choice.function_name
    pub fits : Fits tool call

  -- Calls with identifiers that are not empty and differ from each other and from those in front.
  abbrev pub AreServed : List DeclaredTool → ToolChoice → List (List ℕ) → List StreamedCall → Type 0
  AreServed tools choice ids [] = Unit
  AreServed tools choice ids (call ∷ calls) =
      (call.id ≢ [])
      × (¬ IsIn call.id ids)
      × Serves tools choice call
      × AreServed tools choice (call.id ∷ ids) calls

is_one_of-IsIn :
    (name : List ℕ) (names : List (List ℕ)) → is_one_of name names ≡ false → ¬ IsIn name names
unfolding is_one_of
is_one_of-IsIn name [] h i = elim i [ ]
is_one_of-IsIn name (x ∷ names) h (here e) =
    let same : bytes_eq name x ≡ true =
      subst (λ y. bytes_eq name y ≡ true) (sym e) (bytes_eq_self name) in
    ground (arith, same)
is_one_of-IsIn name (x ∷ names) h (there i) = is_one_of-IsIn name names (ground arith) i

then_checks-ok :
    (first later : Option (Result (Unit {0})))
    → then_checks first later ≡ some (ok tt)
    → (first ≡ some (ok tt)) × (later ≡ some (ok tt))
unfolding then_checks
then_checks-ok none later h = cc
then_checks-ok (some (err e)) later h = cc
then_checks-ok (some (ok done)) later h = (refl, h)

refuse_if-ok :
    (bad : Bool) (message : String)
    → some (refuse_if bad data_loss message) ≡ some (ok tt)
    → bad ≡ false
refuse_if-ok false message h = refl
refuse_if-ok true message h = cc

found_by_name :
    (b : Bool) (name : List ℕ) (t : DeclaredTool) (tools : List DeclaredTool) {tool : DeclaredTool}
    {further : Option DeclaredTool}
    → bytes_eq t.name name ≡ b
    → (further ≡ some tool → IsIn tool tools × (tool.name ≡ name))
    → (if b then some t else further) ≡ some tool
    → IsIn tool (t ∷ tools) × (tool.name ≡ name)
found_by_name true name t tools {tool} e later found =
    let same : t ≡ tool = cc in (here same, sym (ap (λ u. u.name) same) ∙ bytes_eq-eq t.name name e)
found_by_name false name t tools e later found =
    let (is_in, named) = later found in (there is_in, named)

find_tool-IsIn :
    (name : List ℕ) (tools : List DeclaredTool) {tool : DeclaredTool}
    → find_tool name tools ≡ some tool
    → IsIn tool tools × (tool.name ≡ name)
unfolding find_tool
find_tool-IsIn name [] found = cc
find_tool-IsIn name (t ∷ tools) found =
    found_by_name (bytes_eq t.name name) name t tools refl (find_tool-IsIn name tools) found

-- The test of the chosen function's name.
passed_choice :
    (b : Bool) (message : String) (later : Option (Result (Unit {0})))
    → (if b then some (fail data_loss message) else later) ≡ some (ok tt)
    → (b ≡ false) × (later ≡ some (ok tt))
passed_choice true message later h = cc
passed_choice false message later h = (refl, h)

choice-chosen :
    (choice : ToolChoice) (name : List ℕ)
    → (is_function_mode choice.mode && not (bytes_eq name choice.function_name)) ≡ false
    → choice.mode ≡ function_mode
    → name ≡ choice.function_name
choice-chosen choice name h e = bytes_eq-eq name choice.function_name (
    negated (bytes_eq name choice.function_name)
      (subst (λ m. (is_function_mode m && not (bytes_eq name choice.function_name)) ≡ false) e h))
  where
    negated : (b : Bool) → not b ≡ false → b ≡ true
    negated true h = refl
    negated false h = cc

module _ (strtod : List ℕ → Option ℕ) (format : ℕ → List ℕ) where
  match_outcome-ok :
      (outcome : Option Bool) → match_outcome outcome ≡ some (ok tt) → outcome ≡ some true
  match_outcome-ok none h = cc
  match_outcome-ok (some true) h = refl
  match_outcome-ok (some false) h = cc

  check_strict-ok :
      (strict : Bool) (arguments : Value) (schema : Option Value)
      → check_strict format strict arguments schema ≡ some (ok tt)
      → strict ≡ true
      → (s : Value) × (schema ≡ some s)
        × (matches_schema format s schema_fuel arguments s ≡ some true)
  unfolding check_strict
  check_strict-ok false arguments schema h e = cc
  check_strict-ok true arguments none h e = cc
  check_strict-ok true arguments (some s) h e = (s, refl, match_outcome-ok _ h)

  check_arguments-ok :
      (strict : Bool) (arguments : Option Value) (schema : Option Value)
      → check_arguments format strict arguments schema ≡ some (ok tt)
      → (members : Members) × (arguments ≡ some (object members))
        × (check_strict format strict (object members) schema ≡ some (ok tt))
  unfolding check_arguments
  check_arguments-ok strict (some (object members)) schema h = (members, refl, h)
  check_arguments-ok strict arguments schema h = cc

  check_arguments-Fits :
      (tool : DeclaredTool) (call : StreamedCall)
      → check_arguments format tool.strict
          (parse_json strtod call.arguments_json)
          (parse_json strtod tool.parameters_json)
        ≡ some (ok tt)
      → Fits strtod format tool call
  check_arguments-Fits tool call h =
      let (members, parsed_arguments, strict) = check_arguments-ok tool.strict _ _ h in
      record {
        members = members;
        parsed_arguments = parsed_arguments;
        matched =
            check_strict-ok tool.strict (object members) (parse_json strtod tool.parameters_json)
              strict;
      }

  check_call-Serves :
      (tools : List DeclaredTool) (choice : ToolChoice) (call : StreamedCall)
      (found : Option DeclaredTool)
      → find_tool call.name tools ≡ found
      → check_call strtod format choice call found ≡ some (ok tt)
      → Serves strtod format tools choice call
  unfolding check_call
  check_call-Serves tools choice call none e h = cc
  check_call-Serves tools choice call (some tool) e h =
      let (is_chosen, arguments) = passed_choice _ _ _ h in
      let (is_in, named) = find_tool-IsIn call.name tools e in
      record {
        tool = tool;
        declared = is_in;
        named = named;
        chosen = choice-chosen choice call.name is_chosen;
        fits = check_arguments-Fits tool call arguments;
      }

  named_id :
      (id : List ℕ) (ids : List (List ℕ))
      → (is_nil id || is_one_of id ids) ≡ false
      → (id ≢ []) × (¬ IsIn id ids)
  named_id [] ids h = cc
  named_id (c ∷ id) ids h = ((λ e. cc), is_one_of-IsIn (c ∷ id) ids h)

  check_calls-AreServed :
      (tools : List DeclaredTool) (choice : ToolChoice) (ids : List (List ℕ))
      (calls : List StreamedCall)
      → check_calls strtod format tools choice ids calls ≡ some (ok tt)
      → AreServed strtod format tools choice ids calls
  unfolding check_calls
  check_calls-AreServed tools choice ids [] h = tt
  check_calls-AreServed tools choice ids (call ∷ calls) h =
      let (fresh, h1) = then_checks-ok _ _ h in
      let (served, later) = then_checks-ok _ _ h1 in
      let (not_empty, not_in) = named_id call.id ids (refuse_if-ok _ _ fresh) in
      (
        not_empty,
        not_in,
        check_call-Serves tools choice call (find_tool call.name tools) refl served,
        check_calls-AreServed tools choice (call.id ∷ ids) calls later,
      )

no_calls :
    (mode : GenerationToolChoiceMode) (calls : List StreamedCall)
    → (is_none_mode mode && has_calls calls) ≡ false
    → mode ≡ none_mode
    → calls ≡ []
no_calls mode [] h e = refl
no_calls mode (call ∷ calls) h e =
    absurd (true≢false (subst (λ m. (is_none_mode m && true) ≡ false) e h))
  where
    true≢false : true ≡ false → ⊥
    true≢false h = cc

-- The calls that ValidateGeneratedToolCalls accepts: none where the choice is none; each has an identifier
-- that is not empty and that no other call has, names a declared tool (the chosen one where a function was
-- chosen), and has arguments that are a JSON object and match the schema of a strict tool.
pub validate_generated_tool_calls-AreServed :
    (strtod : List ℕ → Option ℕ) (format : ℕ → List ℕ) (tools : List DeclaredTool)
    (choice : ToolChoice) (calls : List StreamedCall)
    → validate_generated_tool_calls strtod format tools choice calls ≡ some (ok tt)
    → (choice.mode ≡ none_mode → calls ≡ []) × AreServed strtod format tools choice [] calls
unfolding validate_generated_tool_calls
validate_generated_tool_calls-AreServed strtod format tools choice calls h =
    let (allowed, checked) = then_checks-ok _ _ h in
    (
      no_calls choice.mode calls (refuse_if-ok _ _ allowed),
      check_calls-AreServed strtod format tools choice [] calls checked,
    )
