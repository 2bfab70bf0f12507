-- ===== src/Responses.antt =====
-- PrepareResponsesRequest and CommitResponsesRequest of src/server/session_pool.cpp: the chain of
-- answers that a session keeps for the Responses API.
pub mod Laws
mod Tests
use gem16gb.Prelude.{
  ℕ, String, Bool, true, false, not, ◌&&◌, ◌||◌, Option, none, some, List, [], ◌∷◌, ◌++◌, map,
  if◌then◌else◌, str_eq,
}
use gem16gb.Status.{
  Result, Status, ok, err, fail, refuse_if, ◌>>=◌, ◌>>◌, invalid_argument, not_found,
}

pub record GenerationToolCall : Type 0 where
  pub id : String
  pub name : String
  pub arguments_json : String

-- A part holds what its kind says. The samples of audio and the pixels of an image are not read here:
-- a number stands for them.
pub data GenerationContentPart : Type 0 where
  text : String → GenerationContentPart
  audio image : ℕ → GenerationContentPart
  tool_call : GenerationToolCall → GenerationContentPart
  tool_result : String → String → GenerationContentPart

pub record GenerationMessage : Type 0 where
  pub role : String
  pub content : List GenerationContentPart

pub record GenerationToolDefinition : Type 0 where
  pub name : String
  pub description : String
  pub parameters_json : String
  pub strict : Bool

pub data GenerationToolChoiceMode : Type 0 where
  auto_mode none_mode required_mode function_mode : GenerationToolChoiceMode

pub record GenerationToolChoice : Type 0 where
  pub mode : GenerationToolChoiceMode
  pub function_name : String

pub record ResponsesChain : Type 0 where
  pub latest_response_id : String
  pub messages : List GenerationMessage
  pub tools : List GenerationToolDefinition
  pub tool_choice : GenerationToolChoice
  pub initialized : Bool

pub record OpenAiResponsesRequest : Type 0 where
  pub messages : List GenerationMessage
  pub tools : List GenerationToolDefinition
  pub tool_choice : GenerationToolChoice
  pub previous_response_id : Option String
  pub tools_present : Bool
  pub tool_choice_present : Bool

pub record ChatGenerationResponse : Type 0 where
  pub assistant_text : String
  pub tool_calls : List GenerationToolCall

abbrev pub same_bool : Bool → Bool → Bool
same_bool true b = b
same_bool false b = not b

-- The default `operator==` of the types.
abbrev pub same_tool : GenerationToolDefinition → GenerationToolDefinition → Bool
same_tool a b =
    str_eq a.name b.name
    && (str_eq a.description b.description
        && (str_eq a.parameters_json b.parameters_json && same_bool a.strict b.strict))

unfoldable pub same_tools : List GenerationToolDefinition → List GenerationToolDefinition → Bool
same_tools [] [] = true
same_tools [] (b ∷ bs) = false
same_tools (a ∷ rest) [] = false
same_tools (a ∷ rest) (b ∷ bs) = same_tool a b && same_tools rest bs

unfoldable pub same_mode : GenerationToolChoiceMode → GenerationToolChoiceMode → Bool
same_mode auto_mode auto_mode = true
same_mode none_mode none_mode = true
same_mode required_mode required_mode = true
same_mode function_mode function_mode = true
same_mode _ _ = false

abbrev pub same_choice : GenerationToolChoice → GenerationToolChoice → Bool
same_choice a b = same_mode a.mode b.mode && str_eq a.function_name b.function_name

-- A request without a previous response starts a chain.
unfoldable pub prepare_root :
    ResponsesChain → OpenAiResponsesRequest → Result OpenAiResponsesRequest
prepare_root chain request = do
  refuse_if chain.initialized invalid_argument "response session already has a root"
  ok request

unfoldable pub prepare_next :
    ResponsesChain → OpenAiResponsesRequest → String → Result OpenAiResponsesRequest
unfolding same_tools same_mode
prepare_next chain request previous = do
  refuse_if (not chain.initialized || not (str_eq previous chain.latest_response_id)) not_found
      "previous_response_id is not the latest resident response"
  refuse_if (request.tools_present && not (same_tools request.tools chain.tools)) invalid_argument
      "tools must remain identical on a resident response chain"
  refuse_if (request.tool_choice_present && not (same_choice request.tool_choice chain.tool_choice))
      invalid_argument "tool_choice must remain identical on a resident response chain"
  ok (record request {
    messages = chain.messages ++ request.messages;
    tools = if request.tools_present then request.tools else chain.tools;
    tool_choice = if request.tool_choice_present then request.tool_choice else chain.tool_choice;
  })

-- The request that a refused call leaves behind is not read again.
unfoldable pub prepare_responses_request :
    ResponsesChain → OpenAiResponsesRequest → Result OpenAiResponsesRequest
unfolding prepare_root prepare_next
prepare_responses_request chain request = elim request.previous_response_id [
  | none ↦ prepare_root chain request
  | some previous ↦ prepare_next chain request previous
]

abbrev pub is_nil {ℓ} : {A : Type ℓ} → List A → Bool
is_nil [] = true
is_nil (x ∷ xs) = false

-- The assistant's message: its text, unless that is empty and there are calls, and its calls.
unfoldable pub assistant_message : ChatGenerationResponse → GenerationMessage
assistant_message response = record {
  role = "assistant";
  content =
      (if not (str_eq response.assistant_text "") || is_nil response.tool_calls
        then text response.assistant_text ∷ []
        else [])
      ++ map tool_call response.tool_calls;
}

unfoldable pub commit_responses_request :
    OpenAiResponsesRequest → ChatGenerationResponse → String → ResponsesChain
unfolding assistant_message
commit_responses_request request response response_id = record {
  latest_response_id = response_id;
  messages = request.messages ++ assistant_message response ∷ [];
  tools = request.tools;
  tool_choice = request.tool_choice;
  initialized = true;
}
