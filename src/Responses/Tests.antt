-- ===== src/Responses/Tests.antt =====
-- A conversation of two turns, and the theorems on it.
use gem16gb.Prelude.{refl, String, true, false, some, List, [], ◌∷◌}
use gem16gb.Status.{Ensures}
use gem16gb.Responses.{
  ResponsesChain, OpenAiResponsesRequest, ChatGenerationResponse, text, auto_mode,
  prepare_responses_request,
}
use gem16gb.Responses.Laws.{
  Turn, take_turns, Conversation, Prepared, take_turns-Conversation,
  prepare_responses_request-Prepared,
}

abbrev asks : String → OpenAiResponsesRequest
asks previous = record {
  messages = record { role = "user"; content = text "and then?" ∷ [] } ∷ [];
  tools = [];
  tool_choice = record { mode = auto_mode; function_name = "" };
  previous_response_id = some previous;
  tools_present = false;
  tool_choice_present = false;
}

abbrev answer : ChatGenerationResponse
answer = record { assistant_text = "so"; tool_calls = [] }

abbrev begun : ResponsesChain
begun = record {
  latest_response_id = "r1";
  messages = record { role = "user"; content = text "hello" ∷ [] } ∷ [];
  tools = [];
  tool_choice = record { mode = auto_mode; function_name = "" };
  initialized = true;
}

abbrev two_turns : List Turn
two_turns =
    record { request = asks "r1"; response = answer; response_id = "r2" }
    ∷ record { request = asks "r2"; response = answer; response_id = "r3" }
    ∷ []

take_turns-Conversation_example :
    Ensures (Conversation begun two_turns) (take_turns begun two_turns)
take_turns-Conversation_example = take_turns-Conversation begun two_turns refl

prepare_responses_request-Prepared_example :
    Ensures (Prepared begun (asks "r1")) (prepare_responses_request begun (asks "r1"))
prepare_responses_request-Prepared_example = prepare_responses_request-Prepared begun (asks "r1")
