-- ===== src/Responses/Laws.antt =====
-- What the response chain of src/server/session_pool.cpp remembers.
use gem16gb.Prelude.{
  ◌≡◌, ◌⊎◌, inl, inr, refl, ap, sym, ◌∙◌, String, Bool, true, false, not, ◌&&◌, ◌||◌, Option, none,
  some, List, [], ◌∷◌, ◌++◌, if◌then◌else◌, str_eq, arith, eq_iff, append_assoc, append-nil,
}
use gem16gb.Status.{
  Result, ok, fail, not_found, ◌>>=◌, Ensures, returned, Ensures-check, Ensures-ok, Ensures-step,
  Ensures-mono,
}
use gem16gb.Responses.{
  GenerationMessage, GenerationToolDefinition, GenerationToolChoice, GenerationToolChoiceMode,
  ResponsesChain, OpenAiResponsesRequest, ChatGenerationResponse, same_bool, same_tool, same_tools,
  same_mode, same_choice, prepare_root, prepare_next, prepare_responses_request, assistant_message,
  commit_responses_request,
}

same_bool-eq : (a b : Bool) → same_bool a b ≡ true → a ≡ b
same_bool-eq true b h = cc
same_bool-eq false true h = cc
same_bool-eq false false h = refl

same_tool-eq : (a b : GenerationToolDefinition) → same_tool a b ≡ true → a ≡ b
same_tool-eq a b h = ground (
  arith,
  eq_iff a.name b.name,
  eq_iff a.description b.description,
  eq_iff a.parameters_json b.parameters_json,
  same_bool-eq a.strict b.strict,
)

same_tools-eq : (xs ys : List GenerationToolDefinition) → same_tools xs ys ≡ true → xs ≡ ys
unfolding same_tools
same_tools-eq [] [] h = refl
same_tools-eq [] (y ∷ ys) h = cc
same_tools-eq (x ∷ xs) [] h = cc
same_tools-eq (x ∷ xs) (y ∷ ys) h = ground (arith, same_tool-eq x y, same_tools-eq xs ys)

same_mode-eq : (a b : GenerationToolChoiceMode) → same_mode a b ≡ true → a ≡ b
unfolding same_mode
same_mode-eq a b h = ground arith

same_choice-eq : (a b : GenerationToolChoice) → same_choice a b ≡ true → a ≡ b
same_choice-eq a b h =
    ground (arith, same_mode-eq a.mode b.mode, eq_iff a.function_name b.function_name)

-- A request that was prepared for the chain that it continues.
pub record Continues (chain : ResponsesChain) (request prepared : OpenAiResponsesRequest)
    : Type 0 where
  pub linked : request.previous_response_id ≡ some chain.latest_response_id
  pub initialized : chain.initialized ≡ true
  pub extended : prepared.messages ≡ chain.messages ++ request.messages
  pub same_tools_kept : prepared.tools ≡ chain.tools
  pub same_choice_kept : prepared.tool_choice ≡ chain.tool_choice

pub Prepared : ResponsesChain → OpenAiResponsesRequest → OpenAiResponsesRequest → Type 0
Prepared chain request prepared =
    ((request.previous_response_id ≡ none) × (chain.initialized ≡ false) × (prepared ≡ request))
    ⊎ Continues chain request prepared

kept_tools :
    (present : Bool) (mine theirs : List GenerationToolDefinition)
    → present && not (same_tools mine theirs) ≡ false
    → (if present then mine else theirs) ≡ theirs
kept_tools true mine theirs h = same_tools-eq mine theirs (ground arith)
kept_tools false mine theirs h = refl

kept_choice :
    (present : Bool) (mine theirs : GenerationToolChoice)
    → present && not (same_choice mine theirs) ≡ false
    → (if present then mine else theirs) ≡ theirs
kept_choice true mine theirs h = same_choice-eq mine theirs (ground arith)
kept_choice false mine theirs h = refl

is_latest :
    (chain : ResponsesChain) (previous : String)
    → not chain.initialized || not (str_eq previous chain.latest_response_id) ≡ false
    → (previous ≡ chain.latest_response_id) × (chain.initialized ≡ true)
is_latest chain previous h =
    (ground (arith, eq_iff previous chain.latest_response_id), ground arith)

prepare_next-Continues :
    (chain : ResponsesChain) (request : OpenAiResponsesRequest) (previous : String)
    → request.previous_response_id ≡ some previous
    → Ensures (Continues chain request) (prepare_next chain request previous)
unfolding prepare_next
prepare_next-Continues chain request previous named =
    Ensures-check (not chain.initialized || not (str_eq previous chain.latest_response_id)) _ _
      (λ latest. Ensures-check _ _ _ (λ tools. Ensures-check _ _ _ (λ choice. returned (record {
        linked = named ∙ ap some (is_latest chain previous latest).0;
        initialized = (is_latest chain previous latest).1;
        extended = refl;
        same_tools_kept = kept_tools request.tools_present request.tools chain.tools tools;
        same_choice_kept =
            kept_choice request.tool_choice_present request.tool_choice chain.tool_choice choice;
      }))))

prepare_case :
    (chain : ResponsesChain) (request : OpenAiResponsesRequest) (previous : Option String)
    → request.previous_response_id ≡ previous
    → Ensures (Prepared chain request) (elim previous [
      | none ↦ prepare_root chain request
      | some id ↦ prepare_next chain request id
    ])
unfolding prepare_root Prepared
prepare_case chain request none e = Ensures-check _ _ _ (λ fresh. returned (inl (e, fresh, refl)))
prepare_case chain request (some id) e =
    Ensures-mono (prepare_next-Continues chain request id e) (λ prepared h. inr h)

pub prepare_responses_request-Prepared :
    (chain : ResponsesChain) (request : OpenAiResponsesRequest)
    → Ensures (Prepared chain request) (prepare_responses_request chain request)
unfolding prepare_responses_request
prepare_responses_request-Prepared chain request =
    prepare_case chain request request.previous_response_id refl

-- A request with the answer that was generated for it and the id of that answer.
pub record Turn : Type 0 where
  pub request : OpenAiResponsesRequest
  pub response : ChatGenerationResponse
  pub response_id : String

unfoldable pub take_turn : ResponsesChain → Turn → Result ResponsesChain
take_turn chain turn = do
  prepared ← prepare_responses_request chain turn.request
  ok (commit_responses_request prepared turn.response turn.response_id)

unfoldable pub take_turns : ResponsesChain → List Turn → Result ResponsesChain
unfolding take_turn
take_turns chain [] = ok chain
take_turns chain (turn ∷ turns) = take_turn chain turn >>= λ next. take_turns next turns

-- What was said: the messages of each request, and the assistant's message behind them.
unfoldable pub transcript : List Turn → List GenerationMessage
transcript [] = []
transcript (turn ∷ turns) =
    turn.request.messages ++ (assistant_message turn.response ∷ transcript turns)

pub record Conversation (chain : ResponsesChain) (turns : List Turn) (last : ResponsesChain)
    : Type 0 where
  pub remembered : last.messages ≡ chain.messages ++ transcript turns
  pub tools_kept : last.tools ≡ chain.tools
  pub choice_kept : last.tool_choice ≡ chain.tool_choice
  pub still_initialized : last.initialized ≡ true

take_turn-Conversation :
    (chain : ResponsesChain) (turn : Turn)
    → chain.initialized ≡ true
    → Ensures (Conversation chain (turn ∷ [])) (take_turn chain turn)
unfolding take_turn transcript commit_responses_request Prepared
take_turn-Conversation chain turn on =
    Ensures-step (prepare_responses_request chain turn.request) (λ prepared done.
      elim (Ensures-ok (prepare_responses_request-Prepared chain turn.request) done) [
        | inl (root, off, same) ↦ absurd (ground (arith, on, off))
        | inr c ↦ returned (record {
          remembered =
              ap (λ m. m ++ assistant_message turn.response ∷ []) c.extended
              ∙ append_assoc chain.messages turn.request.messages
                  (assistant_message turn.response ∷ []);
          tools_kept = c.same_tools_kept;
          choice_kept = c.same_choice_kept;
          still_initialized = refl;
        })
      ])

-- A session whose chain has begun forgets nothing: after any turns that were all accepted, the chain
-- holds the messages from before, then of each turn the messages of the request and the assistant's
-- message, in order; its tools and its tool choice are those of the chain's root.
pub take_turns-Conversation :
    (chain : ResponsesChain) (turns : List Turn)
    → chain.initialized ≡ true
    → Ensures (Conversation chain turns) (take_turns chain turns)
unfolding take_turns transcript
take_turns-Conversation chain [] on = returned (record {
  remembered = sym (append-nil chain.messages);
  tools_kept = refl;
  choice_kept = refl;
  still_initialized = on;
})
take_turns-Conversation chain (turn ∷ turns) on = Ensures-step (take_turn chain turn) (λ next done.
    let first = Ensures-ok (take_turn-Conversation chain turn on) done in
    Ensures-mono (take_turns-Conversation next turns first.still_initialized) (λ last rest. record {
      remembered =
          rest.remembered
          ∙ ap (λ m. m ++ transcript turns) first.remembered
          ∙ append_assoc chain.messages
              (turn.request.messages ++ assistant_message turn.response ∷ []) (transcript turns)
          ∙ ap (λ m. chain.messages ++ m)
              (append_assoc turn.request.messages (assistant_message turn.response ∷ [])
                (transcript turns));
      tools_kept = rest.tools_kept ∙ first.tools_kept;
      choice_kept = rest.choice_kept ∙ first.choice_kept;
      still_initialized = rest.still_initialized;
    }))

str_refl : (s : String) → str_eq s s ≡ true
str_refl s = ground (arith, eq_iff s s)

named_some :
    (chain : ResponsesChain) (request : OpenAiResponsesRequest) (previous : String)
    → request.previous_response_id ≡ some previous
    → prepare_responses_request chain request ≡ prepare_next chain request previous
unfolding prepare_responses_request
named_some chain request previous e =
    ap
      (λ (o : Option String). elim o [
        | none ↦ prepare_root chain request
        | some id ↦ prepare_next chain request id
      ])
      e

accepted :
    (done : OpenAiResponsesRequest) (response : ChatGenerationResponse) (id : String)
    (request : OpenAiResponsesRequest)
    → request.tools_present ≡ false
    → request.tool_choice_present ≡ false
    → prepare_next (commit_responses_request done response id) request id
      ≡ ok (record request {
        messages = (done.messages ++ assistant_message response ∷ []) ++ request.messages;
        tools = done.tools;
        tool_choice = done.tool_choice;
      })
unfolding prepare_next commit_responses_request
accepted done response id request no_tools no_choice = simp (no_tools, no_choice, str_refl id)

-- Once an answer is committed, a request that names it and brings no tools of its own is accepted: it
-- gets the committed messages before its own, and the committed tools and tool choice.
pub prepare_responses_request-commit :
    (done : OpenAiResponsesRequest) (response : ChatGenerationResponse) (id : String)
    (request : OpenAiResponsesRequest)
    → request.previous_response_id ≡ some id
    → request.tools_present ≡ false
    → request.tool_choice_present ≡ false
    → prepare_responses_request (commit_responses_request done response id) request
      ≡ ok (record request {
        messages = (done.messages ++ assistant_message response ∷ []) ++ request.messages;
        tools = done.tools;
        tool_choice = done.tool_choice;
      })
prepare_responses_request-commit done response id request named no_tools no_choice =
    named_some _ request id named ∙ accepted done response id request no_tools no_choice

refused_next :
    (done : OpenAiResponsesRequest) (response : ChatGenerationResponse) (id previous : String)
    (request : OpenAiResponsesRequest)
    → str_eq previous id ≡ false
    → prepare_next (commit_responses_request done response id) request previous
      ≡ fail not_found "previous_response_id is not the latest resident response"
unfolding prepare_next commit_responses_request
refused_next done response id previous request other = simp other
