-- ===== src/ToolCalls/Stream.antt =====
-- GemmaToolCallParser of src/runtime/tool_call_parser.{h,cpp}: the text that the model generates, taken
-- apart into visible text and tool calls while it arrives in chunks.
--
-- A text is the list of its bytes. The loop of Consume is `step`, repeated while it says so.
pub mod Search
pub mod View
pub mod Steps
pub mod Rounds
pub mod Runs
pub mod Chunks
pub mod Reports
mod Tests
use gem16gb.Prelude.{
  ℕ, zero, suc, ◌+◌, Bool, true, false, not, ◌&&◌, ◌||◌, Option, none, some, List, [], ◌∷◌, ◌++◌,
  ltb, ◌==◌, if◌then◌else◌, length, drop,
}
use gem16gb.Status.{Status, Result, ok, err, fail, refuse_if, ◌>>=◌, ◌>>◌, data_loss}
use gem16gb.Json.Value.{decimal_chars}
use gem16gb.Json.Parse.{is_nil, strip_prefix}
use gem16gb.Safetensors.{codes}
use gem16gb.ToolCalls.Arguments.{parse_error, split_at, is_alnum, parse_arguments}

abbrev pub tool_open : List ℕ
tool_open = codes "<|tool_call>"

abbrev pub call_prefix : List ℕ
call_prefix = codes "call:"

abbrev pub tool_close : List ℕ
tool_close = codes "<tool_call|>"

pub data State : Type 0 where
  in_text in_name in_arguments : State

-- GenerationToolCall, with its texts as bytes.
pub record StreamedCall : Type 0 where
  pub id : List ℕ
  pub name : List ℕ
  pub arguments_json : List ℕ

-- GenerationEvent, by its kind; of each the fields that the parser sets.
pub data GenerationEvent : Type 0 where
  text_delta : List ℕ → GenerationEvent
  tool_call_start : List ℕ → List ℕ → GenerationEvent
  tool_call_arguments_delta : List ℕ → List ℕ → List ℕ → GenerationEvent
  tool_call_end : List ℕ → List ℕ → GenerationEvent

pub record GemmaToolCallParser : Type 0 where
  pub state : State
  pub pending : List ℕ
  pub visible_text : List ℕ
  pub current_name : List ℕ
  pub current_arguments : List ℕ
  pub current_id : List ℕ
  pub tool_calls : List StreamedCall

abbrev pub new_parser : GemmaToolCallParser
new_parser = record {
  state = in_text;
  pending = [];
  visible_text = [];
  current_name = [];
  current_arguments = [];
  current_id = [];
  tool_calls = [];
}

-- One round of the loop: it goes on, it breaks, or the function returns an error.
pub data Step {ℓ} (E : Type ℓ) : Type ℓ where
  next : GemmaToolCallParser → E → Step E
  stop : GemmaToolCallParser → E → Step E
  refused : Status → Step E

-- The text is the beginning of the marker, and not all of it.
unfoldable pub begins : List ℕ → List ℕ → Bool
begins text [] = false
begins [] (m ∷ marker) = true
begins (c ∷ text) (m ∷ marker) = let rest = begins text marker in if c == m then rest else false

-- RetainedPrefixSuffix: the text in front of its longest suffix that begins the marker, and that suffix.
-- A suffix that is as long as the marker does not begin it.
unfoldable pub hold_back : List ℕ → List ℕ → List ℕ × List ℕ
unfolding begins
hold_back marker [] = ([], [])
hold_back marker (c ∷ text) =
    let later = hold_back marker text in
    if begins (c ∷ text) marker then ([], c ∷ text) else (c ∷ later.0, later.1)

abbrev pub delta : List ℕ → List GenerationEvent
delta [] = []
delta (c ∷ text) = text_delta (c ∷ text) ∷ []

unfoldable pub text_found :
    GemmaToolCallParser → Bool → Option (List ℕ × List ℕ) → Step (List GenerationEvent)
text_found p final (some (before, behind)) =
    next (record p { visible_text = p.visible_text ++ before; pending = behind; state = in_name })
      (delta before)
text_found p final none =
    let held = if final then (p.pending, []) else hold_back tool_open p.pending in
    stop (record p { visible_text = p.visible_text ++ held.0; pending = held.1 }) (delta held.0)

unfoldable pub all_name_bytes : List ℕ → Bool
all_name_bytes [] = true
all_name_bytes (c ∷ name) = let rest = all_name_bytes name in (is_alnum c || c == b'_') && rest

-- "call_" + std::to_string(tool_calls_.size() + 1U)
unfoldable pub call_id : ℕ → List ℕ
unfolding decimal_chars
call_id calls = codes "call_" ++ decimal_chars 20 (calls + 1) []

unfoldable pub name_found :
    GemmaToolCallParser → Option (List ℕ × List ℕ) → Step (List GenerationEvent)
name_found p none = stop p []
name_found p (some (name, behind)) =
    let id = call_id (length p.tool_calls) in
    if is_nil name
    then refused
        (record { code = data_loss; message = "Gemma tool call has an empty function name" })
    else if not (all_name_bytes name)
    then refused
        (record { code = data_loss; message = "Gemma tool call has an invalid function name" })
    else next
        (record p {
          current_name = name;
          current_id = id;
          current_arguments = b'{' ∷ [];
          pending = behind;
          state = in_arguments;
        })
        (tool_call_start id name ∷ [])

abbrev pub no_prefix : Step (List GenerationEvent)
no_prefix =
    refused (record { code = data_loss; message = "Gemma tool call is missing the call: prefix" })

unfoldable pub prefix_found : GemmaToolCallParser → Option (List ℕ) → Step (List GenerationEvent)
unfolding name_found
prefix_found p none = no_prefix
prefix_found p (some behind) = name_found p (split_at (b'{' ∷ []) behind)

unfoldable pub read_name : GemmaToolCallParser → Step (List GenerationEvent)
unfolding prefix_found
read_name p =
    if ltb (length p.pending) 5
    then (if begins p.pending call_prefix then stop p [] else no_prefix)
    else prefix_found p (strip_prefix call_prefix p.pending)

unfoldable pub close_call :
    GemmaToolCallParser → List ℕ → Result (List ℕ) → Step (List GenerationEvent)
close_call p behind (err status) = refused status
close_call p behind (ok arguments) =
    next
      (record p {
        tool_calls =
            p.tool_calls
            ++ record { id = p.current_id; name = p.current_name; arguments_json = arguments } ∷ [];
        current_name = [];
        current_arguments = [];
        current_id = [];
        pending = behind;
        state = in_text;
      })
      (tool_call_arguments_delta p.current_id p.current_name arguments
        ∷ tool_call_end p.current_id p.current_name
        ∷ [])

unfoldable pub arguments_found :
    (List ℕ → Bool) → GemmaToolCallParser → Option (List ℕ × List ℕ) → Step (List GenerationEvent)
unfolding close_call
arguments_found is_number p none =
    let held = hold_back tool_close p.pending in
    stop (record p { current_arguments = p.current_arguments ++ held.0; pending = held.1 }) []
arguments_found is_number p (some (before, behind)) =
    close_call p behind (parse_arguments is_number (p.current_arguments ++ before))

unfoldable pub step_in :
    (List ℕ → Bool) → State → Bool → GemmaToolCallParser → Step (List GenerationEvent)
unfolding text_found read_name arguments_found
step_in is_number in_text final p = text_found p final (split_at tool_open p.pending)
step_in is_number in_name final p = read_name p
step_in is_number in_arguments final p = arguments_found is_number p (split_at tool_close p.pending)

unfoldable pub step : (List ℕ → Bool) → Bool → GemmaToolCallParser → Step (List GenerationEvent)
unfolding step_in
step is_number final p = step_in is_number p.state final p

-- What the loop does with a round, given what it does from there on.
unfoldable pub go_on :
    Step (List GenerationEvent)
    → (GemmaToolCallParser → Result (GemmaToolCallParser × List GenerationEvent))
    → Result (GemmaToolCallParser × List GenerationEvent)
go_on (refused status) rest = err status
go_on (stop p events) rest = ok (p, events)
go_on (next p events) rest = rest p >>= (λ r. ok (r.0, events ++ r.1))

-- The loop of Consume: every round that goes on takes at least a byte of what is pending.
unfoldable pub consume :
    (List ℕ → Bool)
    → ℕ
    → Bool
    → GemmaToolCallParser
    → Result (GemmaToolCallParser × List GenerationEvent)
unfolding step go_on
consume is_number zero final p = parse_error "model response ends inside a Gemma tool call marker"
consume is_number (suc fuel) final p =
    go_on (step is_number final p) (λ p'. consume is_number fuel final p')

-- The check behind the loop of Consume.
abbrev pub is_inside : GemmaToolCallParser → Bool
is_inside p = elim p.state [
  | in_text ↦ not (is_nil p.pending)
  | in_name ↦ true
  | in_arguments ↦ true
]

unfoldable pub push :
    (List ℕ → Bool)
    → GemmaToolCallParser
    → List ℕ
    → Bool
    → Result (GemmaToolCallParser × List GenerationEvent)
unfolding consume
push is_number p text final = do
  r ←
      consume is_number (suc (length (p.pending ++ text))) final
        (record p { pending = p.pending ++ text })
  refuse_if (final && is_inside r.0) data_loss "model response ends inside a Gemma tool call marker"
  ok r

-- What a caller does with a response: one Push for each chunk, and a last one that is final.
unfoldable pub push_all :
    (List ℕ → Bool)
    → GemmaToolCallParser
    → List (List ℕ)
    → List ℕ
    → Result (GemmaToolCallParser × List GenerationEvent)
unfolding push
push_all is_number p [] last = push is_number p last true
push_all is_number p (chunk ∷ chunks) last =
    push is_number p chunk false
    >>= (λ r. push_all is_number r.0 chunks last >>= (λ r'. ok (r'.0, r.1 ++ r'.1)))
