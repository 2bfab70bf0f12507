-- ===== src/ToolCalls/Stream/Tests.antt =====
-- A response with a tool call, whole and in chunks that cut its markers.
use gem16gb.Prelude.{ℕ, ◌≡◌, refl, Bool, true, false, List, [], ◌∷◌}
use gem16gb.Status.{ok, fail, data_loss}
use gem16gb.Json.Escape.{escape_byte}
use gem16gb.Json.Parse.{strip_prefix}
use gem16gb.Safetensors.{codes}
use gem16gb.ToolCalls.Arguments.{parse_arguments, split_at, found_here, behind_text}
use gem16gb.ToolCalls.Stream.{
  GenerationEvent, text_delta, tool_call_start, tool_call_arguments_delta, tool_call_end,
  GemmaToolCallParser, new_parser, hold_back, all_name_bytes, call_id, push, push_all,
}
use gem16gb.ToolCalls.Stream.Runs.{viewed}
use gem16gb.ToolCalls.Stream.Chunks.{all_text, push_all-chunks}
use gem16gb.ToolCalls.Stream.Reports.{text_of, calls_of, push_all-Reports}

-- from_chars reads no literal.
abbrev no_number : List ℕ → Bool
no_number literal = false

abbrev chunks : List (List ℕ)
chunks =
    codes "Hi<|to" ∷ codes "ol_call>ca" ∷ codes "ll:f{a:<|\"|>x<|\"|>,b:tr" ∷ codes "ue}<tool_" ∷ []

abbrev last_chunk : List ℕ
last_chunk = codes "call|>!"

push_all-chunks_example :
    viewed (push_all no_number new_parser chunks last_chunk)
    ≡ viewed (push no_number new_parser (all_text chunks last_chunk) true)
push_all-chunks_example = push_all-chunks no_number new_parser chunks last_chunk

abbrev events : List GenerationEvent
events =
    text_delta (codes "Hi")
    ∷ tool_call_start (codes "call_1") (codes "f")
    ∷ tool_call_arguments_delta (codes "call_1") (codes "f") (codes "{\"a\":\"x\",\"b\":true}")
    ∷ tool_call_end (codes "call_1") (codes "f")
    ∷ text_delta (codes "!")
    ∷ []

abbrev done : GemmaToolCallParser
done = record new_parser {
  visible_text = codes "Hi!";
  tool_calls =
      record {
        id = codes "call_1";
        name = codes "f";
        arguments_json = codes "{\"a\":\"x\",\"b\":true}";
      }
      ∷ [];
}

chunks-push_all : push_all no_number new_parser chunks last_chunk ≡ ok (done, events)
unfolding push_all split_at found_here strip_prefix behind_text hold_back all_name_bytes
    parse_arguments call_id escape_byte
chunks-push_all = refl

push_all-Reports_example :
    (done.visible_text ≡ text_of events) × (done.tool_calls ≡ calls_of events)
push_all-Reports_example = push_all-Reports no_number chunks last_chunk done events chunks-push_all

-- A response that ends inside a call.
cut_off :
    push no_number new_parser (codes "<|tool_call>call:f{") true
    ≡ fail data_loss "model response ends inside a Gemma tool call marker"
unfolding push split_at found_here strip_prefix behind_text all_name_bytes
cut_off = refl
