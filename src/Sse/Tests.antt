-- ===== src/Sse/Tests.antt =====
-- The theorems on the chunk builder at concrete inputs.
use gem16gb.Prelude.{ℕ, ◌+◌, ◌≡◌, refl, Option, none, List, [], ◌∷◌, ◌++◌, length, arith}
use gem16gb.Json.Strings.{parsed, cursor}
use gem16gb.Json.Value.{negsuc, integer}
use gem16gb.Json.Value.Numbers.{InRange}
use gem16gb.Json.Parse.{parse_number}
use gem16gb.Sse.Numbers.{append_signed-parse_number}
use gem16gb.Json.Escape.{quote}
use gem16gb.Sse.{
  SseChunkBuilder, create, reset, append_json_string, append_signed, finish, data_field,
}
use gem16gb.Sse.Laws.{Framed}
use gem16gb.Sse.Strings.{Wrote, append_json_string-Wrote}
use gem16gb.Sse.Frame.{IsChunk, finish-IsChunk, reset-Framed}

started : SseChunkBuilder
unfolding create
started = reset (create 40)

started-Framed : Framed started data_field 38
unfolding started create
started-Framed = reset-Framed (create 40) (omega arith)

-- The value is a quote and a letter.
append_json_string-Wrote_example :
    Wrote data_field 38 (quote (0x22 ∷ b'x' ∷ [])) (append_json_string started (0x22 ∷ b'x' ∷ []))
append_json_string-Wrote_example =
    append_json_string-Wrote started (0x22 ∷ b'x' ∷ []) started-Framed

finish-IsChunk_example : IsChunk data_field (finish started).1
finish-IsChunk_example = finish-IsChunk started started-Framed (omega arith) (omega arith)

abbrev no_strtod : List ℕ → Option ℕ
no_strtod token = none

-- The number -42.
minus_42-InRange : InRange (negsuc 41)
unfolding InRange
minus_42-InRange = omega arith

append_signed-parse_number_example :
    (text : List ℕ) × Wrote data_field 38 text (append_signed started (negsuc 41))
    × (parse_number no_strtod (cursor 0 (text ++ []))
        ≡ parsed (integer (negsuc 41)) (cursor (0 + length text) []))
append_signed-parse_number_example =
    append_signed-parse_number started no_strtod (negsuc 41) 0 [] started-Framed minus_42-InRange
      refl
