-- ===== src/Sse/Numbers.antt =====
-- AppendSigned of src/server/sse_chunk.h against ParseNumber of src/util/json.cpp.
use gem16gb.Prelude.{ℕ, ◌+◌, ◌≡◌, true, Option, List, ◌++◌, length}
use gem16gb.Json.Strings.{parsed, cursor}
use gem16gb.Json.Value.{ℤ, integer, int_chars}
use gem16gb.Json.Value.Numbers.{InRange}
use gem16gb.Json.Parse.{parse_number}
use gem16gb.Json.Parse.Numbers.{ends, parse_number-int_chars}
use gem16gb.Sse.{SseChunkBuilder, append_signed}
use gem16gb.Sse.Laws.{Framed}
use gem16gb.Sse.Strings.{Wrote, append-Wrote}

-- A builder that is sent a signed 64-bit number writes the whole of a text, or fails if there is no
-- room for it; and ParseNumber reads that text as the number and stops behind it, at the end of the
-- input or before any byte but a digit, a point and an `e` or `E`.
pub append_signed-parse_number :
    (b : SseChunkBuilder) {body : List ℕ} {room : ℕ} (strtod : List ℕ → Option ℕ) (n : ℤ) (p : ℕ)
    (rest : List ℕ)
    → Framed b body room
    → InRange n
    → ends rest ≡ true
    → (text : List ℕ) × Wrote body room text (append_signed b n)
      × (parse_number strtod (cursor p (text ++ rest))
          ≡ parsed (integer n) (cursor (p + length text) rest))
unfolding append_signed
append_signed-parse_number b {body} {room} strtod n p rest f h stop =
    (int_chars n, append-Wrote b (int_chars n) f, parse_number-int_chars strtod n p rest h stop)
