-- ===== src/Sse.antt =====
-- SseChunkBuilder of src/server/sse_chunk.h: one server-sent event framed as one HTTP chunk in a
-- buffer of fixed size.

pub mod Laws
pub mod Strings
pub mod Numbers
pub mod Frame
mod Tests
use gem16gb.Prelude.{
  ℕ, zero, suc, ◌+◌, ◌-◌, ◌/◌, ◌%◌, Bool, true, false, ◌||◌, List, [], ◌∷◌, ◌++◌, ltb, ◌==◌,
  if◌then◌else◌, length, set, replicate, take, drop,
}
use gem16gb.Json.Value.{ℤ, decimal_chars, int_chars}
use gem16gb.Json.Escape.{hex_digit}

-- 2 * sizeof(size_t) + 2, on a machine of 64 bits.
abbrev pub prefix_bytes : ℕ
prefix_bytes = 18

abbrev pub suffix_bytes : ℕ
suffix_bytes = 4

pub record SseChunkBuilder : Type 0 where
  pub storage : List ℕ
  pub size : ℕ
  pub failed : Bool

-- `storage_[size_++] = byte` for each byte.
unfoldable pub write : List ℕ → ℕ → List ℕ → List ℕ
write storage at [] = storage
write storage at (byte ∷ value) = write (set storage at byte) (suc at) value

unfoldable pub append : SseChunkBuilder → List ℕ → SseChunkBuilder
unfolding write
append b value =
    if b.failed || ltb (length b.storage - b.size) (length value)
    then record b { failed = true }
    else record b { storage = write b.storage b.size value; size = b.size + length value }

unfoldable pub append_char : SseChunkBuilder → ℕ → SseChunkBuilder
append_char b value =
    if b.failed || b.size == length b.storage
    then record b { failed = true }
    else record b { storage = set b.storage b.size value; size = suc b.size }

-- "data: "
abbrev pub data_field : List ℕ
data_field = b'd' ∷ b'a' ∷ b't' ∷ b'a' ∷ b':' ∷ b' ' ∷ []

-- The constructor: the vector is zero-filled.
unfoldable pub create : ℕ → SseChunkBuilder
create payload_capacity = record {
  storage = replicate (prefix_bytes + payload_capacity + suffix_bytes) 0;
  size = prefix_bytes;
  failed = false;
}

unfoldable pub reset : SseChunkBuilder → SseChunkBuilder
unfolding append
reset b = append (record b { size = prefix_bytes; failed = false }) data_field

-- AppendUnsigned and AppendSigned: std::to_chars in base ten, which 32 characters always hold.
unfoldable pub append_unsigned : SseChunkBuilder → ℕ → SseChunkBuilder
unfolding append decimal_chars
append_unsigned b value = append b (decimal_chars 20 value [])

unfoldable pub append_signed : SseChunkBuilder → ℤ → SseChunkBuilder
unfolding append int_chars
append_signed b value = append b (int_chars value)

-- The loop of AppendJsonEscaped; it stops at the first write that does not fit.
unfoldable pub append_json_byte : SseChunkBuilder → ℕ → SseChunkBuilder
unfolding append append_char
append_json_byte b byte =
    if byte == 0x22
    then append b (0x5c ∷ 0x22 ∷ [])
    else if byte == 0x5c
    then append b (0x5c ∷ 0x5c ∷ [])
    else if byte == 0x08
    then append b (0x5c ∷ b'b' ∷ [])
    else if byte == 0x0c
    then append b (0x5c ∷ b'f' ∷ [])
    else if byte == 0x0a
    then append b (0x5c ∷ b'n' ∷ [])
    else if byte == 0x0d
    then append b (0x5c ∷ b'r' ∷ [])
    else if byte == 0x09
    then append b (0x5c ∷ b't' ∷ [])
    else if ltb byte 0x20
    then append b (0x5c ∷ b'u' ∷ b'0' ∷ b'0' ∷ hex_digit (byte / 16) ∷ hex_digit (byte % 16) ∷ [])
    else append_char b byte

unfoldable pub append_json_escaped : SseChunkBuilder → List ℕ → SseChunkBuilder
unfolding append_json_byte
append_json_escaped b [] = b
append_json_escaped b (byte ∷ value) =
    let b' = append_json_byte b byte in
    let rest = append_json_escaped b' value in if b'.failed then b' else rest

-- `x && y`: what follows runs only if what comes before has not failed.
abbrev pub and_then : SseChunkBuilder → (SseChunkBuilder → SseChunkBuilder) → SseChunkBuilder
and_then b next = if b.failed then b else next b

unfoldable pub append_json_string : SseChunkBuilder → List ℕ → SseChunkBuilder
unfolding append_json_escaped append_char
append_json_string b value =
    and_then (and_then (append_char b 0x22) (λ b. append_json_escaped b value))
      (λ b. append_char b 0x22)

unfoldable pub append_json_string_after : SseChunkBuilder → List ℕ → List ℕ → SseChunkBuilder
unfolding append_json_escaped append_char
append_json_string_after b lead value =
    and_then
      (and_then (and_then (append_char b 0x22) (λ b. append_json_escaped b lead))
        (λ b. append_json_escaped b value))
      (λ b. append_char b 0x22)

unfoldable pub payload : SseChunkBuilder → List ℕ
payload b = if b.failed then [] else take (b.size - prefix_bytes) (drop prefix_bytes b.storage)

unfoldable pub capacity : SseChunkBuilder → ℕ
capacity b = length b.storage - prefix_bytes - suffix_bytes

-- std::to_chars in base 16, the last digit first. Every uint64_t has at most 16 digits.
unfoldable pub hex_chars : ℕ → ℕ → List ℕ → List ℕ
hex_chars zero value digits = digits
hex_chars (suc fuel) value digits =
    let more = hex_chars fuel (value / 16) (hex_digit (value % 16) ∷ digits) in
    if ltb value 16 then hex_digit value ∷ digits else more

-- The size line is written so that it ends where the payload begins. What is returned is the span
-- from its first digit to the end, empty on failure.
unfoldable pub put_header : SseChunkBuilder → List ℕ → SseChunkBuilder × List ℕ
unfolding write
put_header b hexadecimal =
    let begin = prefix_bytes - (length hexadecimal + 2) in
    let framed = write b.storage begin (hexadecimal ++ 0x0d ∷ 0x0a ∷ []) in
    (record b { storage = framed }, take (b.size - begin) (drop begin framed))

unfoldable pub finish : SseChunkBuilder → SseChunkBuilder × List ℕ
finish b =
    let ended = append b (0x0a ∷ 0x0a ∷ []) in
    let payload_size = ended.size - prefix_bytes in
    let closed = append ended (0x0d ∷ 0x0a ∷ []) in
    if ended.failed
    then (ended, [])
    else if closed.failed
    then (closed, [])
    else put_header closed (hex_chars 16 payload_size [])
