-- ===== src/Json/Utf8.antt =====
-- The UTF-8 coder and checker of the JSON parser, src/util/json.cpp.
pub mod Fuel
mod Tests
use Prim.Native.Nat.{bit_and, bit_or}
use gem16gb.Prelude.{
  ℕ, zero, suc, ◌*◌, ◌/◌, ◌^◌, ◌%◌, Bool, true, false, ◌&&◌, ◌||◌, Option, none, some, List, [],
  ◌∷◌, ltb, leb, ◌==◌, if◌then◌else◌, length,
}

-- AppendUtf8: the bytes that are appended. `codepoint` is a uint32_t, and a char keeps eight bits.
unfoldable pub encode_utf8 : ℕ → List ℕ
encode_utf8 codepoint =
    if leb codepoint 0x7f
    then codepoint ∷ []
    else if leb codepoint 0x7ff
    then bit_or 0xc0 (codepoint / 2 ^ 6) % 256 ∷ bit_or 0x80 (bit_and codepoint 0x3f) % 256 ∷ []
    else if leb codepoint 0xffff
    then bit_or 0xe0 (codepoint / 2 ^ 12) % 256
      ∷ bit_or 0x80 (bit_and (codepoint / 2 ^ 6) 0x3f) % 256
      ∷ bit_or 0x80 (bit_and codepoint 0x3f) % 256
      ∷ []
    else bit_or 0xf0 (codepoint / 2 ^ 18) % 256
      ∷ bit_or 0x80 (bit_and (codepoint / 2 ^ 12) 0x3f) % 256
      ∷ bit_or 0x80 (bit_and (codepoint / 2 ^ 6) 0x3f) % 256
      ∷ bit_or 0x80 (bit_and codepoint 0x3f) % 256
      ∷ []

-- What a lead byte announces: continuation bytes, its bits of the code point, and the least one.
pub record Lead : Type 0 where
  pub continuation_count : ℕ
  pub codepoint : ℕ
  pub minimum : ℕ

unfoldable pub lead_byte : ℕ → Option Lead
lead_byte first =
    if bit_and first 0xe0 == 0xc0
    then some (record { continuation_count = 1; codepoint = bit_and first 0x1f; minimum = 0x80 })
    else if bit_and first 0xf0 == 0xe0
    then some (record { continuation_count = 2; codepoint = bit_and first 0x0f; minimum = 0x800 })
    else if bit_and first 0xf8 == 0xf0
    then some (record { continuation_count = 3; codepoint = bit_and first 0x07; minimum = 0x10000 })
    else none

-- The loop over the continuation bytes: the code point, and the text behind them.
unfoldable pub continuations : ℕ → ℕ → List ℕ → Option (ℕ × List ℕ)
continuations zero codepoint text = some (codepoint, text)
continuations (suc n) codepoint [] = none
continuations (suc n) codepoint (byte ∷ text) =
    let rest = continuations n (bit_or (codepoint * 2 ^ 6) (bit_and byte 0x3f)) text in
    if bit_and byte 0xc0 == 0x80 then rest else none

-- Overlong, too large, or a surrogate.
unfoldable pub is_bad_codepoint : ℕ → ℕ → Bool
is_bad_codepoint codepoint minimum =
    ltb codepoint minimum
    || (ltb 0x10ffff codepoint || (leb 0xd800 codepoint && leb codepoint 0xdfff))

-- The loop of IsValidUtf8, one round for each character; the text has no more characters than bytes.
unfoldable pub valid_from : ℕ → List ℕ → Bool
valid_from zero text = true
valid_from (suc fuel) [] = true
valid_from (suc fuel) (first ∷ text) =
    let ascii = valid_from fuel text in
    let wide : Bool = elim (lead_byte first) [
      | none ↦ false
      | some lead ↦ elim (continuations lead.continuation_count lead.codepoint text) [
        | none ↦ false
        | some (codepoint, rest) ↦
            if is_bad_codepoint codepoint lead.minimum then false else valid_from fuel rest
      ]
    ] in
    if leb first 0x7f then ascii else wide

unfoldable pub is_valid_utf8 : List ℕ → Bool
unfolding valid_from lead_byte continuations is_bad_codepoint
is_valid_utf8 text = valid_from (length text) text
