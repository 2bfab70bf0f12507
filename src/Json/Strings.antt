-- ===== src/Json/Strings.antt =====
-- The scanning of string literals of the JSON parser, src/util/json.cpp.
pub mod RoundTrip
pub mod Sound
pub mod Fuel
mod Tests
use gem16gb.Prelude.{
  ℕ, zero, suc, ◌+◌, ◌-◌, ◌*◌, ◌^◌, ◌<◌, Bool, true, false, ◌&&◌, ◌||◌, not, Option, none, some,
  List, [], ◌∷◌, ◌++◌, ltb, leb, ◌==◌, if◌then◌else◌, length, String,
}
use gem16gb.Json.Utf8.{encode_utf8, is_valid_utf8}

-- The parser's `position_`, and the input from there on.
pub record Cursor : Type 0 where
  pub position : ℕ
  pub rest : List ℕ

-- The value and the cursor behind it, or the position and the message that `Error` prints.
pub data Parsed {ℓ} (A : Type ℓ) : Type ℓ where
  parsed : A → Cursor → Parsed A
  failed : ℕ → String → Parsed A

infixl 5 ◌>>=◌
abbrev pub ◌>>=◌ {ℓ κ} : {A : Type ℓ} {B : Type κ} → Parsed A → (A → Cursor → Parsed B) → Parsed B
parsed a c >>= f = f a c
failed n m >>= f = failed n m

abbrev pub cursor : ℕ → List ℕ → Cursor
cursor n xs = record { position = n; rest = xs }

unfoldable pub hex_value : ℕ → Option ℕ
hex_value character =
    if leb b'0' character && leb character b'9'
    then some (character - b'0')
    else if leb b'a' character && leb character b'f'
    then some (character - b'a' + 10)
    else if leb b'A' character && leb character b'F'
    then some (character - b'A' + 10)
    else none

-- The loop of ParseHex4. Four digits stay below 2 ^ 16, so the uint32_t does not wrap.
unfoldable pub hex_digits : ℕ → ℕ → ℕ → List ℕ → Parsed ℕ
unfolding hex_value
hex_digits zero value position rest = parsed value (cursor position rest)
hex_digits (suc n) value position [] = failed position "incomplete unicode escape"
hex_digits (suc n) value position (character ∷ rest) = elim (hex_value character) [
  | none ↦ failed (suc position) "non-hexadecimal unicode escape"
  | some digit ↦ hex_digits n (value * 2 ^ 4 + digit) (suc position) rest
]

unfoldable pub parse_hex4 : Cursor → Parsed ℕ
unfolding hex_digits
parse_hex4 c =
    if ltb (length c.rest) 4
    then failed c.position "incomplete unicode escape"
    else hex_digits 4 0 c.position c.rest

-- The second half of a surrogate pair, behind its `\u`.
unfoldable pub parse_low_surrogate : ℕ → Cursor → Parsed ℕ
parse_low_surrogate high c = parse_hex4 c >>= λ second c'.
    if ltb second 0xdc00 || ltb 0xdfff second
    then failed c'.position "invalid low surrogate"
    else parsed (0x10000 + (high - 0xd800) * 2 ^ 10 + (second - 0xdc00)) c'

abbrev expect_low_surrogate : ℕ → ℕ → List ℕ → Parsed ℕ
expect_low_surrogate high position (x ∷ y ∷ rest) =
    if x == 0x5c && y == b'u'
    then parse_low_surrogate high (cursor (position + 2) rest)
    else failed position "high surrogate is not followed by a low surrogate"
expect_low_surrogate high position rest =
    failed position "high surrogate is not followed by a low surrogate"

unfoldable pub parse_unicode_escape : Cursor → Parsed ℕ
parse_unicode_escape c = parse_hex4 c >>= λ first c'.
    if leb 0xd800 first && leb first 0xdbff
    then expect_low_surrogate first c'.position c'.rest
    else if leb 0xdc00 first && leb first 0xdfff
    then failed c'.position "unexpected low surrogate"
    else parsed first c'

-- The switch on the byte behind a backslash: the bytes it appends to the output.
unfoldable pub unescape : ℕ → Cursor → Parsed (List ℕ)
unescape escaped c =
    if escaped == 0x22
    then parsed (0x22 ∷ []) c
    else if escaped == 0x5c
    then parsed (0x5c ∷ []) c
    else if escaped == b'/'
    then parsed (b'/' ∷ []) c
    else if escaped == b'b'
    then parsed (0x08 ∷ []) c
    else if escaped == b'f'
    then parsed (0x0c ∷ []) c
    else if escaped == b'n'
    then parsed (0x0a ∷ []) c
    else if escaped == b'r'
    then parsed (0x0d ∷ []) c
    else if escaped == b't'
    then parsed (0x09 ∷ []) c
    else if escaped == b'u'
    then (parse_unicode_escape c >>= λ codepoint c'. parsed (encode_utf8 codepoint) c')
    else failed c.position "invalid string escape"

-- What a byte of the literal that is no quote and no control character appends.
unfoldable pub string_piece : ℕ → ℕ → List ℕ → Parsed (List ℕ)
string_piece byte position rest =
    if byte == 0x5c
    then elim rest [
      | [] ↦ failed position "incomplete string escape"
      | escaped ∷ rest' ↦ unescape escaped (cursor (suc position) rest')
    ]
    else parsed (byte ∷ []) (cursor position rest)

-- The loop of ParseString behind the opening quote. Each round takes a byte, so that the length of
-- the input is fuel enough; without any the scan stops.
unfoldable pub string_from : ℕ → ℕ → ℕ → List ℕ → List ℕ → Parsed (List ℕ)
unfolding string_piece is_valid_utf8
string_from fuel limit position [] output = failed position "unterminated string"
string_from zero limit position (byte ∷ rest) output = failed position "unterminated string"
string_from (suc fuel) limit position (byte ∷ rest) output =
    let piece = string_piece byte (suc position) rest in
    let again : Parsed (List ℕ) = elim piece [
      | failed n m ↦ failed n m
      | parsed bytes c ↦
          if ltb limit (length (output ++ bytes))
          then failed c.position "string byte limit exceeded"
          else string_from fuel limit c.position c.rest (output ++ bytes)
    ] in
    if byte == 0x22
    then (if is_valid_utf8 output
        then parsed output (cursor (suc position) rest)
        else failed (suc position) "string is not valid UTF-8")
    else if ltb byte 0x20
    then failed (suc position) "unescaped control character in string"
    else again

-- ParseString, called at a quote. `limit` is `limits_.max_string_bytes`.
unfoldable pub parse_string : ℕ → Cursor → Parsed (List ℕ)
unfolding string_from
parse_string limit c = elim c.rest [
  | [] ↦ failed (suc c.position) "unterminated string"
  | quote ∷ rest ↦ string_from (length rest) limit (suc c.position) rest []
]
