-- ===== src/Json/Strings/Tests.antt =====
-- Tests of the string scanner, and its theorems at concrete inputs.
use gem16gb.Prelude.{ℕ, ◌+◌, true, ◌≡◌, refl, List, [], ◌∷◌, ◌++◌, length, arith}
use gem16gb.Json.Escape.{quote}
use gem16gb.Json.Utf8.{is_valid_utf8, encode_utf8}
use gem16gb.Json.Strings.{
  Cursor, Parsed, parsed, failed, cursor, parse_string, unescape, string_from,
}
use gem16gb.Json.Strings.RoundTrip.{parse_string-quote}
use gem16gb.Json.Strings.Fuel.{string_from-fuel}
use gem16gb.Json.Strings.Sound.{Accepted, parse_string-Accepted}

-- A quote, a newline, the control byte 1, and the three bytes of the euro sign.
abbrev sample : List ℕ
sample = 0x22 ∷ 0x0a ∷ 0x01 ∷ 0xe2 ∷ 0x82 ∷ 0xac ∷ []

sample_valid : is_valid_utf8 sample ≡ true
unfolding is_valid_utf8
sample_valid = refl

-- The pair of escapes \ud83d\ude00 is one code point of four bytes.
surrogates_lem :
    unescape b'u'
      (cursor 0 (b'd' ∷ b'8' ∷ b'3' ∷ b'd' ∷ 0x5c ∷ b'u' ∷ b'd' ∷ b'e' ∷ b'0' ∷ b'0' ∷ []))
    ≡ parsed (0xf0 ∷ 0x9f ∷ 0x98 ∷ 0x80 ∷ []) (cursor 10 [])
unfolding unescape gem16gb.Json.Strings.parse_unicode_escape gem16gb.Json.Strings.parse_hex4
    gem16gb.Json.Strings.parse_low_surrogate encode_utf8
surrogates_lem = refl

parse_string-quote_example :
    parse_string 100 (cursor 3 (quote sample ++ 0x2c ∷ []))
    ≡ parsed sample (cursor (3 + length (quote sample)) (0x2c ∷ []))
parse_string-quote_example = parse_string-quote 100 3 sample (0x2c ∷ []) sample_valid (omega arith)

-- A lone continuation byte.
parse_string-Accepted_example : Accepted 10 (parse_string 10 (cursor 0 (0x22 ∷ 0x80 ∷ 0x22 ∷ [])))
parse_string-Accepted_example = parse_string-Accepted 10 (cursor 0 (0x22 ∷ 0x80 ∷ 0x22 ∷ []))

string_from-fuel_example :
    string_from 7 100 1 (sample ++ 0x22 ∷ []) [] ≡ string_from 40 100 1 (sample ++ 0x22 ∷ []) []
string_from-fuel_example =
    string_from-fuel 7 40 100 1 (sample ++ 0x22 ∷ []) [] (omega arith) (omega arith)
