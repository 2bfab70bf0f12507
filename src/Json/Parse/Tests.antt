-- ===== src/Json/Parse/Tests.antt =====
-- The JSON parser on small documents, and its theorems at concrete values.
use gem16gb.Prelude.{ℕ, ◌≡◌, refl, true, Option, none, some, List, [], ◌∷◌, length, arith}
use gem16gb.Json.Strings.{Parsed, parsed, failed, cursor}
use gem16gb.Json.Utf8.{is_valid_utf8}
use gem16gb.Json.Value.{
  negsuc, Value, bool, integer, string, array, object, nil, cons, empty, entry, stringified,
  key_less,
}
use gem16gb.Json.Value.Exact.{IsExact, height, values}
use gem16gb.Json.Value.Numbers.{InRange}
use gem16gb.Json.Parse.{ParseLimits, parse, parse_value}
use gem16gb.Json.Parse.Fuel.{parse_value-fuel}
use gem16gb.Safetensors.{codes}
use gem16gb.Json.Parse.RoundTrip.{parse-stringified}

-- A strtod that reads nothing, and a stream that prints nothing.
abbrev no_strtod : List ℕ → Option ℕ
no_strtod token = none

abbrev no_format : ℕ → List ℕ
no_format bits = []

abbrev small_limits : ParseLimits
small_limits = record { max_depth = 4; max_values = 20; max_string_bytes = 100 }

-- { "a": [true, -7, {}], "b": "x" }
abbrev sample : Value
sample = object (
    entry (b'a' ∷ [])
      (array (cons (bool true) (cons (integer (negsuc 6)) (cons (object empty) nil))))
      (entry (b'b' ∷ []) (string (b'x' ∷ [])) empty))

sample-IsExact : IsExact 100 sample
unfolding IsExact key_less is_valid_utf8 InRange
sample-IsExact = (
  ((refl, tt), (tt, tt)),
  (
    (refl, omega arith),
    (tt, (omega arith, ((tt, tt), tt))),
    ((refl, omega arith), (refl, omega arith), tt),
  ),
)

parse-stringified_example :
    parse no_strtod small_limits (stringified no_format sample)
    ≡ some (parsed sample (cursor (length (stringified no_format sample)) []))
unfolding height values stringified gem16gb.Json.Escape.escape_byte
parse-stringified_example =
    parse-stringified no_strtod no_format small_limits sample sample-IsExact (omega arith)
      (omega arith) (omega arith)

-- [1,] is refused at the closing bracket.
trailing_comma :
    parse no_strtod small_limits (b'[' ∷ b'1' ∷ b',' ∷ b']' ∷ [])
    ≡ some (failed 3 "unexpected character")
unfolding parse
trailing_comma = refl

-- White space, and a number that begins with zero.
leading_zero :
    parse no_strtod small_limits (b' ' ∷ b'0' ∷ b'1' ∷ [])
    ≡ some (failed 2 "leading zero in number")
unfolding parse
leading_zero = refl

-- A key twice.
duplicate_key :
    parse no_strtod small_limits (
      b'{' ∷ 0x22 ∷ b'a' ∷ 0x22 ∷ b':' ∷ b'1' ∷ b',' ∷ 0x22 ∷ b'a' ∷ 0x22 ∷ b':' ∷ b'2' ∷ b'}' ∷ [])
    ≡ some (failed 12 "duplicate object key")
unfolding parse gem16gb.Json.Strings.parse_string
duplicate_key = refl

-- Fifty more calls than the text can need.
parse_value-fuel_example :
    parse_value no_strtod small_limits 100 0 0 (cursor 0 (codes "[{\"a\":[1,2]},[]]"))
    ≡ parse_value no_strtod small_limits 36 0 0 (cursor 0 (codes "[{\"a\":[1,2]},[]]"))
parse_value-fuel_example =
    parse_value-fuel no_strtod small_limits 100 36 0 0 (cursor 0 (codes "[{\"a\":[1,2]},[]]"))
      (omega arith) (omega arith)
