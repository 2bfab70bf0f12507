-- ===== src/Json/Parse.antt =====
-- The values of the JSON parser, src/util/json.cpp: literals, numbers, arrays and objects, and Parse.
pub mod Numbers
pub mod Steps
pub mod RoundTrip
pub mod Shrink
pub mod Taken
pub mod Rounds
pub mod Fuel
mod Tests
use gem16gb.Prelude.{
  ℕ, zero, suc, ◌+◌, ◌-◌, ◌*◌, ◌%◌, ◌^◌, Bool, true, false, not, ◌&&◌, ◌||◌, Option, none, some,
  List, [], ◌∷◌, ◌++◌, ltb, leb, ◌==◌, if◌then◌else◌, length, String,
}
use gem16gb.Json.Strings.{Cursor, Parsed, parsed, failed, ◌>>=◌, cursor, parse_string}
use gem16gb.Json.Value.{
  ℤ, pos, negsuc, Value, null, bool, integer, double, string, array, object, Items, nil, cons,
  Members, empty, entry, emplace, null_text, true_text, false_text,
}

pub record ParseLimits : Type 0 where
  pub max_depth : ℕ
  pub max_values : ℕ
  pub max_string_bytes : ℕ

abbrev pub is_space : ℕ → Bool
is_space c = c == b' ' || (c == 0x09 || (c == 0x0a || c == 0x0d))

abbrev pub is_digit : ℕ → Bool
is_digit c = leb b'0' c && leb c b'9'

abbrev pub is_digit19 : ℕ → Bool
is_digit19 c = leb b'1' c && leb c b'9'

-- SkipWhitespace.
unfoldable pub skip_from : ℕ → List ℕ → Cursor
skip_from position [] = cursor position []
skip_from position (c ∷ rest) =
    let further = skip_from (suc position) rest in
    if is_space c then further else cursor position (c ∷ rest)

unfoldable pub skip_whitespace : Cursor → Cursor
unfolding skip_from
skip_whitespace c = skip_from c.position c.rest

-- The byte at the cursor passes a test; at the end of the input none does.
abbrev pub next_is : (ℕ → Bool) → List ℕ → Bool
next_is test [] = false
next_is test (c ∷ rest) = test c

-- The cursor behind the next byte, where there is one.
abbrev pub tail : List ℕ → List ℕ
tail [] = []
tail (c ∷ rest) = rest

abbrev pub advance : Cursor → Cursor
advance c = cursor (suc c.position) (tail c.rest)

-- ParseLiteral: the rest behind the literal, if it stands here.
unfoldable pub strip_prefix : List ℕ → List ℕ → Option (List ℕ)
strip_prefix [] rest = some rest
strip_prefix (l ∷ literal) [] = none
strip_prefix (l ∷ literal) (c ∷ rest) =
    let further = strip_prefix literal rest in if l == c then further else none

unfoldable pub parse_literal : List ℕ → Value → Cursor → Parsed Value
unfolding strip_prefix
parse_literal literal value c = elim (strip_prefix literal c.rest) [
  | none ↦ failed c.position "invalid literal"
  | some rest ↦ parsed value (cursor (c.position + length literal) rest)
]

-- The loop over digits: those that are passed, and what stands behind them.
unfoldable pub digits_of : List ℕ → List ℕ
digits_of [] = []
digits_of (c ∷ rest) = let further = digits_of rest in if is_digit c then c ∷ further else []

unfoldable pub after_digits : List ℕ → List ℕ
after_digits [] = []
after_digits (c ∷ rest) =
    let further = after_digits rest in if is_digit c then further else c ∷ rest

-- The parts of a number that ParseNumber passes; each gives the bytes that it passed.
unfoldable pub scan_digits : Cursor → Parsed (List ℕ)
unfolding digits_of after_digits
scan_digits c =
    parsed (digits_of c.rest)
      (cursor (c.position + length (digits_of c.rest)) (after_digits c.rest))

unfoldable pub scan_integer : Cursor → Parsed (List ℕ)
unfolding scan_digits
scan_integer c =
    if next_is (λ b. b == b'0') c.rest
    then (if next_is is_digit (advance c).rest
        then failed (advance c).position "leading zero in number"
        else parsed (b'0' ∷ []) (advance c))
    else if next_is is_digit19 c.rest
    then scan_digits c
    else failed c.position "invalid integer part"

unfoldable pub scan_fraction : Cursor → Parsed (List ℕ)
unfolding scan_digits
scan_fraction c =
    if next_is (λ b. b == b'.') c.rest
    then (if next_is is_digit (advance c).rest
        then (scan_digits (advance c) >>= λ digits behind. parsed (b'.' ∷ digits) behind)
        else failed (advance c).position "fraction requires a digit")
    else parsed [] c

-- The sign of an exponent.
unfoldable pub scan_sign : ℕ → List ℕ → Parsed (List ℕ)
scan_sign position [] = parsed [] (cursor position [])
scan_sign position (c ∷ rest) =
    if c == b'+' || c == b'-'
    then parsed (c ∷ []) (cursor (suc position) rest)
    else parsed [] (cursor position (c ∷ rest))

unfoldable pub scan_exponent_digits : ℕ → ℕ → List ℕ → Parsed (List ℕ)
unfolding scan_sign scan_digits
scan_exponent_digits e position rest = scan_sign position rest >>= λ sign c.
    if next_is is_digit c.rest
    then (scan_digits c >>= λ digits behind. parsed (e ∷ (sign ++ digits)) behind)
    else failed c.position "exponent requires a digit"

unfoldable pub scan_exponent : ℕ → List ℕ → Parsed (List ℕ)
unfolding scan_exponent_digits
scan_exponent position [] = parsed [] (cursor position [])
scan_exponent position (c ∷ rest) =
    if c == b'e' || c == b'E'
    then scan_exponent_digits c (suc position) rest
    else parsed [] (cursor position (c ∷ rest))

-- std::from_chars on a token that the scan has passed: a sign, and digits.
unfoldable pub decimal_value : ℕ → List ℕ → ℕ
decimal_value value [] = value
decimal_value value (c ∷ digits) = decimal_value (value * 10 + (c - b'0')) digits

unfoldable pub signed : Bool → ℕ → Option ℤ
signed false magnitude = if ltb magnitude (2 ^ 63) then some (pos magnitude) else none
signed true zero = some (pos 0)
signed true (suc n) = if ltb n (2 ^ 63) then some (negsuc n) else none

-- What ParseNumber makes of the token: an integer where it is one and fits 64 bits, else the double that
-- strtod reads, unless that is not finite.
unfoldable pub number_value : (List ℕ → Option ℕ) → Bool → List ℕ → Bool → List ℕ → Option Value
unfolding decimal_value signed
number_value strtod negative digits is_integer token =
    let wide : Option Value = elim (strtod token) [
      | none ↦ none
      | some bits ↦ some (double bits)
    ] in
    if is_integer
    then elim (signed negative (decimal_value 0 digits)) [ none ↦ wide | some n ↦ some (integer n) ]
    else wide

abbrev pub is_nil : List ℕ → Bool
is_nil [] = true
is_nil (x ∷ xs) = false

abbrev pub sign_of : Bool → List ℕ
sign_of true = b'-' ∷ []
sign_of false = []

-- The end of ParseNumber, with the parts of the token.
unfoldable pub end_number :
    (List ℕ → Option ℕ) → Bool → List ℕ → List ℕ → List ℕ → Cursor → Parsed Value
unfolding number_value
end_number strtod negative whole fraction exponent c =
    elim (number_value strtod negative whole (is_nil fraction && is_nil exponent)
      (sign_of negative ++ (whole ++ (fraction ++ exponent)))) [
        | none ↦ failed c.position "invalid or non-finite number"
        | some value ↦ parsed value c
      ]

unfoldable pub parse_unsigned : (List ℕ → Option ℕ) → Bool → Cursor → Parsed Value
unfolding scan_integer scan_fraction scan_exponent end_number
parse_unsigned strtod negative c = scan_integer c >>= λ whole c1.
    scan_fraction c1 >>= λ fraction c2. scan_exponent c2.position c2.rest >>= λ exponent c3.
    end_number strtod negative whole fraction exponent c3

unfoldable pub parse_number : (List ℕ → Option ℕ) → Cursor → Parsed Value
unfolding parse_unsigned
parse_number strtod c =
    if next_is (λ b. b == b'-') c.rest
    then (if is_nil (tail c.rest)
        then failed (suc c.position) "incomplete number"
        else parse_unsigned strtod true (advance c))
    else parse_unsigned strtod false c

-- A value that does not hold others, by its first byte.
unfoldable pub parse_scalar : (List ℕ → Option ℕ) → ParseLimits → ℕ → Cursor → Parsed Value
unfolding parse_literal parse_number
parse_scalar strtod limits first c =
    if first == b'n'
    then parse_literal null_text null c
    else if first == b't'
    then parse_literal true_text (bool true) c
    else if first == b'f'
    then parse_literal false_text (bool false) c
    else if first == 0x22
    then (parse_string limits.max_string_bytes c >>= λ text c'. parsed (string text) c')
    else if first == b'-' || is_digit first
    then parse_number strtod c
    else failed c.position "unexpected character"

abbrev pub seen_value : ℕ → Value → Cursor → Parsed (Value × ℕ)
seen_value seen value c = parsed (value, seen) c

-- ParseValue, ParseArray and ParseObject. With the value comes `values_seen_`. Every second call takes a
-- byte, so that fuel of twice the length of the input is enough; without any the parse stops.
unfoldable mutual
  unfolding skip_whitespace parse_scalar emplace

  pub parse_value : (List ℕ → Option ℕ) → ParseLimits → ℕ → ℕ → ℕ → Cursor → Parsed (Value × ℕ)
  parse_value strtod limits zero depth seen c = failed c.position "unexpected end of input"
  parse_value strtod limits (suc fuel) depth seen c =
      let inside = skip_whitespace (advance c) in
      let items : Parsed (Value × ℕ) =
        if next_is (λ b. b == b']') inside.rest
        then parsed (array nil, suc seen) (advance inside)
        else (parse_items strtod limits fuel (suc depth) (suc seen) inside >>= λ r c'.
            parsed (array r.0, r.1) c') in
      let members : Parsed (Value × ℕ) =
        if next_is (λ b. b == b'}') inside.rest
        then parsed (object empty, suc seen) (advance inside)
        else (parse_members strtod limits fuel (suc depth) (suc seen) empty inside >>= λ r c'.
            parsed (object r.0, r.1) c') in
      let value : Parsed (Value × ℕ) = elim c.rest [
        | [] ↦ failed c.position "unexpected end of input"
        | first ∷ rest ↦
            if first == b'['
            then items
            else if first == b'{'
            then members
            else (parse_scalar strtod limits first c >>= seen_value (suc seen))
      ] in
      if ltb limits.max_depth depth
      then failed c.position "nesting limit exceeded"
      else if ltb limits.max_values (suc seen)
      then failed c.position "value count limit exceeded"
      else value

  -- The loop of ParseArray: this item and those behind it.
  pub parse_items : (List ℕ → Option ℕ) → ParseLimits → ℕ → ℕ → ℕ → Cursor → Parsed (Items × ℕ)
  parse_items strtod limits zero depth seen c = failed c.position "unexpected end of input"
  parse_items strtod limits (suc fuel) depth seen c =
      parse_value strtod limits fuel depth seen c >>= λ item c1.
      let c2 = skip_whitespace c1 in
      let further : Parsed (Items × ℕ) =
        parse_items strtod limits fuel depth item.1 (skip_whitespace (advance c2)) >>= λ items c3.
        parsed (cons item.0 items.0, items.1) c3 in
      if next_is (λ b. b == b']') c2.rest
      then parsed (cons item.0 nil, item.1) (advance c2)
      else if next_is (λ b. b == b',') c2.rest
      then further
      else failed c2.position "expected ',' or ']' in array"

  -- The loop of ParseObject, on the entries so far.
  pub parse_members :
      (List ℕ → Option ℕ) → ParseLimits → ℕ → ℕ → ℕ → Members → Cursor → Parsed (Members × ℕ)
  parse_members strtod limits zero depth seen members c =
      failed c.position "unexpected end of input"
  parse_members strtod limits (suc fuel) depth seen members c =
      let one : Parsed (Members × ℕ) = parse_string limits.max_string_bytes c >>= λ key c1.
      let c2 = skip_whitespace c1 in
      let value : Parsed (Members × ℕ) =
        parse_value strtod limits fuel depth seen (skip_whitespace (advance c2)) >>= λ item c3.
        elim (emplace key item.0 members) [
          | none ↦ failed c3.position "duplicate object key"
          | some grown ↦
              let c4 = skip_whitespace c3 in
              let further =
                parse_members strtod limits fuel depth item.1 grown
                  (skip_whitespace (advance c4)) in
              if next_is (λ b. b == b'}') c4.rest
              then parsed (grown, item.1) (advance c4)
              else if next_is (λ b. b == b',') c4.rest
              then further
              else failed c4.position "expected ',' or '}' in object"
        ] in
      if next_is (λ b. b == b':') c2.rest
      then value
      else failed c2.position "expected ':' after object key" in
      if next_is (λ b. b == 0x22) c.rest
      then one
      else failed c.position "expected a string object key"

-- Parser::Run.
unfoldable pub run : (List ℕ → Option ℕ) → ParseLimits → List ℕ → Parsed Value
unfolding parse_value skip_whitespace
run strtod limits input =
    parse_value strtod limits (2 * length input + 2) 0 0 (skip_whitespace (cursor 0 input))
    >>= λ r c.
        let end = skip_whitespace c in
        if is_nil end.rest
        then parsed r.0 end
        else failed end.position "trailing data after the root value"

-- Parse: `none` stands for the refusal of a document that is too long. A size_t has 64 bits.
unfoldable pub parse : (List ℕ → Option ℕ) → ParseLimits → List ℕ → Option (Parsed Value)
unfolding run
parse strtod limits input =
    if ltb (limits.max_string_bytes * 2 % 2 ^ 64) (length input)
    then none
    else some (run strtod limits input)
