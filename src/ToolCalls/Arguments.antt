-- ===== src/ToolCalls/Arguments.antt =====
-- ArgumentDslParser of src/runtime/tool_call_parser.cpp: the arguments of a tool call, as the model writes
-- them, turned into JSON text.
--
-- A parse returns the text that it puts out and the rest of the input. Whether std::from_chars reads
-- all of a literal as a double is an argument.
pub mod Shrink
pub mod Fuel
mod Tests
use gem16gb.Prelude.{
  ℕ, zero, suc, ◌+◌, ◌*◌, Bool, true, false, not, ◌&&◌, ◌||◌, Option, none, some, List, [], ◌∷◌,
  ◌++◌, leb, ◌==◌, if◌then◌else◌, length, String,
}
use gem16gb.Status.{Result, ok, fail, refuse_if, ◌>>=◌, ◌>>◌, data_loss}
use gem16gb.Json.Escape.{escape}
use gem16gb.Json.Value.{comma, null_text, true_text, false_text}
use gem16gb.Json.Parse.{next_is, tail, is_nil, strip_prefix}
use gem16gb.Safetensors.{bytes_eq}

-- ParseError.
abbrev pub parse_error {ℓ} : {A : Type ℓ} → String → Result A
parse_error message = fail data_loss message

-- More text in front of what was found.
unfoldable pub behind_text : List ℕ → Option (List ℕ × List ℕ) → Option (List ℕ × List ℕ)
behind_text text none = none
behind_text text (some (before, behind)) = some (text ++ before, behind)

unfoldable pub found_here : Option (List ℕ) → Option (List ℕ × List ℕ) → Option (List ℕ × List ℕ)
found_here none later = later
found_here (some behind) later = some ([], behind)

-- std::string_view::find of a text that is not empty, with the substrings in front of it and behind it.
unfoldable pub split_at : List ℕ → List ℕ → Option (List ℕ × List ℕ)
split_at marker [] = none
split_at marker (c ∷ text) =
    found_here (strip_prefix marker (c ∷ text)) (behind_text (c ∷ []) (split_at marker text))

-- std::isalnum in the C locale.
abbrev pub is_alnum : ℕ → Bool
is_alnum c =
    (leb b'a' c && leb c b'z') || ((leb b'A' c && leb c b'Z') || (leb b'0' c && leb c b'9'))

-- Any number of bytes that pass a test, and what stands behind them.
unfoldable pub span : (ℕ → Bool) → List ℕ → List ℕ × List ℕ
span test [] = ([], [])
span test (c ∷ text) =
    let later = span test text in if test c then (c ∷ later.0, later.1) else ([], c ∷ text)

abbrev pub string_quote : List ℕ
string_quote = b'<' ∷ b'|' ∷ 0x22 ∷ b'|' ∷ b'>' ∷ []

-- ParseString, from behind the opening quote.
unfoldable pub parse_dsl_string : List ℕ → Result (List ℕ × List ℕ)
unfolding split_at behind_text found_here strip_prefix escape
parse_dsl_string text = elim (split_at string_quote text) [
  | none ↦ parse_error "Gemma tool arguments contain an unterminated string"
  | some (content, rest) ↦ ok (0x22 ∷ (escape content ++ 0x22 ∷ []), rest)
]

-- The literals of ParseValue.
unfoldable pub parse_dsl_literal : (List ℕ → Bool) → List ℕ → Result (List ℕ × List ℕ)
unfolding span bytes_eq
parse_dsl_literal is_number text =
    let (literal, rest) = span (λ c. not (c == b',' || (c == b'}' || c == b']'))) text in
    if is_nil literal
    then parse_error "Gemma tool arguments contain an empty value"
    else if bytes_eq literal true_text
        || (bytes_eq literal false_text || (bytes_eq literal null_text || is_number literal))
    then ok (literal, rest)
    else parse_error "Gemma tool arguments contain an unsupported literal"

-- Behind an entry stands a comma, or the closing bracket, which is left there.
unfoldable pub next_entry : ℕ → String → List ℕ → Result (List ℕ)
next_entry close message rest =
    if next_is (λ c. c == b',') rest
    then ok (tail rest)
    else if next_is (λ c. c == close) rest
    then ok rest
    else parse_error message

-- ParseValue, ParseObject and ParseArray. Every second call takes a byte.
unfoldable mutual
  unfolding parse_dsl_string parse_dsl_literal next_entry span strip_prefix escape

  pub parse_dsl_value : (List ℕ → Bool) → ℕ → List ℕ → Result (List ℕ × List ℕ)
  parse_dsl_value is_number zero text =
      parse_error "Gemma tool arguments contain an incomplete value"
  parse_dsl_value is_number (suc fuel) text =
      let members : Result (List ℕ × List ℕ) =
        parse_dsl_members is_number fuel true (tail text) >>= (λ r. ok (b'{' ∷ r.0, r.1)) in
      let items : Result (List ℕ × List ℕ) =
        parse_dsl_items is_number fuel true (tail text) >>= (λ r. ok (b'[' ∷ r.0, r.1)) in
      let plain : Result (List ℕ × List ℕ) =
        if next_is (λ c. c == b'{') text
        then members
        else if next_is (λ c. c == b'[') text
        then items
        else parse_dsl_literal is_number text in
      if is_nil text
      then parse_error "Gemma tool arguments contain an incomplete value"
      else elim (strip_prefix string_quote text) [
        | some content ↦ parse_dsl_string content
        | none ↦ plain
      ]

  pub parse_dsl_members : (List ℕ → Bool) → ℕ → Bool → List ℕ → Result (List ℕ × List ℕ)
  parse_dsl_members is_number zero first text =
      parse_error "Gemma tool arguments contain an unterminated object"
  parse_dsl_members is_number (suc fuel) first text =
      let (key, colon) = span (λ c. is_alnum c || c == b'_') text in
      let entry : Result (List ℕ × List ℕ) =
        refuse_if (is_nil key || not (next_is (λ c. c == b':') colon)) data_loss
          "Gemma tool arguments contain an invalid object key"
        >> (parse_dsl_value is_number fuel (tail colon) >>= (λ value.
            next_entry b'}' "Gemma tool arguments contain an unterminated object" value.1
            >>= (λ rest. parse_dsl_members is_number fuel false rest >>= (λ more. ok (
              comma first ++ (0x22 ∷ (escape key ++ 0x22 ∷ b':' ∷ (value.0 ++ more.0))),
              more.1,
            ))))) in
      if is_nil text
      then parse_error "Gemma tool arguments contain an unterminated object"
      else if next_is (λ c. c == b'}') text
      then ok (b'}' ∷ [], tail text)
      else entry

  pub parse_dsl_items : (List ℕ → Bool) → ℕ → Bool → List ℕ → Result (List ℕ × List ℕ)
  parse_dsl_items is_number zero first text =
      parse_error "Gemma tool arguments contain an unterminated array"
  parse_dsl_items is_number (suc fuel) first text =
      let entry : Result (List ℕ × List ℕ) = parse_dsl_value is_number fuel text >>= (λ value.
        next_entry b']' "Gemma tool arguments contain an unterminated array" value.1 >>= (λ rest.
          parse_dsl_items is_number fuel false rest
          >>= (λ more. ok (comma first ++ (value.0 ++ more.0), more.1)))) in
      if is_nil text
      then parse_error "Gemma tool arguments contain an unterminated array"
      else if next_is (λ c. c == b']') text
      then ok (b']' ∷ [], tail text)
      else entry

-- Parse.
unfoldable pub parse_arguments : (List ℕ → Bool) → List ℕ → Result (List ℕ)
unfolding parse_dsl_value
parse_arguments is_number input = do
  value ← parse_dsl_value is_number (2 * length input + 2) input
  refuse_if (not (is_nil value.1)) data_loss "Gemma tool arguments contain trailing data"
  ok value.0
