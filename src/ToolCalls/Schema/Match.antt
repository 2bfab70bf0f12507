-- ===== src/ToolCalls/Schema/Match.antt =====
-- MatchesStrictSchema of src/runtime/tool_call_parser.cpp.
--
-- `none` stands for the exception of std::get on a value of another type. The reason that the source
-- writes beside a mismatch is left out. `fuel` is 33 less the depth, and `format` is what a stream prints for
-- a double.
use gem16gb.Prelude.{
  ℕ, zero, suc, ◌-◌, ◌^◌, Bool, true, false, not, ◌||◌, Option, none, some, List, ltb, ◌==◌,
  if◌then◌else◌,
}
use gem16gb.Json.Value.{
  ℤ, pos, negsuc, Value, bool, integer, double, string, array, object, Items, nil, cons, Members,
  empty, entry, find,
}
use gem16gb.Json.Double.{as_number, double_less, double_equal}
use gem16gb.Safetensors.{codes}
use gem16gb.ToolCalls.{utf8_code_point_count}
use gem16gb.ToolCalls.Schema.Values.{
  ◌>>=◌, as_string, as_array, as_integer, and_also, if_present, resolve_reference, json_equal,
  type_matches,
}

unfoldable pub on_target : (Value → Option Bool) → Option Value → Option Bool
on_target rec none = some false
on_target rec (some target) = rec target

unfoldable pub reference_matches : Value → (Value → Option Bool) → Option Value → Option Bool
unfolding on_target resolve_reference as_string if_present
reference_matches root rec =
    if_present
      λ reference. as_string reference >>= λ name. on_target rec (resolve_reference root name)

-- The loop over the alternatives, and the number of those that match.
unfoldable pub count_matches : (Value → Option Bool) → Items → Option ℕ
count_matches rec nil = some 0
count_matches rec (cons item rest) =
    rec item >>= λ matched. count_matches rec rest >>= λ n. some (if matched then suc n else n)

unfoldable pub size : Items → ℕ
size nil = 0
size (cons item rest) = suc (size rest)

-- `valid` compares the number of matches with the number of alternatives.
unfoldable pub alternatives_match :
    (Value → Option Bool) → (ℕ → ℕ → Bool) → Option Value → Option Bool
unfolding count_matches size as_array if_present
alternatives_match rec valid = if_present λ alternatives. as_array alternatives >>= λ items.
    count_matches rec items >>= λ matches. some (valid matches (size items))

-- The members behind the first one that matches are not looked at.
unfoldable pub any_type : Value → Items → Option Bool
unfolding type_matches as_string
any_type value nil = some false
any_type value (cons member rest) =
    as_string member >>= λ type. if type_matches value type then some true else any_type value rest

unfoldable pub type_keyword_matches : Value → Value → Option Bool
unfolding any_type type_matches as_array
type_keyword_matches value (string name) = some (type_matches value name)
type_keyword_matches value types = as_array types >>= any_type value

unfoldable pub any_equal : (ℕ → List ℕ) → Value → Items → Bool
unfolding json_equal
any_equal format value nil = false
any_equal format value (cons candidate rest) =
    let later = any_equal format value rest in
    if json_equal format value candidate then true else later

-- The required names of an object.
unfoldable pub has_required : Value → Items → Option Bool
unfolding as_string find
has_required value nil = some true
has_required value (cons name rest) = as_string name >>= λ key. elim (find key value) [
  | none ↦ some false
  | some member ↦ has_required value rest
]

-- A member without a schema of its own.
unfoldable pub additional_matches : (Value → Option Bool) → Option Value → Option Bool
additional_matches rec (some (bool allowed)) = some allowed
additional_matches rec (some (object members)) = rec (object members)
additional_matches rec additional = some true

abbrev pub find_in : Option Value → List ℕ → Option Value
unfolding find
find_in none name = none
find_in (some properties) name = find name properties

unfoldable pub member_matches : (Value → Option Bool) → Option Value → Option Value → Option Bool
unfolding additional_matches
member_matches rec none additional = additional_matches rec additional
member_matches rec (some member_schema) additional = rec member_schema

unfoldable pub members_match : (Value → Value → Option Bool) → Value → Members → Option Bool
unfolding member_matches and_also find_in find
members_match rec schema empty = some true
members_match rec schema (entry name member rest) =
    and_also
      (member_matches (rec member) (find_in (find (codes "properties") schema) name)
        (find (codes "additionalProperties") schema))
      (members_match rec schema rest)

-- `static_cast<std::size_t>`.
abbrev pub to_size : ℤ → ℕ
to_size (pos n) = n
to_size (negsuc n) = 2 ^ 64 - suc n

unfoldable pub length_matches : (ℕ → Bool) → Option Value → Option Bool
unfolding as_integer if_present
length_matches bad = if_present λ limit. as_integer limit >>= λ n. some (not (bad (to_size n)))

unfoldable pub items_match : (Value → Value → Option Bool) → Items → Value → Option Bool
unfolding and_also
items_match rec nil schema = some true
items_match rec (cons member rest) schema =
    and_also (rec member schema) (items_match rec rest schema)

unfoldable pub bound_matches : (ℕ → Bool) → Option Value → Option Bool
unfolding as_number if_present
bound_matches bad = if_present λ limit. as_number limit >>= λ n. some (not (bad n))

unfoldable pub text_matches : Value → Option ℕ → Option Bool
unfolding and_also length_matches find
text_matches schema none = some false
text_matches schema (some size) =
    and_also (length_matches (λ limit. ltb size limit) (find (codes "minLength") schema))
      (length_matches (λ limit. ltb limit size) (find (codes "maxLength") schema))

unfoldable pub number_matches : Value → ℕ → Option Bool
unfolding and_also bound_matches find double_less double_equal
number_matches schema x =
    and_also (bound_matches (λ m. double_less x m) (find (codes "minimum") schema)) (
      and_also (bound_matches (λ m. double_less m x) (find (codes "maximum") schema)) (
        and_also
          (bound_matches (λ m. double_less x m || double_equal x m)
            (find (codes "exclusiveMinimum") schema))
          (bound_matches (λ m. double_less m x || double_equal x m)
            (find (codes "exclusiveMaximum") schema))))

-- The checks for a value of one type.
unfoldable pub value_matches : (Value → Value → Option Bool) → Value → Value → Option Bool
unfolding and_also if_present has_required members_match length_matches items_match text_matches
    number_matches as_array as_number size utf8_code_point_count find
value_matches rec schema (object members) =
    and_also
      (if_present (λ required. as_array required >>= has_required (object members))
        (find (codes "required") schema))
      (members_match rec schema members)
value_matches rec schema (array items) =
    and_also (length_matches (λ n. ltb (size items) n) (find (codes "minItems") schema)) (
      and_also (length_matches (λ n. ltb n (size items)) (find (codes "maxItems") schema))
        (if_present (items_match rec items) (find (codes "items") schema)))
value_matches rec schema (string text) = text_matches schema (utf8_code_point_count text)
value_matches rec schema (integer n) = as_number (integer n) >>= number_matches schema
value_matches rec schema (double bits) = as_number (double bits) >>= number_matches schema
value_matches rec schema value = some true

-- MatchesStrictSchema.
unfoldable pub matches_schema : (ℕ → List ℕ) → Value → ℕ → Value → Value → Option Bool
unfolding and_also if_present reference_matches alternatives_match type_keyword_matches any_equal
    json_equal as_array value_matches find
matches_schema format root zero value schema = some false
matches_schema format root (suc fuel) value schema =
    let rec = matches_schema format root fuel in
    and_also (reference_matches root (rec value) (find (codes "$ref") schema)) (
      and_also
        (alternatives_match (rec value) (λ n total. n == total) (find (codes "allOf") schema))
        (and_also
          (alternatives_match (rec value) (λ n total. not (n == 0)) (find (codes "anyOf") schema))
          (and_also
            (alternatives_match (rec value) (λ n total. n == 1) (find (codes "oneOf") schema))
            (and_also (if_present (type_keyword_matches value) (find (codes "type") schema)) (
              and_also
                (if_present
                  (λ candidates.
                    as_array candidates >>= λ items. some (any_equal format value items))
                  (find (codes "enum") schema))
                (and_also
                  (if_present (λ constant. some (json_equal format value constant))
                    (find (codes "const") schema))
                  (value_matches rec schema value)))))))
