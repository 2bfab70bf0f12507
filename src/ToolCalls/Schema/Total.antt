-- ===== src/ToolCalls/Schema/Total.antt =====
-- MatchesStrictSchema of src/runtime/tool_call_parser.cpp as a whole: on a schema that the check has
-- accepted it ends without an exception.
use gem16gb.Prelude.{
  ℕ, zero, suc, ◌≡◌, refl, sym, subst, Bool, not, Option, none, some, List, [], ltb, ◌==◌,
}
use gem16gb.Status.{ok}
use gem16gb.Json.Value.{
  Value, null, bool, integer, double, string, object, array, Items, nil, cons, Members, empty,
  entry, find,
}
use gem16gb.Json.Double.{as_number, to_double}
use gem16gb.Safetensors.{codes}
use gem16gb.ToolCalls.{utf8_code_point_count}
use gem16gb.ToolCalls.Schema.{
  check_properties, check_required, check_additional, check_items, validate_schema,
}
use gem16gb.ToolCalls.Schema.Values.{◌>>=◌, as_array, if_present, json_equal}
use gem16gb.ToolCalls.Schema.Match.{
  find_in, size, any_equal, has_required, additional_matches, member_matches, members_match,
  items_match, text_matches, number_matches, value_matches, matches_schema,
}
use gem16gb.ToolCalls.Schema.Sound.{
  >>-eq-ok, Accepted, validate_schema-Accepted, find_member-PassesAs, Checked, Accepted-Checked,
}
use gem16gb.ToolCalls.Schema.Safe.{
  Returns, returns, Safe, and_also-Returns, alternatives_match-Returns, reference_matches-Returns,
  type_keyword_matches-Returns, enumeration-Returns, length_matches-Returns, bound_matches-Returns,
  has_required-Returns,
}

properties-Accepted :
    (strict : Bool) (fuel : ℕ) (properties : Option Value) (name : List ℕ) {schema : Value}
    → check_properties (validate_schema strict fuel) properties ≡ ok tt
    → find_in properties name ≡ some schema
    → Accepted schema
unfolding check_properties find
properties-Accepted strict fuel none name h found = cc
properties-Accepted strict fuel (some (object members)) name h found =
    let (key, passed) = find_member-PassesAs _ members name h found in
    let (named, here) = >>-eq-ok _ _ passed in validate_schema-Accepted strict fuel _ here
properties-Accepted strict fuel (some value) name h found = cc

module _ (rec : Value → Option Bool) (safe : Safe rec) (strict : Bool) (fuel : ℕ) where
  additional_matches-Returns :
      (additional : Option Value)
      → check_additional (validate_schema strict fuel) additional ≡ ok tt
      → Returns (additional_matches rec additional)
  unfolding additional_matches check_additional
  additional_matches-Returns (some (object members)) h =
      safe (object members) (validate_schema-Accepted strict fuel _ h)
  additional_matches-Returns (some (bool allowed)) h = returns
  additional_matches-Returns additional h = returns

  member_matches-Returns :
      (schema additional : Option Value)
      → ((s : Value) → schema ≡ some s → Accepted s)
      → check_additional (validate_schema strict fuel) additional ≡ ok tt
      → Returns (member_matches rec schema additional)
  unfolding member_matches
  member_matches-Returns none additional accepted h = additional_matches-Returns additional h
  member_matches-Returns (some schema) additional accepted h = safe schema (accepted schema refl)

module _ (rec : Value → Value → Option Bool) (safe : (value : Value) → Safe (rec value)) where
  items_match-Returns :
      (items : Items) (schema : Value) → Accepted schema → Returns (items_match rec items schema)
  unfolding items_match
  items_match-Returns nil schema accepted = returns
  items_match-Returns (cons item rest) schema accepted =
      and_also-Returns (safe item schema accepted) (items_match-Returns rest schema accepted)

  item_schema-Returns :
      (strict : Bool) (fuel : ℕ) (items : Items) (schema : Option Value)
      → check_items (validate_schema strict fuel) schema ≡ ok tt
      → Returns (if_present (items_match rec items) schema)
  unfolding check_items if_present
  item_schema-Returns strict fuel items none h = returns
  item_schema-Returns strict fuel items (some schema) h =
      items_match-Returns items schema (validate_schema-Accepted strict fuel schema h)

required-Returns :
    (value : Value) (required : Option Value)
    → check_required required ≡ ok tt
    → Returns (if_present (λ r. as_array r >>= has_required value) required)
unfolding check_required if_present as_array
required-Returns value none h = returns
required-Returns value (some (array names)) h = has_required-Returns value [] names h
required-Returns value (some other) h = cc

module _ {strict : Bool} {fuel : ℕ} {members : Members} (checked : Checked strict fuel members)
    (rec : Value → Value → Option Bool) (safe : (value : Value) → Safe (rec value)) where
  members_match-Returns : (entries : Members) → Returns (members_match rec (object members) entries)
  unfolding members_match
  members_match-Returns empty = returns
  members_match-Returns (entry name member rest) =
      and_also-Returns
        (member_matches-Returns (rec member) (safe member) strict fuel _ _
          (λ s found.
            properties-Accepted strict fuel (find (codes "properties") (object members)) name
              checked.properties_checked found)
          checked.additional_checked)
        (members_match-Returns rest)

  text_matches-Returns : (o : Option ℕ) → Returns (text_matches (object members) o)
  unfolding text_matches
  text_matches-Returns none = returns
  text_matches-Returns (some n) =
      let (min_length, (max_length, (min_items, (max_items, end)))) = checked.lengths_checked in
      and_also-Returns (length_matches-Returns (λ m. ltb n m) _ min_length)
        (length_matches-Returns (λ m. ltb m n) _ max_length)

  number_matches-Returns : (x : ℕ) → Returns (number_matches (object members) x)
  unfolding number_matches
  number_matches-Returns x =
      let (least, (most, (above, (below, end)))) = checked.bounds_checked in
      and_also-Returns (bound_matches-Returns _ _ least) (
        and_also-Returns (bound_matches-Returns _ _ most)
          (and_also-Returns (bound_matches-Returns _ _ above) (bound_matches-Returns _ _ below)))

  value_matches-Returns : (value : Value) → Returns (value_matches rec (object members) value)
  unfolding value_matches as_number
  value_matches-Returns (object entries) =
      and_also-Returns (required-Returns (object entries) _ checked.required_checked)
        (members_match-Returns entries)
  value_matches-Returns (array items) =
      let (min_length, (max_length, (min_items, (max_items, end)))) = checked.lengths_checked in
      and_also-Returns (length_matches-Returns (λ n. ltb (size items) n) _ min_items) (
        and_also-Returns (length_matches-Returns (λ n. ltb n (size items)) _ max_items)
          (item_schema-Returns rec safe strict fuel items _ checked.items_checked))
  value_matches-Returns (string text) = text_matches-Returns (utf8_code_point_count text)
  value_matches-Returns (integer n) = number_matches-Returns (to_double n)
  value_matches-Returns (double bits) = number_matches-Returns bits
  value_matches-Returns null = returns
  value_matches-Returns (bool b) = returns

constant-Returns :
    (format : ℕ → List ℕ) (value : Value) (constant : Option Value)
    → Returns (if_present (λ c. some (json_equal format value c)) constant)
unfolding if_present
constant-Returns format value none = returns
constant-Returns format value (some c) = returns

module _ (format : ℕ → List ℕ) (root : Value) (accepted_root : Accepted root) where
  round-Returns :
      {strict : Bool} {fuel' : ℕ} {members : Members}
      → Checked strict fuel' members
      → (fuel : ℕ) (value : Value) → ((v : Value) → Safe (matches_schema format root fuel v))
      → Returns (matches_schema format root (suc fuel) value (object members))
  unfolding matches_schema
  round-Returns {strict} {fuel'} {members} checked fuel value safe =
      let rec = matches_schema format root fuel in
      let (any, (one, (all, end))) = checked.alternatives_checked in
      and_also-Returns
        (reference_matches-Returns (rec value) (safe value) root _ accepted_root
          checked.reference_checked)
        (and_also-Returns
          (alternatives_match-Returns (rec value) (safe value) strict fuel' (λ n total. n == total)
            _ all)
          (and_also-Returns
            (alternatives_match-Returns (rec value) (safe value) strict fuel'
              (λ n total. not (n == 0)) _ any)
            (and_also-Returns
              (alternatives_match-Returns (rec value) (safe value) strict fuel' (λ n total. n == 1)
                _ one)
              (and_also-Returns (type_keyword_matches-Returns value _ checked.type_checked) (
                and_also-Returns
                  (enumeration-Returns (any_equal format value) _ checked.enumeration_checked)
                  (and_also-Returns
                    (constant-Returns format value (find (codes "const") (object members)))
                    (value_matches-Returns checked rec safe value)))))))

  -- Matching a value against an accepted schema, under an accepted root, ends without an exception, at any depth.
  pub matches_schema-Returns :
      (fuel : ℕ) (value schema : Value)
      → Accepted schema
      → Returns (matches_schema format root fuel value schema)
  unfolding matches_schema
  matches_schema-Returns zero value schema accepted = returns
  matches_schema-Returns (suc fuel) value schema accepted =
      let (strict, fuel', members, is_members, checked) = Accepted-Checked schema accepted in
      subst (λ s. Returns (matches_schema format root (suc fuel) value s)) (sym is_members)
        (round-Returns checked fuel value (matches_schema-Returns fuel))
