-- ===== src/ToolCalls/Schema/Conforms.antt =====
-- MatchesStrictSchema of src/runtime/tool_call_parser.cpp: what a match says of an object.
use gem16gb.Prelude.{
  ◌≡◌, ℕ, suc, refl, subst, Bool, true, false, not, ◌==◌, Option, none, some, List,
}
use gem16gb.Json.Value.{
  Value, string, bool, array, object, Items, nil, cons, Members, empty, entry, find,
}
use gem16gb.Safetensors.{codes}
use gem16gb.ToolCalls.Schema.Values.{◌>>=◌, as_string, as_array, and_also, if_present, json_equal}
use gem16gb.ToolCalls.Schema.Match.{
  reference_matches, alternatives_match, any_equal, find_in, has_required, additional_matches,
  member_matches, members_match, type_keyword_matches, value_matches, matches_schema,
}

-- A value stands in an array.
pub data IsItem (value : Value) : Items → Type 0 where
  first : {item : Value} {rest : Items} → item ≡ value → IsItem value (cons item rest)
  later : {item : Value} {rest : Items} → IsItem value rest → IsItem value (cons item rest)

-- A member of an object, by its name.
pub data IsMember (name : List ℕ) (value : Value) : Members → Type 0 where
  first_member :
      {key : List ℕ} {item : Value} {rest : Members}
      → key ≡ name
      → item ≡ value
      → IsMember name value (entry key item rest)
  later_member :
      {key : List ℕ} {item : Value} {rest : Members}
      → IsMember name value rest
      → IsMember name value (entry key item rest)

and_also-true :
    (left right : Option Bool)
    → and_also left right ≡ some true
    → (left ≡ some true) × (right ≡ some true)
unfolding and_also
and_also-true none right h = cc
and_also-true (some false) right h = cc
and_also-true (some true) right h = (refl, h)

-- What has_required has found out about the first name.
required_step :
    (value item : Value) (rest : Items)
    → has_required value (cons item rest) ≡ some true
    → (key : List ℕ) × (member : Value) × (item ≡ string key)
      × (find key value ≡ some member)
      × (has_required value rest ≡ some true)
unfolding has_required as_string
required_step value (string key) rest h = found (find key value) refl h
  where
    found :
        (o : Option Value)
        → find key value ≡ o
        → elim o [ none ↦ some false | some member ↦ has_required value rest ] ≡ some true
        → (k : List ℕ) × (member : Value) × (string key ≡ string k)
          × (find k value ≡ some member)
          × (has_required value rest ≡ some true)
    found none e h = cc
    found (some member) e h = (key, member, refl, e, h)
required_step value item rest h = cc

has_required-IsItem :
    (value : Value) (names : Items) (name : List ℕ)
    → has_required value names ≡ some true
    → IsItem (string name) names
    → (member : Value) × (find name value ≡ some member)
has_required-IsItem value nil name h i = elim i [ ]
has_required-IsItem value (cons item rest) name h (later i) =
    let (key, member, is_key, found, more) = required_step value item rest h in
    has_required-IsItem value rest name more i
has_required-IsItem value (cons item rest) name h (first same) =
    let (key, member, is_key, found, more) = required_step value item rest h in
    let named : key ≡ name = cc in (member, subst (λ k. find k value ≡ some member) named found)

-- With additionalProperties false, a member has a schema of its own and matches it.
closed_member :
    (rec : Value → Option Bool) (o : Option Value)
    → member_matches rec o (some (bool false)) ≡ some true
    → (s : Value) × (o ≡ some s) × (rec s ≡ some true)
unfolding member_matches additional_matches
closed_member rec none h = cc
closed_member rec (some s) h = (s, refl, h)

module _ (rec : Value → Value → Option Bool) (schema : Value)
    (closed : find (codes "additionalProperties") schema ≡ some (bool false)) where
  members_match-IsMember :
      (entries : Members) (name : List ℕ) (member : Value)
      → members_match rec schema entries ≡ some true
      → IsMember name member entries
      → (s : Value) × (find_in (find (codes "properties") schema) name ≡ some s)
        × (rec member s ≡ some true)
  unfolding members_match
  members_match-IsMember empty name member h i = elim i [ ]
  members_match-IsMember (entry key item rest) name member h (later_member i) =
      members_match-IsMember rest name member (and_also-true _ _ h).1 i
  members_match-IsMember (entry key item rest) name member h (first_member same_key same_item) =
      let here = (and_also-true _ _ h).0 in
      let (s, found, matched) =
        closed_member (rec item) (find_in (find (codes "properties") schema) key) (
          subst
            (λ o.
              member_matches (rec item) (find_in (find (codes "properties") schema) key) o
              ≡ some true)
            closed here) in
      (
        s,
        subst (λ k. find_in (find (codes "properties") schema) k ≡ some s) same_key found,
        subst (λ v. rec v s ≡ some true) same_item matched,
      )

-- The required names, in a schema that has them.
required_present :
    (value : Value) (required : Option Value) (names : Items) (name : List ℕ)
    → if_present (λ r. as_array r >>= has_required value) required ≡ some true
    → required ≡ some (array names)
    → IsItem (string name) names
    → (member : Value) × (find name value ≡ some member)
unfolding if_present as_array
required_present value required names name h e i =
    has_required-IsItem value names name
      (subst (λ o. if_present (λ r. as_array r >>= has_required value) o ≡ some true) e h) i

-- The value part of a match.
matches_schema-value :
    (format : ℕ → List ℕ) (root : Value) (fuel : ℕ) (value schema : Value)
    → matches_schema format root (suc fuel) value schema ≡ some true
    → value_matches (matches_schema format root fuel) schema value ≡ some true
unfolding matches_schema
matches_schema-value format root fuel value schema h =
    let rec = matches_schema format root fuel in
    let h1 =
      (and_also-true (reference_matches root (rec value) (find (codes "$ref") schema)) _ h).1 in
    let h2 =
      (and_also-true
        (alternatives_match (rec value) (λ n total. n == total) (find (codes "allOf") schema)) _
        h1).1 in
    let h3 =
      (and_also-true
        (alternatives_match (rec value) (λ n total. not (n == 0)) (find (codes "anyOf") schema)) _
        h2).1 in
    let h4 =
      (and_also-true
        (alternatives_match (rec value) (λ n total. n == 1) (find (codes "oneOf") schema)) _
        h3).1 in
    let h5 =
      (and_also-true (if_present (type_keyword_matches value) (find (codes "type") schema)) _
        h4).1 in
    let h6 =
      (and_also-true
        (if_present (λ c. as_array c >>= λ items. some (any_equal format value items))
          (find (codes "enum") schema))
        _ h5).1 in
    (and_also-true
      (if_present (λ c. some (json_equal format value c)) (find (codes "const") schema)) _ h6).1

-- The object has the names that the schema requires; where the schema allows no additional properties, each
-- member has a schema among the properties, and matches it one level further down.
pub Conforms : (ℕ → List ℕ) → Value → ℕ → Members → Value → Type 0
Conforms format root fuel members schema =
    ((names : Items) (name : List ℕ)
      → find (codes "required") schema ≡ some (array names)
      → IsItem (string name) names
      → (member : Value) × (find name (object members) ≡ some member))
    × (find (codes "additionalProperties") schema ≡ some (bool false)
        → (name : List ℕ) (member : Value) → IsMember name member members
        → (s : Value) × (find_in (find (codes "properties") schema) name ≡ some s)
          × (matches_schema format root fuel member s ≡ some true))

-- An object that MatchesStrictSchema accepts has every name that the schema requires. Where the schema sets
-- additionalProperties to false, each member of the object has a schema among the properties, and matches it
-- one level further down.
pub matches_schema-Conforms :
    (format : ℕ → List ℕ) (root : Value) (fuel : ℕ) (members : Members) (schema : Value)
    → matches_schema format root (suc fuel) (object members) schema ≡ some true
    → Conforms format root fuel members schema
unfolding value_matches Conforms
matches_schema-Conforms format root fuel members schema h =
    let (required, each) =
      and_also-true _ _ (matches_schema-value format root fuel (object members) schema h) in
    (
      (λ names name e i.
          required_present (object members) (find (codes "required") schema) names name required e
            i),
      λ closed name member i.
          members_match-IsMember (matches_schema format root fuel) schema closed members name member
            each i,
    )
