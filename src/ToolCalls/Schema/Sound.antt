-- ===== src/ToolCalls/Schema/Sound.antt =====
-- What the schema check of src/runtime/tool_call_parser.cpp has established of a schema that it accepts.
use gem16gb.Prelude.{
  ℕ, zero, suc, ◌≡◌, refl, sym, subst, if◌then◌else◌, Bool, true, false, Option, none, some, List,
  [], ◌∷◌,
}
use gem16gb.Status.{Result, ok, err, ◌>>◌}
use gem16gb.Json.Value.{Value, object, Members, empty, entry, find, find_member, key_less}
use gem16gb.Json.Parse.{strip_prefix}
use gem16gb.Safetensors.{codes}
use gem16gb.ToolCalls.Schema.{
  each_member, each_keyword, check_type, check_properties, check_required, check_additional,
  check_items, check_alternatives, check_definitions, check_reference, check_enumeration,
  check_bound, check_length, bound_keywords, length_keywords, alternative_keywords,
  definitions_prefix, validate_schema,
}
use gem16gb.ToolCalls.Schema.Values.{definitions_of, resolve_reference}

pub >>-eq-ok :
    (first second : Result (Unit {0}))
    → (first >> second) ≡ ok tt
    → (first ≡ ok tt) × (second ≡ ok tt)
>>-eq-ok (ok done) second h = (refl, h)
>>-eq-ok (err status) second h = cc

-- A schema that was accepted, at some depth, with or without the check of its keywords.
pub Accepted : Value → Type 0
Accepted schema = (strict : Bool) × (fuel : ℕ) × (validate_schema strict fuel schema ≡ ok tt)

pub validate_schema-Accepted :
    (strict : Bool) (fuel : ℕ) (schema : Value)
    → validate_schema strict fuel schema ≡ ok tt
    → Accepted schema
unfolding Accepted
validate_schema-Accepted strict fuel schema h = (strict, fuel, h)

-- Every one of these keywords passes the check.
abbrev pub AllKeywords : (Option Value → Result (Unit {0})) → Value → List (List ℕ) → Type 0
AllKeywords check schema [] = Unit
AllKeywords check schema (keyword ∷ rest) =
    (check (find keyword schema) ≡ ok tt) × AllKeywords check schema rest

pub each_keyword-AllKeywords :
    (check : Option Value → Result (Unit {0})) (schema : Value) (keywords : List (List ℕ))
    → each_keyword check schema keywords ≡ ok tt
    → AllKeywords check schema keywords
unfolding each_keyword
each_keyword-AllKeywords check schema [] h = tt
each_keyword-AllKeywords check schema (keyword ∷ rest) h =
    let (here, later) = >>-eq-ok (check (find keyword schema)) (each_keyword check schema rest) h in
    (here, each_keyword-AllKeywords check schema rest later)

-- Some key passes the check with this value.
abbrev pub PassesAs : (List ℕ → Value → Result (Unit {0})) → Value → Type 0
PassesAs check value = (key : List ℕ) × (check key value ≡ ok tt)

split_key :
    (b c : Bool) (check : List ℕ → Value → Result (Unit {0})) (key : List ℕ) (item : Value)
    {value : Value} {further : Option Value}
    → check key item ≡ ok tt
    → (further ≡ some value → PassesAs check value)
    → (if b then further else if c then none else some item) ≡ some value
    → PassesAs check value
split_key true c check key item here behind found = behind found
split_key false true check key item here behind found = cc
split_key false false check key item {value} here behind found =
    let same : item ≡ value = cc in (key, subst (λ v. check key v ≡ ok tt) same here)

-- A member that is found has passed the check of its object.
pub find_member-PassesAs :
    (check : List ℕ → Value → Result (Unit {0})) (members : Members) (name : List ℕ) {value : Value}
    → each_member check members ≡ ok tt
    → find_member name members ≡ some value
    → PassesAs check value
unfolding each_member find_member
find_member-PassesAs check empty name h found = cc
find_member-PassesAs check (entry key item rest) name h found =
    let (here, later) = >>-eq-ok (check key item) (each_member check rest) h in
    split_key (key_less key name) (key_less name key) check key item here
      (find_member-PassesAs check rest name later) found

-- The checks that an accepted object has passed.
pub record Checked (strict : Bool) (fuel : ℕ) (members : Members) : Type 0 where
  pub type_checked : check_type (find (codes "type") (object members)) ≡ ok tt
  pub properties_checked :
      check_properties (validate_schema strict fuel) (find (codes "properties") (object members))
      ≡ ok tt
  pub required_checked : check_required (find (codes "required") (object members)) ≡ ok tt
  pub additional_checked :
      check_additional
        (validate_schema strict fuel)
        (find (codes "additionalProperties") (object members))
      ≡ ok tt
  pub items_checked :
      check_items (validate_schema strict fuel) (find (codes "items") (object members)) ≡ ok tt
  pub alternatives_checked :
      AllKeywords
        (check_alternatives (validate_schema strict fuel))
        (object members)
        alternative_keywords
  pub definitions_checked :
      check_definitions (validate_schema strict fuel) (find (codes "$defs") (object members))
      ≡ ok tt
  pub reference_checked : check_reference (find (codes "$ref") (object members)) ≡ ok tt
  pub enumeration_checked : check_enumeration (find (codes "enum") (object members)) ≡ ok tt
  pub bounds_checked : AllKeywords check_bound (object members) bound_keywords
  pub lengths_checked : AllKeywords check_length (object members) length_keywords

pub validate_schema-Checked :
    (strict : Bool) (fuel : ℕ) (members : Members)
    → validate_schema strict (suc fuel) (object members) ≡ ok tt
    → Checked strict fuel members
unfolding validate_schema
validate_schema-Checked strict fuel members h =
    let (keywords, h1) = >>-eq-ok _ _ h in
    let (type, h2) = >>-eq-ok _ _ h1 in
    let (texts, h3) = >>-eq-ok _ _ h2 in
    let (properties, h4) = >>-eq-ok _ _ h3 in
    let (required, h5) = >>-eq-ok _ _ h4 in
    let (additional, h6) = >>-eq-ok _ _ h5 in
    let (items, h7) = >>-eq-ok _ _ h6 in
    let (alternatives, h8) = >>-eq-ok _ _ h7 in
    let (definitions, h9) = >>-eq-ok _ _ h8 in
    let (reference, h10) = >>-eq-ok _ _ h9 in
    let (enumeration, h11) = >>-eq-ok _ _ h10 in
    let (bounds, lengths) = >>-eq-ok _ _ h11 in
    record {
      type_checked = type;
      properties_checked = properties;
      required_checked = required;
      additional_checked = additional;
      items_checked = items;
      alternatives_checked =
          each_keyword-AllKeywords (check_alternatives (validate_schema strict fuel))
            (object members) alternative_keywords alternatives;
      definitions_checked = definitions;
      reference_checked = reference;
      enumeration_checked = enumeration;
      bounds_checked = each_keyword-AllKeywords check_bound (object members) bound_keywords bounds;
      lengths_checked =
          each_keyword-AllKeywords check_length (object members) length_keywords lengths;
    }

-- The schema that a reference names was accepted with the root.
definitions_of-Accepted :
    (strict : Bool) (fuel : ℕ) (definitions : Option Value) (name : List ℕ) {target : Value}
    → check_definitions (validate_schema strict fuel) definitions ≡ ok tt
    → definitions_of definitions name ≡ some target
    → Accepted target
unfolding definitions_of check_definitions find Accepted
definitions_of-Accepted strict fuel (some (object members)) name h found =
    let (key, passed) = find_member-PassesAs _ members name h found in (strict, fuel, passed)
definitions_of-Accepted strict fuel definitions name h found = cc

resolved-Accepted :
    (strict : Bool) (fuel : ℕ) (definitions : Option Value) (name : Option (List ℕ))
    {target : Value}
    → check_definitions (validate_schema strict fuel) definitions ≡ ok tt
    → elim name [ none ↦ none | some behind ↦ definitions_of definitions behind ] ≡ some target
    → Accepted target
resolved-Accepted strict fuel definitions none h found = cc
resolved-Accepted strict fuel definitions (some name) h found =
    definitions_of-Accepted strict fuel definitions name h found

-- An accepted schema is an object.
pub Accepted-Checked :
    (schema : Value)
    → Accepted schema
    → (strict : Bool) × (fuel : ℕ) × (members : Members) × (schema ≡ object members)
      × Checked strict fuel members
unfolding Accepted validate_schema
Accepted-Checked (object members) (strict, zero, h) = cc
Accepted-Checked (object members) (strict, suc fuel, h) =
    (strict, fuel, members, refl, validate_schema-Checked strict fuel members h)
Accepted-Checked schema (strict, zero, h) = cc
Accepted-Checked schema (strict, suc fuel, h) = cc

pub resolve_reference-Accepted :
    (root : Value) (reference : List ℕ) {target : Value}
    → Accepted root
    → resolve_reference root reference ≡ some target
    → Accepted target
unfolding resolve_reference
resolve_reference-Accepted root reference accepted found =
    let (strict, fuel, members, is_members, checked) = Accepted-Checked root accepted in
    resolved-Accepted strict fuel _ (strip_prefix definitions_prefix reference)
      (subst (λ r. check_definitions (validate_schema strict fuel) (find (codes "$defs") r) ≡ ok tt)
        (sym is_members) checked.definitions_checked)
      found
