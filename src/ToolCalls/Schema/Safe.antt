-- ===== src/ToolCalls/Schema/Safe.antt =====
-- MatchesStrictSchema of src/runtime/tool_call_parser.cpp reads a schema that the check has accepted
-- without an exception.
use gem16gb.Prelude.{ℕ, ◌≡◌, refl, Bool, true, false, Option, none, some, List, ◌∷◌, if◌then◌else◌}
use gem16gb.Status.{ok}
use gem16gb.Json.Value.{Value, integer, double, string, pos, array, Items, nil, cons, find}
use gem16gb.Json.Double.{as_number}
use gem16gb.ToolCalls.Schema.{
  each_item, check_type, check_union_entry, check_required_names, check_alternatives,
  check_reference, check_enumeration, check_bound, check_length, validate_schema,
}
use gem16gb.ToolCalls.Schema.Values.{
  ◌>>=◌, as_string, as_array, as_integer, and_also, if_present, resolve_reference, type_matches,
}
use gem16gb.ToolCalls.Schema.Match.{
  on_target, reference_matches, count_matches, alternatives_match, any_type, type_keyword_matches,
  has_required, length_matches, bound_matches,
}
use gem16gb.ToolCalls.Schema.Sound.{
  >>-eq-ok, Accepted, validate_schema-Accepted, resolve_reference-Accepted,
}

-- A computation that ends without an exception.
pub data Returns {ℓ} {A : Type ℓ} : Option A → Type ℓ where
  returns : {a : A} → Returns (some a)

pub and_also-Returns :
    {left right : Option Bool} → Returns left → Returns right → Returns (and_also left right)
unfolding and_also
and_also-Returns (returns {a = false}) r = returns
and_also-Returns (returns {a = true}) r = r

pub >>=-Returns {ℓ κ} :
    {A : Type ℓ} {B : Type κ} {first : Option A} {next : A → Option B}
    → Returns first
    → ((a : A) → Returns (next a))
    → Returns (first >>= next)
>>=-Returns (returns {a}) later = later a

-- A recursive call that returns for every accepted schema.
abbrev pub Safe : (Value → Option Bool) → Type 0
Safe rec = (schema : Value) → Accepted schema → Returns (rec schema)

module _ (rec : Value → Option Bool) (safe : Safe rec) where
  on_target-Returns :
      (target : Option Value)
      → ((t : Value) → target ≡ some t → Accepted t)
      → Returns (on_target rec target)
  unfolding on_target
  on_target-Returns none h = returns
  on_target-Returns (some target) h = safe target (h target refl)

  pub reference_matches-Returns :
      (root : Value) (reference : Option Value)
      → Accepted root
      → check_reference reference ≡ ok tt
      → Returns (reference_matches root rec reference)
  unfolding reference_matches check_reference if_present as_string
  reference_matches-Returns root none accepted h = returns
  reference_matches-Returns root (some (string name)) accepted h =
      on_target-Returns (resolve_reference root name)
        λ target found. resolve_reference-Accepted root name accepted found
  reference_matches-Returns root (some value) accepted h = cc

module _ (rec : Value → Option Bool) (safe : Safe rec) (strict : Bool) (fuel : ℕ) where
  count_matches-Returns :
      (items : Items)
      → each_item (validate_schema strict fuel) items ≡ ok tt
      → Returns (count_matches rec items)
  unfolding count_matches each_item
  count_matches-Returns nil h = returns
  count_matches-Returns (cons item rest) h =
      let (here, later) = >>-eq-ok _ _ h in
      >>=-Returns (safe item (validate_schema-Accepted strict fuel item here))
        λ matched. >>=-Returns (count_matches-Returns rest later) λ n. returns

  pub alternatives_match-Returns :
      (valid : ℕ → ℕ → Bool) (alternatives : Option Value)
      → check_alternatives (validate_schema strict fuel) alternatives ≡ ok tt
      → Returns (alternatives_match rec valid alternatives)
  unfolding alternatives_match check_alternatives if_present as_array
  alternatives_match-Returns valid none h = returns
  alternatives_match-Returns valid (some (array (cons item rest))) h =
      >>=-Returns (count_matches-Returns (cons item rest) h) λ n. returns
  alternatives_match-Returns valid (some value) h = cc

any_type-Returns :
    (value : Value) (types : Items)
    → each_item check_union_entry types ≡ ok tt
    → Returns (any_type value types)
unfolding any_type each_item as_string
any_type-Returns value nil h = returns
any_type-Returns value (cons (string name) rest) h =
    let (here, later) = >>-eq-ok _ _ h in
    either (type_matches value name) (any_type-Returns value rest later)
  where
    either :
        (b : Bool) {later : Option Bool} → Returns later → Returns (if b then some true else later)
    either true r = returns
    either false r = r
any_type-Returns value (cons type rest) h = cc

pub type_keyword_matches-Returns :
    (value : Value) (type : Option Value)
    → check_type type ≡ ok tt
    → Returns (if_present (type_keyword_matches value) type)
unfolding type_keyword_matches check_type if_present as_array
type_keyword_matches-Returns value none h = returns
type_keyword_matches-Returns value (some (string name)) h = returns
type_keyword_matches-Returns value (some (array (cons item rest))) h =
    any_type-Returns value (cons item rest) h
type_keyword_matches-Returns value (some type) h = cc

pub enumeration-Returns :
    (holds : Items → Bool) (candidates : Option Value)
    → check_enumeration candidates ≡ ok tt
    → Returns (if_present (λ c. as_array c >>= λ items. some (holds items)) candidates)
unfolding check_enumeration if_present as_array
enumeration-Returns holds none h = returns
enumeration-Returns holds (some (array (cons item rest))) h = returns
enumeration-Returns holds (some value) h = cc

pub length_matches-Returns :
    (bad : ℕ → Bool) (limit : Option Value)
    → check_length limit ≡ ok tt
    → Returns (length_matches bad limit)
unfolding length_matches check_length if_present as_integer
length_matches-Returns bad none h = returns
length_matches-Returns bad (some (integer (pos n))) h = returns
length_matches-Returns bad (some value) h = cc

pub bound_matches-Returns :
    (bad : ℕ → Bool) (limit : Option Value)
    → check_bound limit ≡ ok tt
    → Returns (bound_matches bad limit)
unfolding bound_matches check_bound if_present as_number
bound_matches-Returns bad none h = returns
bound_matches-Returns bad (some (integer n)) h = returns
bound_matches-Returns bad (some (double bits)) h = returns
bound_matches-Returns bad (some value) h = cc

pub has_required-Returns :
    (value : Value) (seen : List (List ℕ)) (names : Items)
    → check_required_names seen names ≡ ok tt
    → Returns (has_required value names)
unfolding has_required check_required_names as_string
has_required-Returns value seen nil h = returns
has_required-Returns value seen (cons (string name) rest) h =
    let (named, h1) = >>-eq-ok _ _ h in
    let (unique, later) = >>-eq-ok _ _ h1 in
    found (find name value) (has_required-Returns value (name ∷ seen) rest later)
  where
    found :
        (o : Option Value) {later : Option Bool}
        → Returns later
        → Returns (elim o [ none ↦ some false | some member ↦ later ])
    found none r = returns
    found (some member) r = r
has_required-Returns value seen (cons name rest) h = cc
