-- ===== src/Json/Parse/Rounds.antt =====
-- The parser of values of src/util/json.cpp, round by round: each function in terms of the others, and the
-- rounds that are the same since the others are.
use gem16gb.Prelude.{
  ℕ, zero, suc, ◌≤◌, ◌≡◌, refl, ap, Bool, true, false, Option, none, some, List, [], ◌∷◌, ◌==◌, ltb,
  if◌then◌else◌, length, arith,
}
use gem16gb.Json.Strings.{Cursor, Parsed, parsed, failed, ◌>>=◌, cursor, parse_string}
use gem16gb.Json.Strings.Fuel.{Shrinks, shrinks, stops}
use gem16gb.Json.Value.{Value, Items, nil, cons, Members, empty, array, object, emplace}
use gem16gb.Json.Parse.{
  ParseLimits, next_is, advance, skip_whitespace, parse_scalar, seen_value, parse_value,
  parse_items, parse_members,
}
use gem16gb.Json.Parse.Shrink.{skip_whitespace-shorter, tail-shorter}

-- Two chains with the same first call are the same if they go on in the same way from what it leaves.
pub >>=-same :
    {A B : Type 0} (n : ℕ) (r : Parsed A) {f g : A → Cursor → Parsed B}
    → Shrinks n r
    → ((a : A) (c : Cursor) → length c.rest ≤ n → f a c ≡ g a c)
    → (r >>= f) ≡ (r >>= g)
>>=-same n (parsed a c) (shrinks h) k = k a c h
>>=-same n (failed at m) stops k = refl

module _ (strtod : List ℕ → Option ℕ) (limits : ParseLimits) where
  -- ParseValue at a byte, given what ParseArray and ParseObject return.
  unfoldable pub value_with :
      ℕ → ℕ → ℕ → ℕ → List ℕ → Parsed (Items × ℕ) → Parsed (Members × ℕ) → Parsed (Value × ℕ)
  value_with depth seen position byte rest items members =
      let inside = skip_whitespace (cursor (suc position) rest) in
      if ltb limits.max_depth depth
      then failed position "nesting limit exceeded"
      else if ltb limits.max_values (suc seen)
      then failed position "value count limit exceeded"
      else if byte == b'['
      then (if next_is (λ b. b == b']') inside.rest
          then parsed (array nil, suc seen) (advance inside)
          else (items >>= λ r c'. parsed (array r.0, r.1) c'))
      else if byte == b'{'
      then (if next_is (λ b. b == b'}') inside.rest
          then parsed (object empty, suc seen) (advance inside)
          else (members >>= λ r c'. parsed (object r.0, r.1) c'))
      else (parse_scalar strtod limits byte (cursor position (byte ∷ rest))
          >>= seen_value (suc seen))

  pub value-round :
      (fuel depth seen position byte : ℕ) (rest : List ℕ)
      → parse_value strtod limits (suc fuel) depth seen (cursor position (byte ∷ rest))
        ≡ value_with depth seen position byte rest
            (parse_items strtod limits fuel
              (suc depth)
              (suc seen)
              (skip_whitespace (cursor (suc position) rest)))
            (parse_members strtod limits fuel
              (suc depth)
              (suc seen)
              empty
              (skip_whitespace (cursor (suc position) rest)))
  unfolding parse_value value_with
  value-round fuel depth seen position byte rest = refl

  pub value_at_end :
      (f g depth seen position : ℕ)
      → parse_value strtod limits (suc f) depth seen (cursor position [])
        ≡ parse_value strtod limits (suc g) depth seen (cursor position [])
  unfolding parse_value
  value_at_end f g depth seen position = refl

  -- What ParseArray does behind an item.
  unfoldable pub item_with :
      (Cursor → ℕ → Parsed (Items × ℕ)) → Value × ℕ → Cursor → Parsed (Items × ℕ)
  item_with later item c1 =
      let c2 = skip_whitespace c1 in
      if next_is (λ b. b == b']') c2.rest
      then parsed (cons item.0 nil, item.1) (advance c2)
      else if next_is (λ b. b == b',') c2.rest
      then (later (skip_whitespace (advance c2)) item.1 >>= λ items c3.
          parsed (cons item.0 items.0, items.1) c3)
      else failed c2.position "expected ',' or ']' in array"

  pub items-round :
      (fuel depth seen : ℕ) (c : Cursor)
      → parse_items strtod limits (suc fuel) depth seen c ≡ (
          parse_value strtod limits fuel depth seen c
          >>= item_with (λ c' s. parse_items strtod limits fuel depth s c'))
  unfolding parse_items item_with
  items-round fuel depth seen c = refl

  pub item-same :
      (later later' : Cursor → ℕ → Parsed (Items × ℕ)) (item : Value × ℕ) (c1 : Cursor)
      → ((c : Cursor) (s : ℕ) → length c.rest ≤ length c1.rest → later c s ≡ later' c s)
      → item_with later item c1 ≡ item_with later' item c1
  unfolding item_with
  item-same later later' item c1 h =
      let c2 = skip_whitespace c1 in
      let c3 = skip_whitespace (advance c2) in
      ap
        (λ r.
          if next_is (λ b. b == b']') c2.rest
          then parsed (cons item.0 nil, item.1) (advance c2)
          else if next_is (λ b. b == b',') c2.rest
          then (r >>= λ items c3. parsed (cons item.0 items.0, items.1) c3)
          else failed c2.position "expected ',' or ']' in array")
        (h c3 item.1 (
          omega (
            arith,
            skip_whitespace-shorter (advance c2),
            tail-shorter c2.rest,
            skip_whitespace-shorter c1,
          )))

  -- At the end of the input no value is read.
  pub end-same :
      {B : Type 0} (fuel depth seen position : ℕ) (f g : Value × ℕ → Cursor → Parsed B)
      → (parse_value strtod limits fuel depth seen (cursor position []) >>= f)
        ≡ (parse_value strtod limits fuel depth seen (cursor position []) >>= g)
  unfolding parse_value
  end-same zero depth seen position f g = refl
  end-same (suc fuel) depth seen position f g =
      split_limits (ltb limits.max_depth depth) (ltb limits.max_values (suc seen)) f g
    where
      split_limits :
          {B : Type 0} (a b : Bool) (f g : Value × ℕ → Cursor → Parsed B)
          → ((if a
                then failed position "nesting limit exceeded"
                else if b
                then failed position "value count limit exceeded"
                else failed position "unexpected end of input")
              >>= f)
            ≡ ((if a
                  then failed position "nesting limit exceeded"
                  else if b
                  then failed position "value count limit exceeded"
                  else failed position "unexpected end of input")
                >>= g)
      split_limits true b f g = refl
      split_limits false true f g = refl
      split_limits false false f g = refl

  -- What ParseObject does with an entry, once it is known whether its key is new.
  unfoldable pub grown_with :
      (Members → Cursor → Parsed (Members × ℕ)) → ℕ → Cursor → Option Members → Parsed (Members × ℕ)
  grown_with later seen c3 none = failed c3.position "duplicate object key"
  grown_with later seen c3 (some grown) =
      let c4 = skip_whitespace c3 in
      if next_is (λ b. b == b'}') c4.rest
      then parsed (grown, seen) (advance c4)
      else if next_is (λ b. b == b',') c4.rest
      then later grown (skip_whitespace (advance c4))
      else failed c4.position "expected ',' or '}' in object"

  -- ParseObject at an entry, given how values and the entries behind this one are parsed.
  unfoldable pub members_with :
      (Cursor → Parsed (Value × ℕ))
      → (ℕ → Members → Cursor → Parsed (Members × ℕ))
      → Members
      → Cursor
      → Parsed (Members × ℕ)
  members_with value later acc c =
      if next_is (λ b. b == 0x22) c.rest
      then (parse_string limits.max_string_bytes c >>= λ key c1.
          let c2 = skip_whitespace c1 in
          if next_is (λ b. b == b':') c2.rest
          then (value (skip_whitespace (advance c2)) >>= λ item c3.
              grown_with (later item.1) item.1 c3 (emplace key item.0 acc))
          else failed c2.position "expected ':' after object key")
      else failed c.position "expected a string object key"

  pub members-round :
      (fuel depth seen : ℕ) (acc : Members) (c : Cursor)
      → parse_members strtod limits (suc fuel) depth seen acc c
        ≡ members_with
            (parse_value strtod limits fuel depth seen)
            (λ s members c'. parse_members strtod limits fuel depth s members c')
            acc
            c
  unfolding parse_members members_with grown_with
  members-round fuel depth seen acc c = refl

  pub grown-same :
      (n : ℕ) (later later' : Members → Cursor → Parsed (Members × ℕ)) (o : Option Members)
      (seen : ℕ) (c3 : Cursor)
      → length c3.rest ≤ n
      → ((members : Members) (c : Cursor) → length c.rest ≤ n → later members c ≡ later' members c)
      → grown_with later seen c3 o ≡ grown_with later' seen c3 o
  unfolding grown_with
  grown-same n later later' none seen c3 less h = refl
  grown-same n later later' (some grown) seen c3 less h =
      let c4 = skip_whitespace c3 in
      ap
        (λ r.
          if next_is (λ b. b == b'}') c4.rest
          then parsed (grown, seen) (advance c4)
          else if next_is (λ b. b == b',') c4.rest
          then r
          else failed c4.position "expected ',' or '}' in object")
        (h grown (skip_whitespace (advance c4)) (
          omega (
            arith,
            less,
            skip_whitespace-shorter (advance c4),
            tail-shorter c4.rest,
            skip_whitespace-shorter c3,
          )))
