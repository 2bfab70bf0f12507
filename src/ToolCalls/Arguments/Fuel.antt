-- ===== src/ToolCalls/Arguments/Fuel.antt =====
-- ArgumentDslParser of src/runtime/tool_call_parser.cpp: the fuel of the model is enough, since two calls in a
-- row take a byte.
use gem16gb.Prelude.{
  ℕ, zero, suc, ◌+◌, ◌*◌, ◌≤◌, ◌<◌, ◌≡◌, refl, ap, sym, ◌∙◌, Bool, true, false, not, ◌||◌, none,
  some, List, [], ◌∷◌, ◌++◌, ◌==◌, if◌then◌else◌, length, String, arith,
}
use gem16gb.Status.{Result, ok, err, refuse_if, ◌>>=◌, Ensures-ok, Ensures-mono, data_loss}
use gem16gb.Json.Escape.{escape}
use gem16gb.Json.Value.{comma}
use gem16gb.Json.Parse.{next_is, tail, is_nil, strip_prefix}
use gem16gb.ToolCalls.Arguments.{
  parse_error, is_alnum, span, string_quote, parse_dsl_string, parse_dsl_literal, next_entry,
  parse_dsl_value, parse_dsl_members, parse_dsl_items,
}
use gem16gb.ToolCalls.Arguments.Shrink.{
  Shrinks, span-length, next_entry-shorter, parse_dsl_value-Shrinks,
}

-- Two chains with the same first call are the same if they go on in the same way from what it returns.
>>=-same {ℓ κ} :
    {A : Type ℓ} {B : Type κ} (r : Result A) {f g : A → Result B}
    → ((a : A) → r ≡ ok a → f a ≡ g a)
    → (r >>= f) ≡ (r >>= g)
>>=-same (ok a) h = h a refl
>>=-same (err e) h = refl

-- An entry behind its value: what stands there, and the entries from there on.
abbrev put_behind :
    (List ℕ → List ℕ → List ℕ)
    → List ℕ × List ℕ
    → Result (List ℕ × List ℕ)
    → Result (List ℕ × List ℕ)
put_behind put v r = r >>= (λ more. ok (put v.0 more.0, more.1))

abbrev entry_with :
    ℕ
    → String
    → (List ℕ → Result (List ℕ × List ℕ))
    → (List ℕ → List ℕ → List ℕ)
    → Result (List ℕ × List ℕ)
    → Result (List ℕ × List ℕ)
entry_with close message later put value =
    value >>= (λ v. next_entry close message v.1 >>= (λ rest. put_behind put v (later rest)))

refuse_if-ok :
    (bad : Bool) (message : String) {u : Unit {0}}
    → refuse_if bad data_loss message ≡ ok u
    → bad ≡ false
refuse_if-ok false message h = refl
refuse_if-ok true message h = cc

module _ (is_number : List ℕ → Bool) where
  SameValues : ℕ → ℕ → Type 0
  SameValues f g =
      (text : List ℕ)
      → 2 * length text + 2 ≤ f
      → 2 * length text + 2 ≤ g
      → parse_dsl_value is_number f text ≡ parse_dsl_value is_number g text

  SameMembers : ℕ → ℕ → Type 0
  SameMembers f g =
      (first : Bool) (text : List ℕ)
      → 2 * length text + 3 ≤ f
      → 2 * length text + 3 ≤ g
      → parse_dsl_members is_number f first text ≡ parse_dsl_members is_number g first text

  SameItems : ℕ → ℕ → Type 0
  SameItems f g =
      (first : Bool) (text : List ℕ)
      → 2 * length text + 3 ≤ f
      → 2 * length text + 3 ≤ g
      → parse_dsl_items is_number f first text ≡ parse_dsl_items is_number g first text

  -- ParseValue, given what ParseObject and ParseArray return.
  value_with :
      List ℕ → Result (List ℕ × List ℕ) → Result (List ℕ × List ℕ) → Result (List ℕ × List ℕ)
  value_with text members items =
      if is_nil text
      then parse_error "Gemma tool arguments contain an incomplete value"
      else elim (strip_prefix string_quote text) [
        | some content ↦ parse_dsl_string content
        | none ↦
            if next_is (λ c. c == b'{') text
            then (members >>= (λ r. ok (b'{' ∷ r.0, r.1)))
            else if next_is (λ c. c == b'[') text
            then (items >>= (λ r. ok (b'[' ∷ r.0, r.1)))
            else parse_dsl_literal is_number text
      ]

  value-round :
      (fuel : ℕ) (text : List ℕ)
      → parse_dsl_value is_number (suc fuel) text
        ≡ value_with text
            (parse_dsl_members is_number fuel true (tail text))
            (parse_dsl_items is_number fuel true (tail text))
  unfolding parse_dsl_value value_with
  value-round fuel text = refl

  value_nil :
      (fuel : ℕ)
      → parse_dsl_value is_number (suc fuel) []
        ≡ parse_error "Gemma tool arguments contain an incomplete value"
  unfolding parse_dsl_value
  value_nil fuel = refl

  values-same : (f g : ℕ) → SameMembers f g → SameItems f g → SameValues (suc f) (suc g)
  unfolding SameValues SameMembers SameItems
  values-same f g members items [] hf hg = value_nil f ∙ sym (value_nil g)
  values-same f g members items (c ∷ text) hf hg =
      value-round f (c ∷ text)
      ∙ (ap (λ m. value_with (c ∷ text) m (parse_dsl_items is_number f true text))
            (members true text (omega arith) (omega arith))
          ∙ (ap (λ i. value_with (c ∷ text) (parse_dsl_members is_number g true text) i)
                (items true text (omega arith) (omega arith))
              ∙ sym (value-round g (c ∷ text))))

  -- A value and the entries behind it, in two ways that agree on what is shorter than the text.
  entry-same :
      (value value' : Result (List ℕ × List ℕ)) (close : ℕ) (message : String)
      (later later' : List ℕ → Result (List ℕ × List ℕ)) (put : List ℕ → List ℕ → List ℕ)
      (text : List ℕ)
      → value ≡ value'
      → Shrinks text value
      → ((rest : List ℕ) → length rest < length text → later rest ≡ later' rest)
      → entry_with close message later put value ≡ entry_with close message later' put value'
  entry-same value value' close message later later' put text e shrinks h =
      >>=-same value (λ v is_value. >>=-same (next_entry close message v.1) λ rest is_rest.
        ap (put_behind put v) (
          h rest (
            omega (
              arith,
              Ensures-ok shrinks is_value,
              Ensures-ok (next_entry-shorter close message v.1) is_rest,
            ))))
      ∙ ap (entry_with close message later' put) e

  items-same : (f g : ℕ) → SameValues f g → SameItems f g → SameItems (suc f) (suc g)
  unfolding SameValues SameItems parse_dsl_items
  items-same f g values items first [] hf hg = refl
  items-same f g values items first (c ∷ text) hf hg =
      ap (λ r. if c == b']' then ok (b']' ∷ [], text) else r)
        (entry-same (parse_dsl_value is_number f (c ∷ text))
          (parse_dsl_value is_number g (c ∷ text)) b']' _ (parse_dsl_items is_number f false)
          (parse_dsl_items is_number g false) (λ v more. comma first ++ (v ++ more)) (c ∷ text)
          (values (c ∷ text) (omega arith) (omega arith))
          (parse_dsl_value-Shrinks is_number f (c ∷ text))
          λ rest less. items false rest (omega arith) (omega arith))

  -- Behind the colon there is less than the text.
  behind-colon :
      (key colon : List ℕ)
      → (is_nil key || not (next_is (λ b. b == b':') colon)) ≡ false
      → length (tail colon) < length key + length colon
  behind-colon [] [] h = ground arith
  behind-colon (k ∷ key) [] h = ground arith
  behind-colon key (c ∷ colon) h = omega arith

  members-same : (f g : ℕ) → SameValues f g → SameMembers f g → SameMembers (suc f) (suc g)
  unfolding SameValues SameMembers parse_dsl_members
  members-same f g values members first [] hf hg = refl
  members-same f g values members first (c ∷ text) hf hg =
      let taken = span-length (λ b. is_alnum b || b == b'_') (c ∷ text) in
      let (key, colon) = span (λ b. is_alnum b || b == b'_') (c ∷ text) in
      ap (λ r. if c == b'}' then ok (b'}' ∷ [], text) else r)
        (>>=-same
          (refuse_if (is_nil key || not (next_is (λ b. b == b':') colon)) data_loss
            "Gemma tool arguments contain an invalid object key")
          λ done checked.
            let less = behind-colon key colon (refuse_if-ok _ _ checked) in
            entry-same (parse_dsl_value is_number f (tail colon))
              (parse_dsl_value is_number g (tail colon)) b'}' _
              (parse_dsl_members is_number f false) (parse_dsl_members is_number g false)
              (λ v more. comma first ++ (0x22 ∷ (escape key ++ 0x22 ∷ b':' ∷ (v ++ more))))
              (c ∷ text) (values (tail colon) (omega arith) (omega arith))
              (Ensures-mono (parse_dsl_value-Shrinks is_number f (tail colon))
                λ v h. omega (arith, h, less, taken))
              λ rest shorter. members false rest (omega arith) (omega arith))

  -- The three parsers return the same on any two amounts of fuel that are enough.
  all-same : (f g : ℕ) → SameValues f g × SameMembers f g × SameItems f g
  unfolding SameValues SameMembers SameItems
  all-same zero g = (
    (λ text hf hg. absurd (omega arith)),
    (λ first text hf hg. absurd (omega arith)),
    (λ first text hf hg. absurd (omega arith)),
  )
  all-same (suc f) zero = (
    (λ text hf hg. absurd (omega arith)),
    (λ first text hf hg. absurd (omega arith)),
    (λ first text hf hg. absurd (omega arith)),
  )
  all-same (suc f) (suc g) =
      let (values, members, items) = all-same f g in
      (values-same f g members items, members-same f g values members, items-same f g values items)

-- ParseValue of tool arguments has the same result, accepted or refused, on any fuel that is at least twice
-- the length of the input and two, which is what Parse of the model gives: the fuel never runs out.
pub parse_dsl_value-fuel :
    (is_number : List ℕ → Bool) (text : List ℕ) (fuel : ℕ)
    → 2 * length text + 2 ≤ fuel
    → parse_dsl_value is_number fuel text ≡ parse_dsl_value is_number (2 * length text + 2) text
unfolding SameValues
parse_dsl_value-fuel is_number text fuel h =
    (all-same is_number fuel (2 * length text + 2)).0 text h (omega arith)
