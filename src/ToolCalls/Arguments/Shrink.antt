-- ===== src/ToolCalls/Arguments/Shrink.antt =====
-- ArgumentDslParser of src/runtime/tool_call_parser.cpp: whatever is parsed takes at least a byte.
use gem16gb.Prelude.{
  ℕ, zero, suc, ◌+◌, ◌≤◌, ◌<◌, ◌≡◌, refl, Bool, true, false, not, ◌||◌, Option, none, some, List,
  [], ◌∷◌, ◌++◌, ◌==◌, inl, inr, if◌then◌else◌, length, String, Option-cases, arith,
}
use gem16gb.Status.{
  Result, ok, fail, refuse_if, ◌>>=◌, Ensures, returned, refused, Ensures-step, Ensures-mono,
  Ensures-ok, data_loss,
}
use gem16gb.Json.Escape.{escape}
use gem16gb.Json.Value.{comma}
use gem16gb.Json.Parse.{next_is, tail, is_nil, strip_prefix}
use gem16gb.ToolCalls.Arguments.{
  parse_error, is_alnum, split_at, span, string_quote, parse_dsl_string, parse_dsl_literal,
  next_entry, parse_dsl_value, parse_dsl_members, parse_dsl_items,
}
use gem16gb.Json.Parse.Shrink.{strip_prefix-le, tail-shorter}
use gem16gb.ToolCalls.Stream.Search.{split_at-length}

-- What is left is shorter than the text.
abbrev pub Shrinks : List ℕ → Result (List ℕ × List ℕ) → Type 0
Shrinks text r = Ensures (λ v. length v.1 < length text) r

pub span-length :
    (test : ℕ → Bool) (text : List ℕ)
    → length (span test text).0 + length (span test text).1 ≡ length text
unfolding span
span-length test [] = refl
span-length test (c ∷ text) = ground (arith, span-length test text)

pub next_entry-shorter :
    (close : ℕ) (message : String) (rest : List ℕ)
    → Ensures (λ r. length r ≤ length rest) (next_entry close message rest)
unfolding next_entry
next_entry-shorter close message [] = refused
next_entry-shorter close message (c ∷ rest) = split_byte (c == b',') (c == close)
  where
    split_byte :
        (b d : Bool)
        → Ensures
            (λ r. length r ≤ suc (length rest))
            (if b then ok rest else if d then ok (c ∷ rest) else fail data_loss message)
    split_byte true d = returned (omega arith)
    split_byte false true = returned (omega arith)
    split_byte false false = refused

parse_dsl_string-shorter :
    (text : List ℕ) → Ensures (λ v. length v.1 ≤ length text) (parse_dsl_string text)
unfolding parse_dsl_string
parse_dsl_string-shorter text = elim (Option-cases (split_at string_quote text)) [
  | inl not_found ↦ rw (not_found, parse_dsl_string) refused
  | inr ((content, rest), found) ↦
      rw (found, parse_dsl_string)
        (returned (omega (arith, split_at-length string_quote text content rest found)))
]

taken-Shrinks :
    (literal rest text : List ℕ) (b : Bool) (empty other : String)
    → length literal + length rest ≡ length text
    → Shrinks text (
        if is_nil literal
        then parse_error empty
        else if b
        then ok (literal, rest)
        else parse_error other)
taken-Shrinks [] rest text b empty other h = refused
taken-Shrinks (c ∷ literal) rest text true empty other h = returned (omega arith)
taken-Shrinks (c ∷ literal) rest text false empty other h = refused

parse_dsl_literal-Shrinks :
    (is_number : List ℕ → Bool) (text : List ℕ) → Shrinks text (parse_dsl_literal is_number text)
unfolding parse_dsl_literal
parse_dsl_literal-Shrinks is_number text =
    taken-Shrinks _ _ text _ _ _
      (span-length (λ c. not (c == b',' || (c == b'}' || c == b']'))) text)

pick {ℓ κ} :
    {A : Type ℓ} {P : A → Type κ} (b : Bool) {x y : Result A}
    → Ensures P x
    → Ensures P y
    → Ensures P (if b then x else y)
pick true h k = h
pick false h k = k

-- More text is passed on, and the same is left.
then-Shrinks :
    (text : List ℕ) (r : Result (List ℕ × List ℕ)) (f : List ℕ → List ℕ) (whole : List ℕ)
    → Shrinks text r
    → length text ≤ length whole
    → Shrinks whole (r >>= λ v. ok (f v.0, v.1))
then-Shrinks text r f whole h shorter =
    Ensures-step r λ v e. returned (omega (arith, Ensures-ok h e))

module _ (is_number : List ℕ → Bool) where
  ValuesShrink : ℕ → Type 0
  ValuesShrink fuel = (text : List ℕ) → Shrinks text (parse_dsl_value is_number fuel text)

  MembersShrink : ℕ → Type 0
  MembersShrink fuel =
      (first : Bool) (text : List ℕ) → Shrinks text (parse_dsl_members is_number fuel first text)

  ItemsShrink : ℕ → Type 0
  ItemsShrink fuel =
      (first : Bool) (text : List ℕ) → Shrinks text (parse_dsl_items is_number fuel first text)

  value-round : (fuel : ℕ) → MembersShrink fuel → ItemsShrink fuel → ValuesShrink (suc fuel)
  unfolding ValuesShrink MembersShrink ItemsShrink parse_dsl_value
  value-round fuel members items [] = refused
  value-round fuel members items (c ∷ text) = at_quote (strip_prefix string_quote (c ∷ text)) refl
    where
      at_quote :
          (o : Option (List ℕ))
          → strip_prefix string_quote (c ∷ text) ≡ o
          → Shrinks (c ∷ text) (elim o [
            | some content ↦ parse_dsl_string content
            | none ↦
                if c == b'{'
                then (parse_dsl_members is_number fuel true text >>= (λ r. ok (b'{' ∷ r.0, r.1)))
                else if c == b'['
                then (parse_dsl_items is_number fuel true text >>= (λ r. ok (b'[' ∷ r.0, r.1)))
                else parse_dsl_literal is_number (c ∷ text)
          ])
      at_quote (some content) e =
          Ensures-mono (parse_dsl_string-shorter content)
            λ v h. omega (arith, h, strip_prefix-le string_quote (c ∷ text) content e)
      at_quote none e =
          pick (c == b'{')
            (then-Shrinks text _ (λ t. b'{' ∷ t) (c ∷ text) (members true text) (omega arith))
            (pick (c == b'[')
              (then-Shrinks text _ (λ t. b'[' ∷ t) (c ∷ text) (items true text) (omega arith))
              (parse_dsl_literal-Shrinks is_number (c ∷ text)))

  -- A value, what stands behind it, and the entries from there on.
  entry-Shrinks :
      (value : Result (List ℕ × List ℕ)) (close : ℕ) (message : String)
      (later : List ℕ → Result (List ℕ × List ℕ)) (put : List ℕ → List ℕ → List ℕ) (text : List ℕ)
      → Shrinks text value
      → ((rest : List ℕ) → Shrinks rest (later rest))
      → Shrinks text (
          value >>= (λ v.
            next_entry close message v.1
            >>= (λ rest. later rest >>= (λ more. ok (put v.0 more.0, more.1)))))
  entry-Shrinks value close message later put text shrinks h = Ensures-step value λ v is_value.
      Ensures-step (next_entry close message v.1) λ rest is_rest.
        Ensures-step (later rest) λ more is_more. returned (
          omega (
            arith,
            Ensures-ok shrinks is_value,
            Ensures-ok (next_entry-shorter close message v.1) is_rest,
            Ensures-ok (h rest) is_more,
          ))

  weaken :
      (text whole : List ℕ) {r : Result (List ℕ × List ℕ)}
      → Shrinks text r
      → length text ≤ length whole
      → Shrinks whole r
  weaken text whole h shorter = Ensures-mono h λ v less. omega (arith, less, shorter)

  members-round : (fuel : ℕ) → ValuesShrink fuel → MembersShrink fuel → MembersShrink (suc fuel)
  unfolding ValuesShrink MembersShrink parse_dsl_members
  members-round fuel values members first [] = refused
  members-round fuel values members first (c ∷ text) =
      let taken = span-length (λ b. is_alnum b || b == b'_') (c ∷ text) in
      let (key, colon) = span (λ b. is_alnum b || b == b'_') (c ∷ text) in
      pick (c == b'}') (returned (omega arith)) (
        Ensures-step (refuse_if (is_nil key || not (next_is (λ b. b == b':') colon)) data_loss _)
          λ done e.
            entry-Shrinks (parse_dsl_value is_number fuel (tail colon)) b'}' _
              (parse_dsl_members is_number fuel false)
              (λ v more. comma first ++ (0x22 ∷ (escape key ++ 0x22 ∷ b':' ∷ (v ++ more))))
              (c ∷ text)
              (weaken (tail colon) (c ∷ text) (values (tail colon))
                (omega (arith, taken, tail-shorter colon)))
              (members false))

  items-round : (fuel : ℕ) → ValuesShrink fuel → ItemsShrink fuel → ItemsShrink (suc fuel)
  unfolding ValuesShrink ItemsShrink parse_dsl_items
  items-round fuel values items first [] = refused
  items-round fuel values items first (c ∷ text) = pick (c == b']') (returned (omega arith)) (
      entry-Shrinks (parse_dsl_value is_number fuel (c ∷ text)) b']' _
        (parse_dsl_items is_number fuel false) (λ v more. comma first ++ (v ++ more)) (c ∷ text)
        (values (c ∷ text)) (items false))

  all-Shrink : (fuel : ℕ) → ValuesShrink fuel × MembersShrink fuel × ItemsShrink fuel
  unfolding ValuesShrink MembersShrink ItemsShrink parse_dsl_value parse_dsl_members parse_dsl_items
  all-Shrink zero = ((λ text. refused), (λ first text. refused), (λ first text. refused))
  all-Shrink (suc fuel) =
      let (values, members, items) = all-Shrink fuel in
      (
        value-round fuel members items,
        members-round fuel values members,
        items-round fuel values items,
      )

  pub parse_dsl_value-Shrinks :
      (fuel : ℕ) (text : List ℕ) → Shrinks text (parse_dsl_value is_number fuel text)
  unfolding ValuesShrink
  parse_dsl_value-Shrinks fuel text = (all-Shrink fuel).0 text
