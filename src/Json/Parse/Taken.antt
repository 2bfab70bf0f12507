-- ===== src/Json/Parse/Taken.antt =====
-- The parser of values of src/util/json.cpp: a value takes at least a byte.
use gem16gb.Prelude.{
  ℕ, zero, suc, ◌≤◌, Option, none, some, List, [], ◌∷◌, ◌==◌, ltb, if◌then◌else◌, length, arith,
}
use gem16gb.Json.Strings.{Cursor, Parsed, parsed, failed, cursor, parse_string}
use gem16gb.Json.Strings.Fuel.{
  Shrinks, shrinks, stops, Shrinks-if, Shrinks-bind, Shrinks-mono, parse_string-Shrinks,
}
use gem16gb.Json.Value.{cons, Members, empty, array, object, emplace}
use gem16gb.Json.Parse.{
  ParseLimits, next_is, tail, advance, skip_whitespace, parse_scalar, seen_value, parse_value,
  parse_items, parse_members,
}
use gem16gb.Json.Parse.Shrink.{skip_whitespace-shorter, tail-shorter, parse_scalar-Shrinks}

module _ (strtod : List ℕ → Option ℕ) (limits : ParseLimits) where
  -- A value takes a byte; the rest of a list does not give one back.
  Values : ℕ → Type 0
  Values fuel =
      (depth seen position : ℕ) (rest : List ℕ)
      → Shrinks (length (tail rest))
          (parse_value strtod limits fuel depth seen (cursor position rest))

  ItemLists : ℕ → Type 0
  ItemLists fuel =
      (depth seen : ℕ) (c : Cursor)
      → Shrinks (length c.rest) (parse_items strtod limits fuel depth seen c)

  MemberLists : ℕ → Type 0
  MemberLists fuel =
      (depth seen : ℕ) (members : Members) (c : Cursor)
      → Shrinks (length c.rest) (parse_members strtod limits fuel depth seen members c)

  inside-shorter :
      (position byte : ℕ) (rest : List ℕ)
      → length (skip_whitespace (cursor (suc position) rest)).rest ≤ length rest
  inside-shorter position byte rest = skip_whitespace-shorter (cursor (suc position) rest)

  value-round : (fuel : ℕ) → ItemLists fuel → MemberLists fuel → Values (suc fuel)
  unfolding Values ItemLists MemberLists parse_value
  value-round fuel items members depth seen position [] =
      Shrinks-if (ltb limits.max_depth depth) stops
        (Shrinks-if (ltb limits.max_values (suc seen)) stops stops)
  value-round fuel items members depth seen position (byte ∷ rest) =
      let inside = skip_whitespace (cursor (suc position) rest) in
      let less = inside-shorter position byte rest in
      Shrinks-if (ltb limits.max_depth depth) stops (
        Shrinks-if (ltb limits.max_values (suc seen)) stops (
          Shrinks-if (byte == b'[')
            (Shrinks-if (next_is (λ b. b == b']') inside.rest)
              (shrinks (omega (arith, less, tail-shorter inside.rest)))
              (Shrinks-bind (parse_items strtod limits fuel (suc depth) (suc seen) inside)
                {f = λ r c'. parsed (array r.0, r.1) c'}
                (Shrinks-mono less (items (suc depth) (suc seen) inside)) λ r c h. shrinks h))
            (Shrinks-if (byte == b'{')
              (Shrinks-if (next_is (λ b. b == b'}') inside.rest)
                (shrinks (omega (arith, less, tail-shorter inside.rest)))
                (Shrinks-bind (parse_members strtod limits fuel (suc depth) (suc seen) empty inside)
                  {f = λ r c'. parsed (object r.0, r.1) c'}
                  (Shrinks-mono less (members (suc depth) (suc seen) empty inside))
                  λ r c h. shrinks h))
              (Shrinks-bind (parse_scalar strtod limits byte (cursor position (byte ∷ rest)))
                {f = seen_value (suc seen)}
                (parse_scalar-Shrinks strtod limits byte position byte rest) λ v c h. shrinks h))))

  items-round : (fuel : ℕ) → Values fuel → ItemLists fuel → ItemLists (suc fuel)
  unfolding Values ItemLists parse_items
  items-round fuel values items depth seen c =
      Shrinks-bind (parse_value strtod limits fuel depth seen c)
        (Shrinks-mono (tail-shorter c.rest) (values depth seen c.position c.rest))
        λ item c1 h1.
          let c2 = skip_whitespace c1 in
          let h2 = skip_whitespace-shorter c1 in
          let h3 = tail-shorter c2.rest in
          let h4 = skip_whitespace-shorter (advance c2) in
          Shrinks-if (next_is (λ b. b == b']') c2.rest) (shrinks (omega (arith, h1, h2, h3))) (
            Shrinks-if (next_is (λ b. b == b',') c2.rest)
              (Shrinks-bind
                (parse_items strtod limits fuel depth item.1 (skip_whitespace (advance c2)))
                {f = λ items c3. parsed (cons item.0 items.0, items.1) c3}
                (Shrinks-mono (omega (arith, h1, h2, h3, h4))
                  (items depth item.1 (skip_whitespace (advance c2))))
                λ r c3 h. shrinks h)
              (stops {at = c2.position} {m = "expected ',' or ']' in array"}))

  -- What is done with an entry that was read, whose key may be there already.
  grown-Shrinks :
      (n : ℕ) (o : Option Members) (c3 : Cursor) (seen : ℕ)
      (later : Members → Cursor → Parsed (Members × ℕ))
      → length c3.rest ≤ n
      → ((members : Members) (c : Cursor) → length c.rest ≤ n → Shrinks n (later members c))
      → Shrinks n (elim o [
        | none ↦ failed c3.position "duplicate object key"
        | some grown ↦
            let c4 = skip_whitespace c3 in
            if next_is (λ b. b == b'}') c4.rest
            then parsed (grown, seen) (advance c4)
            else if next_is (λ b. b == b',') c4.rest
            then later grown (skip_whitespace (advance c4))
            else failed c4.position "expected ',' or '}' in object"
      ])
  grown-Shrinks n none c3 seen later h k = stops
  grown-Shrinks n (some grown) c3 seen later h k =
      let c4 = skip_whitespace c3 in
      let h1 = skip_whitespace-shorter c3 in
      let h2 = tail-shorter c4.rest in
      let h3 = skip_whitespace-shorter (advance c4) in
      Shrinks-if (next_is (λ b. b == b'}') c4.rest) (shrinks (omega (arith, h, h1, h2))) (
        Shrinks-if (next_is (λ b. b == b',') c4.rest)
          (k grown (skip_whitespace (advance c4)) (omega (arith, h, h1, h2, h3)))
          (stops {at = c4.position} {m = "expected ',' or '}' in object"}))

  pub parse_string-shorter :
      (position : ℕ) (rest : List ℕ)
      → Shrinks (length rest) (parse_string limits.max_string_bytes (cursor position rest))
  unfolding parse_string
  parse_string-shorter position [] = stops
  parse_string-shorter position (quote ∷ rest) =
      Shrinks-mono (omega arith) (parse_string-Shrinks limits.max_string_bytes position quote rest)

  members-round : (fuel : ℕ) → Values fuel → MemberLists fuel → MemberLists (suc fuel)
  unfolding Values MemberLists parse_members
  members-round fuel values members depth seen acc c =
      Shrinks-if (next_is (λ b. b == 0x22) c.rest)
        (Shrinks-bind (parse_string limits.max_string_bytes c)
          (parse_string-shorter c.position c.rest)
          λ key c1 h1.
            let c2 = skip_whitespace c1 in
            let h2 = skip_whitespace-shorter c1 in
            let h3 = tail-shorter c2.rest in
            let c' = skip_whitespace (advance c2) in
            let h4 = skip_whitespace-shorter (advance c2) in
            Shrinks-if (next_is (λ b. b == b':') c2.rest)
              (Shrinks-bind (parse_value strtod limits fuel depth seen c')
                (Shrinks-mono (omega (arith, h1, h2, h3, h4, tail-shorter c'.rest))
                  (values depth seen c'.position c'.rest))
                λ item c3 h5.
                  grown-Shrinks (length c.rest) (emplace key item.0 acc) c3 item.1
                    (parse_members strtod limits fuel depth item.1) h5
                    λ grown c5 h6. Shrinks-mono h6 (members depth item.1 grown c5))
              (stops {at = c2.position} {m = "expected ':' after object key"}))
        (stops {at = c.position} {m = "expected a string object key"})

  all-Shrinks : (fuel : ℕ) → Values fuel × ItemLists fuel × MemberLists fuel
  unfolding Values ItemLists MemberLists parse_value parse_items parse_members
  all-Shrinks zero = (
    (λ depth seen position rest. stops),
    (λ depth seen c. stops),
    (λ depth seen members c. stops),
  )
  all-Shrinks (suc fuel) =
      let (values, items, members) = all-Shrinks fuel in
      (
        value-round fuel items members,
        items-round fuel values items,
        members-round fuel values members,
      )

  -- What a value leaves is shorter than the input.
  pub parse_value-Shrinks :
      (fuel depth seen : ℕ) (c : Cursor)
      → Shrinks (length (tail c.rest)) (parse_value strtod limits fuel depth seen c)
  unfolding Values
  parse_value-Shrinks fuel depth seen c = (all-Shrinks fuel).0 depth seen c.position c.rest
