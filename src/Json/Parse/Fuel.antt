-- ===== src/Json/Parse/Fuel.antt =====
-- The parser of values of src/util/json.cpp: the fuel of the model is enough, since two calls in a row take
-- a byte.
use gem16gb.Prelude.{
  ℕ, zero, suc, ◌+◌, ◌*◌, ◌≤◌, ◌≡◌, ap, sym, ◌∙◌, Option, List, [], ◌∷◌, ◌==◌, if◌then◌else◌,
  length, arith,
}
use gem16gb.Json.Strings.{Cursor, failed, ◌>>=◌, cursor, parse_string}
use gem16gb.Json.Strings.Fuel.{Shrinks-mono, parse_string-Shrinks}
use gem16gb.Json.Value.{Members, empty, emplace}
use gem16gb.Json.Parse.{
  ParseLimits, next_is, advance, skip_whitespace, parse_value, parse_items, parse_members,
}
use gem16gb.Json.Parse.Shrink.{skip_whitespace-shorter, tail-shorter}
use gem16gb.Json.Parse.Rounds.{
  >>=-same, value-round, value_at_end, items-round, item-same, end-same, members-round, grown-same,
  value_with, item_with, members_with, grown_with,
}
use gem16gb.Json.Parse.Taken.{parse_value-Shrinks}

module _ (strtod : List ℕ → Option ℕ) (limits : ParseLimits) where
  SameValues : ℕ → ℕ → Type 0
  SameValues f g =
      (depth seen position : ℕ) (rest : List ℕ)
      → 2 * length rest + 2 ≤ f
      → 2 * length rest + 2 ≤ g
      → parse_value strtod limits f depth seen (cursor position rest)
        ≡ parse_value strtod limits g depth seen (cursor position rest)

  SameItems : ℕ → ℕ → Type 0
  SameItems f g =
      (depth seen position : ℕ) (rest : List ℕ)
      → 2 * length rest + 3 ≤ f
      → 2 * length rest + 3 ≤ g
      → parse_items strtod limits f depth seen (cursor position rest)
        ≡ parse_items strtod limits g depth seen (cursor position rest)

  SameMembers : ℕ → ℕ → Type 0
  SameMembers f g =
      (depth seen : ℕ) (members : Members) (position : ℕ) (rest : List ℕ)
      → 2 * length rest + 3 ≤ f
      → 2 * length rest + 3 ≤ g
      → parse_members strtod limits f depth seen members (cursor position rest)
        ≡ parse_members strtod limits g depth seen members (cursor position rest)

  values-same : (f g : ℕ) → SameItems f g → SameMembers f g → SameValues (suc f) (suc g)
  unfolding SameValues SameItems SameMembers
  values-same f g items members depth seen position [] hf hg =
      value_at_end strtod limits f g depth seen position
  values-same f g items members depth seen position (byte ∷ rest) hf hg =
      let inside = skip_whitespace (cursor (suc position) rest) in
      let less = skip_whitespace-shorter (cursor (suc position) rest) in
      value-round strtod limits f depth seen position byte rest
      ∙ (ap
            (λ i.
              value_with strtod limits depth seen position byte rest i
                (parse_members strtod limits f (suc depth) (suc seen) empty inside))
            (items (suc depth) (suc seen) inside.position inside.rest (omega (arith, less))
              (omega (arith, less)))
          ∙ (ap
                (λ m.
                  value_with strtod limits depth seen position byte rest
                    (parse_items strtod limits g (suc depth) (suc seen) inside) m)
                (members (suc depth) (suc seen) empty inside.position inside.rest
                  (omega (arith, less)) (omega (arith, less)))
              ∙ sym (value-round strtod limits g depth seen position byte rest)))

  items-same : (f g : ℕ) → SameValues f g → SameItems f g → SameItems (suc f) (suc g)
  unfolding SameValues SameItems
  items-same f g values items depth seen position [] hf hg =
      let c = cursor position [] in
      items-round strtod limits f depth seen c
      ∙ (end-same strtod limits f depth seen position
            (item_with strtod limits (λ c' s. parse_items strtod limits f depth s c'))
            (item_with strtod limits (λ c' s. parse_items strtod limits g depth s c'))
          ∙ (ap
                (λ r.
                  r >>= item_with strtod limits (λ c' s. parse_items strtod limits g depth s c'))
                (values depth seen position [] (omega arith) (omega arith))
              ∙ sym (items-round strtod limits g depth seen c)))
  items-same f g values items depth seen position (byte ∷ rest) hf hg =
      let c = cursor position (byte ∷ rest) in
      items-round strtod limits f depth seen c
      ∙ (>>=-same (length rest) (parse_value strtod limits f depth seen c)
            (parse_value-Shrinks strtod limits f depth seen c)
            (λ item c1 less.
              item-same strtod limits (λ c' s. parse_items strtod limits f depth s c')
                (λ c' s. parse_items strtod limits g depth s c') item c1
                λ c2 s shorter.
                  items depth s c2.position c2.rest (omega (arith, less, shorter))
                    (omega (arith, less, shorter)))
          ∙ (ap
                (λ r.
                  r >>= item_with strtod limits (λ c' s. parse_items strtod limits g depth s c'))
                (values depth seen position (byte ∷ rest) (omega arith) (omega arith))
              ∙ sym (items-round strtod limits g depth seen c)))

  members-same : (f g : ℕ) → SameValues f g → SameMembers f g → SameMembers (suc f) (suc g)
  unfolding SameValues SameMembers members_with
  members-same f g values members depth seen acc position [] hf hg =
      members-round strtod limits f depth seen acc (cursor position [])
      ∙ sym (members-round strtod limits g depth seen acc (cursor position []))
  members-same f g values members depth seen acc position (byte ∷ rest) hf hg =
      let c = cursor position (byte ∷ rest) in
      members-round strtod limits f depth seen acc c
      ∙ (ap (λ r. if byte == 0x22 then r else failed position "expected a string object key")
            (>>=-same (length rest) (parse_string limits.max_string_bytes c)
              (parse_string-Shrinks limits.max_string_bytes position byte rest)
              λ key c1 less.
                let c2 = skip_whitespace c1 in
                let c' = skip_whitespace (advance c2) in
                let shorter : length c'.rest ≤ length rest = omega (
                  arith,
                  less,
                  skip_whitespace-shorter c1,
                  tail-shorter c2.rest,
                  skip_whitespace-shorter (advance c2),
                ) in
                ap
                  (λ r.
                    if next_is (λ b. b == b':') c2.rest
                    then r
                    else failed c2.position "expected ':' after object key")
                  (>>=-same (length rest) (parse_value strtod limits f depth seen c')
                      (Shrinks-mono (omega (arith, shorter, tail-shorter c'.rest))
                        (parse_value-Shrinks strtod limits f depth seen c'))
                      (λ item c3 h.
                        grown-same strtod limits (length rest)
                          (λ m c. parse_members strtod limits f depth item.1 m c)
                          (λ m c. parse_members strtod limits g depth item.1 m c)
                          (emplace key item.0 acc) item.1 c3 h
                          λ m c4 h4.
                            members depth item.1 m c4.position c4.rest (omega (arith, h4))
                              (omega (arith, h4)))
                    ∙ ap
                        (λ r. r >>= λ item c3.
                          grown_with strtod limits
                            (λ m c. parse_members strtod limits g depth item.1 m c) item.1 c3
                            (emplace key item.0 acc))
                        (values depth seen c'.position c'.rest (omega (arith, shorter))
                          (omega (arith, shorter)))))
          ∙ sym (members-round strtod limits g depth seen acc c))

  all-same : (f g : ℕ) → SameValues f g × SameItems f g × SameMembers f g
  unfolding SameValues SameItems SameMembers
  all-same zero g = (
    (λ depth seen position rest hf hg. absurd (omega arith)),
    (λ depth seen position rest hf hg. absurd (omega arith)),
    (λ depth seen acc position rest hf hg. absurd (omega arith)),
  )
  all-same (suc f) zero = (
    (λ depth seen position rest hf hg. absurd (omega arith)),
    (λ depth seen position rest hf hg. absurd (omega arith)),
    (λ depth seen acc position rest hf hg. absurd (omega arith)),
  )
  all-same (suc f) (suc g) =
      let (values, items, members) = all-same f g in
      (values-same f g items members, items-same f g values items, members-same f g values members)

-- Any two amounts of fuel that are at least twice the length of the input and two, which is what Run of the
-- model gives, lead to the same result of the parser of values, accepted or refused: the fuel never runs out.
pub parse_value-fuel :
    (strtod : List ℕ → Option ℕ) (limits : ParseLimits) (f g depth seen : ℕ) (c : Cursor)
    → 2 * length c.rest + 2 ≤ f
    → 2 * length c.rest + 2 ≤ g
    → parse_value strtod limits f depth seen c ≡ parse_value strtod limits g depth seen c
unfolding SameValues
parse_value-fuel strtod limits f g depth seen c =
    (all-same strtod limits f g).0 depth seen c.position c.rest
