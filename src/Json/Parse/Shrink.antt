-- ===== src/Json/Parse/Shrink.antt =====
-- The scalars of the JSON parser of src/util/json.cpp: each takes at least a byte.
use gem16gb.Prelude.{
  ℕ, suc, ◌+◌, ◌≤◌, ◌≡◌, refl, ap, Bool, true, false, ◌&&◌, ◌||◌, Option, none, some, List, [], ◌∷◌,
  ◌++◌, ◌==◌, inl, inr, if◌then◌else◌, length, Bool-cases, arith,
}
use gem16gb.Json.Strings.{Cursor, parsed, failed, cursor, parse_string}
use gem16gb.Json.Strings.Fuel.{
  Shrinks, shrinks, stops, Shrinks-if, Shrinks-bind, Shrinks-mono, parse_string-Shrinks,
}
use gem16gb.Json.Value.{Value, null, bool, string, null_text, true_text, false_text}
use gem16gb.Json.Parse.{
  ParseLimits, is_digit, is_digit19, skip_from, skip_whitespace, next_is, tail, advance,
  strip_prefix, parse_literal, after_digits, scan_digits, scan_integer, scan_fraction, scan_sign,
  scan_exponent, scan_exponent_digits, is_nil, end_number, number_value, sign_of, parse_unsigned,
  parse_number, parse_scalar,
}

skip_from-shorter :
    (position : ℕ) (rest : List ℕ) → length (skip_from position rest).rest ≤ length rest
unfolding skip_from
skip_from-shorter position [] = omega arith
skip_from-shorter position (c ∷ rest) = ground (arith, skip_from-shorter (suc position) rest)

pub skip_whitespace-shorter : (c : Cursor) → length (skip_whitespace c).rest ≤ length c.rest
unfolding skip_whitespace
skip_whitespace-shorter c = skip_from-shorter c.position c.rest

after_digits-shorter : (rest : List ℕ) → length (after_digits rest) ≤ length rest
unfolding after_digits
after_digits-shorter [] = omega arith
after_digits-shorter (c ∷ rest) = ground (arith, after_digits-shorter rest)

after_digits-less :
    (c : ℕ) (rest : List ℕ) → is_digit c ≡ true → length (after_digits (c ∷ rest)) ≤ length rest
unfolding after_digits
after_digits-less c rest h = rw h (after_digits-shorter rest)

pub tail-shorter : (rest : List ℕ) → length (tail rest) ≤ length rest
tail-shorter [] = omega arith
tail-shorter (c ∷ rest) = omega arith

scan_digits-Shrinks : (c : Cursor) → Shrinks (length c.rest) (scan_digits c)
unfolding scan_digits
scan_digits-Shrinks c = shrinks (after_digits-shorter c.rest)

scan_integer-Shrinks :
    (position byte : ℕ) (rest : List ℕ)
    → Shrinks (length rest) (scan_integer (cursor position (byte ∷ rest)))
unfolding scan_integer scan_digits
scan_integer-Shrinks position byte rest =
    Shrinks-if (byte == b'0') (Shrinks-if (next_is is_digit rest) stops (shrinks (omega arith)))
      (nonzero (is_digit19 byte) refl)
  where
    nonzero :
        (b : Bool)
        → is_digit19 byte ≡ b
        → Shrinks (length rest) (
            if b
            then scan_digits (cursor position (byte ∷ rest))
            else failed position "invalid integer part")
    nonzero true e = shrinks (after_digits-less byte rest (ground arith))
    nonzero false e = stops

scan_fraction-Shrinks : (c : Cursor) → Shrinks (length c.rest) (scan_fraction c)
unfolding scan_fraction
scan_fraction-Shrinks c =
    Shrinks-if (next_is (λ b. b == b'.') c.rest)
      (Shrinks-if (next_is is_digit (tail c.rest))
        (Shrinks-bind (scan_digits (advance c)) {f = λ digits behind. parsed (b'.' ∷ digits) behind}
          (Shrinks-mono (tail-shorter c.rest) (scan_digits-Shrinks (advance c)))
          λ digits behind h. shrinks h)
        stops)
      (shrinks {c = c} (omega arith))

scan_sign-Shrinks : (position : ℕ) (rest : List ℕ) → Shrinks (length rest) (scan_sign position rest)
unfolding scan_sign
scan_sign-Shrinks position [] = shrinks (omega arith)
scan_sign-Shrinks position (c ∷ rest) =
    Shrinks-if (c == b'+' || c == b'-') (shrinks (omega arith)) (shrinks (omega arith))

scan_exponent_digits-Shrinks :
    (e position : ℕ) (rest : List ℕ) → Shrinks (length rest) (scan_exponent_digits e position rest)
unfolding scan_exponent_digits
scan_exponent_digits-Shrinks e position rest =
    Shrinks-bind (scan_sign position rest) (scan_sign-Shrinks position rest) λ sign c h.
      Shrinks-if (next_is is_digit c.rest)
        (Shrinks-bind (scan_digits c) {f = λ digits behind. parsed (e ∷ (sign ++ digits)) behind}
          (Shrinks-mono h (scan_digits-Shrinks c)) λ digits behind less. shrinks less)
        stops

scan_exponent-Shrinks :
    (position : ℕ) (rest : List ℕ) → Shrinks (length rest) (scan_exponent position rest)
unfolding scan_exponent
scan_exponent-Shrinks position [] = shrinks (omega arith)
scan_exponent-Shrinks position (c ∷ rest) =
    Shrinks-if (c == b'e' || c == b'E')
      (Shrinks-mono (omega arith) (scan_exponent_digits-Shrinks c (suc position) rest))
      (shrinks (omega arith))

module _ (strtod : List ℕ → Option ℕ) where
  end_number-Shrinks :
      (negative : Bool) (whole fraction exponent : List ℕ) (c : Cursor)
      → Shrinks (length c.rest) (end_number strtod negative whole fraction exponent c)
  unfolding end_number
  end_number-Shrinks negative whole fraction exponent c = made (
      number_value strtod negative whole (is_nil fraction && is_nil exponent)
        (sign_of negative ++ (whole ++ (fraction ++ exponent))))
    where
      made :
          (o : Option Value)
          → Shrinks (length c.rest) (elim o [
            | none ↦ failed c.position "invalid or non-finite number"
            | some value ↦ parsed value c
          ])
      made none = stops
      made (some value) = shrinks (omega arith)

  parse_unsigned-Shrinks :
      (negative : Bool) (position byte : ℕ) (rest : List ℕ)
      → Shrinks (length rest) (parse_unsigned strtod negative (cursor position (byte ∷ rest)))
  unfolding parse_unsigned
  parse_unsigned-Shrinks negative position byte rest =
      Shrinks-bind (scan_integer (cursor position (byte ∷ rest)))
        (scan_integer-Shrinks position byte rest)
        λ whole c1 h1.
          Shrinks-bind (scan_fraction c1) (Shrinks-mono h1 (scan_fraction-Shrinks c1))
            λ fraction c2 h2.
              Shrinks-bind (scan_exponent c2.position c2.rest)
                (Shrinks-mono h2 (scan_exponent-Shrinks c2.position c2.rest))
                λ exponent c3 h3.
                  Shrinks-mono h3 (end_number-Shrinks negative whole fraction exponent c3)

  parse_number-Shrinks :
      (position byte : ℕ) (rest : List ℕ)
      → Shrinks (length rest) (parse_number strtod (cursor position (byte ∷ rest)))
  unfolding parse_number
  parse_number-Shrinks position byte [] =
      Shrinks-if (byte == b'-') stops (parse_unsigned-Shrinks false position byte [])
  parse_number-Shrinks position byte (digit ∷ rest) =
      Shrinks-if (byte == b'-')
        (Shrinks-mono (omega arith) (parse_unsigned-Shrinks true (suc position) digit rest))
        (parse_unsigned-Shrinks false position byte (digit ∷ rest))

pub strip_prefix-le :
    (literal text rest : List ℕ)
    → strip_prefix literal text ≡ some rest
    → length literal + length rest ≡ length text
unfolding strip_prefix
strip_prefix-le [] text rest e = let same : text ≡ rest = cc in omega (arith, ap length same)
strip_prefix-le (m ∷ literal) [] rest e = cc
strip_prefix-le (m ∷ literal) (c ∷ text) rest e = elim (Bool-cases (m == c)) [
  | inl same ↦ omega (arith, strip_prefix-le literal text rest (rw same at e))
  | inr other ↦ let wrong = rw other at e in cc
]

parse_literal-Shrinks :
    (l : ℕ) (literal : List ℕ) (value : Value) (position byte : ℕ) (rest : List ℕ)
    → Shrinks (length rest) (parse_literal (l ∷ literal) value (cursor position (byte ∷ rest)))
unfolding parse_literal
parse_literal-Shrinks l literal value position byte rest =
    found (strip_prefix (l ∷ literal) (byte ∷ rest)) refl
  where
    found :
        (o : Option (List ℕ))
        → strip_prefix (l ∷ literal) (byte ∷ rest) ≡ o
        → Shrinks (length rest) (elim o [
          | none ↦ failed position "invalid literal"
          | some behind ↦ parsed value (cursor (position + length (l ∷ literal)) behind)
        ])
    found none e = stops
    found (some behind) e =
        shrinks (omega (arith, strip_prefix-le (l ∷ literal) (byte ∷ rest) behind e))

pub parse_scalar-Shrinks :
    (strtod : List ℕ → Option ℕ) (limits : ParseLimits) (first position byte : ℕ) (rest : List ℕ)
    → Shrinks (length rest) (parse_scalar strtod limits first (cursor position (byte ∷ rest)))
unfolding parse_scalar
parse_scalar-Shrinks strtod limits first position byte rest =
    Shrinks-if (first == b'n') (parse_literal-Shrinks b'n' (tail null_text) null position byte rest)
      (Shrinks-if (first == b't')
        (parse_literal-Shrinks b't' (tail true_text) (bool true) position byte rest)
        (Shrinks-if (first == b'f')
          (parse_literal-Shrinks b'f' (tail false_text) (bool false) position byte rest)
          (Shrinks-if (first == 0x22)
            (Shrinks-bind (parse_string limits.max_string_bytes (cursor position (byte ∷ rest)))
              {f = λ text c. parsed (string text) c}
              (parse_string-Shrinks limits.max_string_bytes position byte rest)
              λ text c h. shrinks h)
            (Shrinks-if (first == b'-' || is_digit first)
              (parse_number-Shrinks strtod position byte rest)
              (stops {at = position} {m = "unexpected character"})))))
