-- ===== src/Json/Parse/Numbers.antt =====
-- The number scanner of src/util/json.cpp on the integers that Stringify prints.
use native.Mathlib.Nat.{pow-suc}
use gem16gb.Prelude.{
  ℕ, zero, suc, ◌+◌, ◌*◌, ◌/◌, ◌%◌, ◌^◌, ◌<◌, ◌≡◌, refl, ap, ◌∙◌, inl, inr, Bool, true, not, false,
  ◌||◌, Option, some, List, [], ◌∷◌, ◌++◌, ltb, ◌==◌, length, arith, Bool-cases, lt→ltb,
}
use gem16gb.Json.Strings.{Cursor, parsed, cursor}
use gem16gb.Json.Value.{ℤ, pos, negsuc, integer, decimal_chars, int_chars}
use gem16gb.Json.Value.Numbers.{InRange}
use gem16gb.Json.Parse.{
  is_digit, is_digit19, next_is, digits_of, after_digits, scan_integer, scan_fraction,
  scan_exponent, decimal_value, number_value, end_number, parse_unsigned, parse_number, sign_of,
  is_nil,
}

-- What may stand behind a number: the end of the input, or a byte that does not go on with it.
abbrev pub ends : List ℕ → Bool
ends [] = true
ends (c ∷ rest) = not (is_digit c || (c == b'.' || (c == b'e' || c == b'E')))

ends-digit : (rest : List ℕ) → ends rest ≡ true → next_is is_digit rest ≡ false
ends-digit [] h = refl
ends-digit (c ∷ rest) h = ground arith

ends-point : (rest : List ℕ) → ends rest ≡ true → next_is (λ b. b == b'.') rest ≡ false
ends-point [] h = refl
ends-point (c ∷ rest) h = ground arith

scan_exponent-ends :
    (p : ℕ) (rest : List ℕ) → ends rest ≡ true → scan_exponent p rest ≡ parsed [] (cursor p rest)
unfolding scan_exponent
scan_exponent-ends p [] h = refl
scan_exponent-ends p (c ∷ rest) h = ground arith

scan_fraction-ends :
    (p : ℕ) (rest : List ℕ)
    → ends rest ≡ true
    → scan_fraction (cursor p rest) ≡ parsed [] (cursor p rest)
unfolding scan_fraction
scan_fraction-ends p rest h = rw (ends-point rest h)

-- Digits only.
abbrev pub AllDigits : List ℕ → Type 0
AllDigits [] = Unit
AllDigits (c ∷ ds) = (is_digit c ≡ true) × AllDigits ds

digits_of-append :
    (ds rest : List ℕ) → AllDigits ds → next_is is_digit rest ≡ false → digits_of (ds ++ rest) ≡ ds
unfolding digits_of
digits_of-append [] [] h stop = refl
digits_of-append [] (c ∷ rest) h stop = rw stop
digits_of-append (d ∷ ds) rest h stop = rw h.0 (ap (λ t. d ∷ t) (digits_of-append ds rest h.1 stop))

after_digits-append :
    (ds rest : List ℕ)
    → AllDigits ds
    → next_is is_digit rest ≡ false
    → after_digits (ds ++ rest) ≡ rest
unfolding after_digits
after_digits-append [] [] h stop = refl
after_digits-append [] (c ∷ rest) h stop = rw stop
after_digits-append (d ∷ ds) rest h stop = rw h.0 (after_digits-append ds rest h.1 stop)

digit_byte : (d : ℕ) → d < 10 → is_digit (b'0' + d) ≡ true
digit_byte d h = ground arith

decimal_chars-AllDigits :
    (fuel value : ℕ) (digits : List ℕ)
    → AllDigits digits
    → AllDigits (decimal_chars fuel value digits)
unfolding decimal_chars
decimal_chars-AllDigits zero value digits h = h
decimal_chars-AllDigits (suc fuel) value digits h = elim (Bool-cases (ltb value 10)) [
  | inl e ↦ rw e (digit_byte value (ground arith), h)
  | inr e ↦ rw e (
      decimal_chars-AllDigits fuel (value / 10) ((b'0' + value % 10) ∷ digits)
        (digit_byte (value % 10) (omega arith), h))
]

decimal_value-decimal_chars :
    (fuel value : ℕ) (digits : List ℕ)
    → value < 10 ^ fuel
    → decimal_value 0 (decimal_chars fuel value digits) ≡ decimal_value value digits
unfolding decimal_chars decimal_value
decimal_value-decimal_chars zero value digits h =
    ap (λ n. decimal_value n digits) (omega (arith, h))
decimal_value-decimal_chars (suc fuel) value digits h =
    let power : 10 ^ suc fuel ≡ 10 ^ fuel * 10 = pow-suc 10 fuel in
    elim (Bool-cases (ltb value 10)) [
      | inl e ↦ rw e (ap (λ n. decimal_value n digits) (omega arith))
      | inr e ↦ rw e (
          decimal_value-decimal_chars fuel (value / 10) ((b'0' + value % 10) ∷ digits)
            (omega (arith, h, power))
          ∙ ap (λ n. decimal_value n digits) (omega arith))
    ]

-- A number that is not zero is printed with no leading zero.
decimal_chars-digit19 :
    (fuel value : ℕ) (digits rest : List ℕ)
    → 0 < value
    → value < 10 ^ fuel
    → next_is is_digit19 (decimal_chars fuel value digits ++ rest) ≡ true
unfolding decimal_chars
decimal_chars-digit19 zero value digits rest some_value h = absurd (omega (arith, h, some_value))
decimal_chars-digit19 (suc fuel) value digits rest some_value h =
    let power : 10 ^ suc fuel ≡ 10 ^ fuel * 10 = pow-suc 10 fuel in
    elim (Bool-cases (ltb value 10)) [
      | inl e ↦ rw e (ground arith)
      | inr e ↦ rw e (
          decimal_chars-digit19 fuel (value / 10) ((b'0' + value % 10) ∷ digits) rest (ground arith)
            (omega (arith, h, power)))
    ]

plus_one : (p : ℕ) → suc p ≡ p + 1
plus_one p = omega arith

digit19-zero :
    (rest : List ℕ) → next_is is_digit19 rest ≡ true → next_is (λ b. b == b'0') rest ≡ false
digit19-zero [] h = cc
digit19-zero (c ∷ rest) h = ground arith

digit19-minus :
    (rest : List ℕ) → next_is is_digit19 rest ≡ true → next_is (λ b. b == b'-') rest ≡ false
digit19-minus [] h = cc
digit19-minus (c ∷ rest) h = ground arith

scan_integer-digits :
    (p : ℕ) (ds rest : List ℕ)
    → next_is is_digit19 (ds ++ rest) ≡ true
    → AllDigits ds
    → next_is is_digit rest ≡ false
    → scan_integer (cursor p (ds ++ rest)) ≡ parsed ds (cursor (p + length ds) rest)
unfolding scan_integer
scan_integer-digits p ds rest first digits stop = rw (
  digit19-zero (ds ++ rest) first,
  first,
  digits_of-append ds rest digits stop,
  after_digits-append ds rest digits stop,
)

scan_integer-zero :
    (p : ℕ) (rest : List ℕ)
    → next_is is_digit rest ≡ false
    → scan_integer (cursor p (b'0' ∷ rest)) ≡ parsed (b'0' ∷ []) (cursor (p + 1) rest)
unfolding scan_integer
scan_integer-zero p rest stop = rw (stop, plus_one p)

zero_chars : decimal_chars 20 0 [] ≡ b'0' ∷ []
unfolding decimal_chars
zero_chars = refl

-- The digits of a number as the scan takes them.
scan_integer-decimal :
    (p value : ℕ) (rest : List ℕ)
    → value < 10 ^ 20
    → ends rest ≡ true
    → scan_integer (cursor p (decimal_chars 20 value [] ++ rest))
      ≡ parsed (decimal_chars 20 value []) (cursor (p + length (decimal_chars 20 value [])) rest)
scan_integer-decimal p zero rest h stop =
    rw zero_chars (scan_integer-zero p rest (ends-digit rest stop))
scan_integer-decimal p (suc n) rest h stop =
    scan_integer-digits p (decimal_chars 20 (suc n) []) rest
      (decimal_chars-digit19 20 (suc n) [] rest (omega arith) h)
      (decimal_chars-AllDigits 20 (suc n) [] tt) (ends-digit rest stop)

magnitude : ℤ → ℕ
magnitude (pos n) = n
magnitude (negsuc n) = suc n

is_negative : ℤ → Bool
is_negative (pos n) = false
is_negative (negsuc n) = true

number_value-int :
    (strtod : List ℕ → Option ℕ) (n : ℤ) (token : List ℕ)
    → InRange n
    → number_value strtod (is_negative n) (decimal_chars 20 (magnitude n) []) true token
      ≡ some (integer n)
unfolding number_value InRange magnitude is_negative
number_value-int strtod (pos n) token h =
    simp (decimal_value-decimal_chars 20 n [] (omega (arith, h)), lt→ltb n (2 ^ 63) h)
number_value-int strtod (negsuc n) token h =
    simp (decimal_value-decimal_chars 20 (suc n) [] (omega (arith, h)), lt→ltb n (2 ^ 63) h)

magnitude_bound : (n : ℤ) → InRange n → magnitude n < 10 ^ 20
unfolding InRange magnitude
magnitude_bound (pos n) h = omega (arith, h)
magnitude_bound (negsuc n) h = omega (arith, h)

end_number-int :
    (strtod : List ℕ → Option ℕ) (n : ℤ) (c : Cursor)
    → InRange n
    → end_number strtod (is_negative n) (decimal_chars 20 (magnitude n) []) [] [] c
      ≡ parsed (integer n) c
unfolding end_number
end_number-int strtod n c h = rw (
  number_value-int strtod n (sign_of (is_negative n) ++ (decimal_chars 20 (magnitude n) [] ++ []))
      h,
  end_number,
)

parse_unsigned-int :
    (strtod : List ℕ → Option ℕ) (n : ℤ) (p : ℕ) (rest : List ℕ)
    → InRange n
    → ends rest ≡ true
    → parse_unsigned strtod (is_negative n) (cursor p (decimal_chars 20 (magnitude n) [] ++ rest))
      ≡ parsed (integer n) (cursor (p + length (decimal_chars 20 (magnitude n) [])) rest)
unfolding parse_unsigned
parse_unsigned-int strtod n p rest h stop =
    let ds = decimal_chars 20 (magnitude n) [] in
    simp (
      scan_integer-decimal p (magnitude n) rest (magnitude_bound n h) stop,
      scan_fraction-ends (p + length ds) rest stop,
      scan_exponent-ends (p + length ds) rest stop,
      end_number-int strtod n (cursor (p + length ds) rest) h,
    )

no_minus :
    (value : ℕ) (rest : List ℕ)
    → value < 10 ^ 20
    → next_is (λ b. b == b'-') (decimal_chars 20 value [] ++ rest) ≡ false
no_minus zero rest h = rw zero_chars refl
no_minus (suc n) rest h =
    digit19-minus (decimal_chars 20 (suc n) [] ++ rest)
      (decimal_chars-digit19 20 (suc n) [] rest (omega arith) h)

not_empty : (ds rest : List ℕ) → next_is is_digit (ds ++ rest) ≡ true → is_nil (ds ++ rest) ≡ false
not_empty [] [] h = cc
not_empty [] (c ∷ rest) h = refl
not_empty (d ∷ ds) rest h = refl

digit19-digit : (rest : List ℕ) → next_is is_digit19 rest ≡ true → next_is is_digit rest ≡ true
digit19-digit [] h = cc
digit19-digit (c ∷ rest) h = ground arith

-- An integer that was printed, with what may stand behind it, is read back.
pub parse_number-int_chars :
    (strtod : List ℕ → Option ℕ) (n : ℤ) (p : ℕ) (rest : List ℕ)
    → InRange n
    → ends rest ≡ true
    → parse_number strtod (cursor p (int_chars n ++ rest))
      ≡ parsed (integer n) (cursor (p + length (int_chars n)) rest)
unfolding parse_number int_chars InRange is_negative magnitude
parse_number-int_chars strtod (pos n) p rest h stop =
    rw (no_minus n rest (omega (arith, h))) (parse_unsigned-int strtod (pos n) p rest h stop)
parse_number-int_chars strtod (negsuc n) p rest h stop =
    rw
      (not_empty (decimal_chars 20 (suc n) []) rest (
        digit19-digit (decimal_chars 20 (suc n) [] ++ rest)
          (decimal_chars-digit19 20 (suc n) [] rest (omega arith) (omega (arith, h)))))
      (parse_unsigned-int strtod (negsuc n) (suc p) rest h stop
        ∙ ap (λ q. parsed (integer (negsuc n)) (cursor q rest)) (omega arith))

has_head :
    (test : ℕ → Bool) (w : List ℕ)
    → next_is test w ≡ true
    → (first : ℕ) × (t : List ℕ) × (w ≡ first ∷ t) × (test first ≡ true)
has_head test [] h = absurd (cc)
has_head test (c ∷ w) h = (c, w, refl, h)

digit_head :
    (value : ℕ) (rest : List ℕ)
    → value < 10 ^ 20
    → next_is is_digit (decimal_chars 20 value [] ++ rest) ≡ true
digit_head zero rest h = rw zero_chars refl
digit_head (suc n) rest h =
    digit19-digit (decimal_chars 20 (suc n) [] ++ rest)
      (decimal_chars-digit19 20 (suc n) [] rest (omega arith) h)

-- How the text of an integer begins.
pub int_head :
    (n : ℤ) (rest : List ℕ)
    → InRange n
    → (first : ℕ) × (t : List ℕ) × (int_chars n ++ rest ≡ first ∷ t)
      × (first == b'-' || is_digit first ≡ true)
unfolding InRange int_chars
int_head (pos n) rest h =
    let (first, t, e, digit) =
      has_head is_digit (decimal_chars 20 n [] ++ rest) (digit_head n rest (omega (arith, h))) in
    (first, t, e, ground arith)
int_head (negsuc n) rest h = (b'-', decimal_chars 20 (suc n) [] ++ rest, refl, refl)
