-- ===== src/Json/Strings/Fuel.antt =====
-- The string scanner of src/util/json.cpp takes at least one byte in each round, so that its fuel
-- does not matter.
use gem16gb.Prelude.{
  ℕ, zero, suc, ◌+◌, ◌*◌, ◌^◌, ◌≤◌, ◌≡◌, refl, ap, Bool, true, false, ◌&&◌, ◌||◌, Option, none,
  some, List, [], ◌∷◌, ◌++◌, ltb, leb, ◌==◌, if◌then◌else◌, length, String, arith,
}
use gem16gb.Json.Utf8.{is_valid_utf8}
use gem16gb.Json.Strings.{
  Cursor, Parsed, parsed, failed, cursor, ◌>>=◌, hex_value, hex_digits, parse_hex4,
  parse_low_surrogate, expect_low_surrogate, parse_unicode_escape, unescape, string_piece,
  string_from, parse_string,
}

-- A failure, or a cursor with at most `n` bytes behind it.
pub data Shrinks {A : Type 0} (n : ℕ) : Parsed A → Type 0 where
  shrinks : {a : A} {c : Cursor} → length c.rest ≤ n → Shrinks n (parsed a c)
  stops : {at : ℕ} {m : String} → Shrinks n (failed at m)

module _ {A : Type 0} where
  pub Shrinks-if :
      {n : ℕ} (b : Bool) {x y : Parsed A}
      → Shrinks n x
      → Shrinks n y
      → Shrinks n (if b then x else y)
  Shrinks-if true h k = h
  Shrinks-if false h k = k

  pub Shrinks-bind :
      {B : Type 0} {n : ℕ} (r : Parsed B) {f : B → Cursor → Parsed A}
      → Shrinks n r
      → ((b : B) (c : Cursor) → length c.rest ≤ n → Shrinks n (f b c))
      → Shrinks n (r >>= f)
  Shrinks-bind (parsed b c) (shrinks h) k = k b c h
  Shrinks-bind (failed at m) stops k = stops

  pub Shrinks-mono : {n m : ℕ} {r : Parsed A} → n ≤ m → Shrinks n r → Shrinks m r
  Shrinks-mono le (shrinks h) = shrinks (omega (arith, le, h))
  Shrinks-mono le stops = stops

hex_digits-Shrinks :
    (n value position : ℕ) (rest : List ℕ)
    → Shrinks (length rest) (hex_digits n value position rest)
unfolding hex_digits
hex_digits-Shrinks zero value position rest = shrinks (omega arith)
hex_digits-Shrinks (suc n) value position [] = stops
hex_digits-Shrinks (suc n) value position (character ∷ rest) =
    digit_case (hex_value character) (λ digit.
      Shrinks-mono (omega arith) (hex_digits-Shrinks n (value * 2 ^ 4 + digit) (suc position) rest))
  where
    digit_case :
        (d : Option ℕ)
        → ((digit : ℕ)
            → Shrinks
                (suc (length rest))
                (hex_digits n (value * 2 ^ 4 + digit) (suc position) rest))
        → Shrinks (suc (length rest)) (elim d [
          | none ↦ failed (suc position) "non-hexadecimal unicode escape"
          | some digit ↦ hex_digits n (value * 2 ^ 4 + digit) (suc position) rest
        ])
    digit_case none k = stops
    digit_case (some digit) k = k digit

parse_hex4-Shrinks : (c : Cursor) → Shrinks (length c.rest) (parse_hex4 c)
unfolding parse_hex4
parse_hex4-Shrinks c =
    Shrinks-if (ltb (length c.rest) 4) stops (hex_digits-Shrinks 4 0 c.position c.rest)

parse_low_surrogate-Shrinks :
    (high : ℕ) (c : Cursor) → Shrinks (length c.rest) (parse_low_surrogate high c)
unfolding parse_low_surrogate
parse_low_surrogate-Shrinks high c =
    Shrinks-bind (parse_hex4 c) (parse_hex4-Shrinks c)
      (λ second c' h. Shrinks-if (ltb second 0xdc00 || ltb 0xdfff second) stops (shrinks h))

expect_low_surrogate-Shrinks :
    (high position : ℕ) (rest : List ℕ)
    → Shrinks (length rest) (expect_low_surrogate high position rest)
expect_low_surrogate-Shrinks high position [] = stops
expect_low_surrogate-Shrinks high position (x ∷ []) = stops
expect_low_surrogate-Shrinks high position (x ∷ y ∷ rest) =
    Shrinks-if (x == 0x5c && y == b'u')
      (Shrinks-mono (omega arith) (parse_low_surrogate-Shrinks high (cursor (position + 2) rest)))
      stops

parse_unicode_escape-Shrinks : (c : Cursor) → Shrinks (length c.rest) (parse_unicode_escape c)
unfolding parse_unicode_escape
parse_unicode_escape-Shrinks c = Shrinks-bind (parse_hex4 c) (parse_hex4-Shrinks c) (λ first c' h.
    Shrinks-if (leb 0xd800 first && leb first 0xdbff)
      (Shrinks-mono h (expect_low_surrogate-Shrinks first c'.position c'.rest))
      (Shrinks-if (leb 0xdc00 first && leb first 0xdfff) stops (shrinks h)))

unescape-Shrinks : (escaped : ℕ) (c : Cursor) → Shrinks (length c.rest) (unescape escaped c)
unfolding unescape
unescape-Shrinks escaped c =
    let done : (bytes : List ℕ) → Shrinks (length c.rest) (parsed bytes c) =
      λ bytes. shrinks (omega arith) in
    Shrinks-if (escaped == 0x22) (done _) (
      Shrinks-if (escaped == 0x5c) (done _) (
        Shrinks-if (escaped == b'/') (done _) (
          Shrinks-if (escaped == b'b') (done _) (
            Shrinks-if (escaped == b'f') (done _) (
              Shrinks-if (escaped == b'n') (done _) (
                Shrinks-if (escaped == b'r') (done _) (
                  Shrinks-if (escaped == b't') (done _) (
                    Shrinks-if (escaped == b'u')
                      (Shrinks-bind (parse_unicode_escape c) (parse_unicode_escape-Shrinks c)
                        (λ codepoint c' h. shrinks h))
                      stops))))))))

string_piece-Shrinks :
    (byte position : ℕ) (rest : List ℕ) → Shrinks (length rest) (string_piece byte position rest)
unfolding string_piece
string_piece-Shrinks byte position [] = Shrinks-if (byte == 0x5c) stops (shrinks (omega arith))
string_piece-Shrinks byte position (escaped ∷ rest) =
    Shrinks-if (byte == 0x5c)
      (Shrinks-mono (omega arith) (unescape-Shrinks escaped (cursor (suc position) rest)))
      (shrinks (omega arith))

-- The two runs agree on what is done with the piece that was read.
again-eq :
    (limit n : ℕ) (output : List ℕ) (piece : Parsed (List ℕ))
    (f g : List ℕ → Cursor → Parsed (List ℕ))
    → Shrinks n piece
    → ((bytes : List ℕ) (c : Cursor) → length c.rest ≤ n → f bytes c ≡ g bytes c)
    → (elim piece [
      | failed at m ↦ failed at m
      | parsed bytes c ↦
          if ltb limit (length (output ++ bytes))
          then failed c.position "string byte limit exceeded"
          else f bytes c
    ])
      ≡ (elim piece [
        | failed at m ↦ failed at m
        | parsed bytes c ↦
            if ltb limit (length (output ++ bytes))
            then failed c.position "string byte limit exceeded"
            else g bytes c
      ])
again-eq limit n output (failed at m) f g stops k = refl
again-eq limit n output (parsed bytes c) f g (shrinks h) k = rw (k bytes c h)

again-Shrinks :
    (limit n m : ℕ) (output : List ℕ) (piece : Parsed (List ℕ))
    (f : List ℕ → Cursor → Parsed (List ℕ))
    → Shrinks n piece
    → ((bytes : List ℕ) (c : Cursor) → length c.rest ≤ n → Shrinks m (f bytes c))
    → Shrinks m (elim piece [
      | failed at m ↦ failed at m
      | parsed bytes c ↦
          if ltb limit (length (output ++ bytes))
          then failed c.position "string byte limit exceeded"
          else f bytes c
    ])
again-Shrinks limit n m output (failed at s) f stops k = stops
again-Shrinks limit n m output (parsed bytes c) f (shrinks h) k =
    Shrinks-if (ltb limit (length (output ++ bytes))) stops (k bytes c h)

-- Fuel for every byte of the input is enough: any two amounts that cover the input give the same
-- result of the scan, so that the loop ends by itself as the one of the source does.
pub string_from-fuel :
    (m n limit position : ℕ) (rest output : List ℕ)
    → length rest ≤ m
    → length rest ≤ n
    → string_from m limit position rest output ≡ string_from n limit position rest output
unfolding string_from
string_from-fuel m n limit position [] output h k = refl
string_from-fuel zero n limit position (byte ∷ rest) output h k = absurd (omega (arith, h))
string_from-fuel (suc m) zero limit position (byte ∷ rest) output h k = absurd (omega (arith, k))
string_from-fuel (suc m) (suc n) limit position (byte ∷ rest) output h k =
    ap
      (λ again.
        if byte == 0x22
        then (if is_valid_utf8 output
            then parsed output (cursor (suc position) rest)
            else failed (suc position) "string is not valid UTF-8")
        else if ltb byte 0x20
        then failed (suc position) "unescaped control character in string"
        else again)
      (again-eq limit (length rest) output (string_piece byte (suc position) rest) _ _
        (string_piece-Shrinks byte (suc position) rest)
        (λ bytes c small.
          string_from-fuel m n limit c.position c.rest (output ++ bytes) (omega (arith, h, small))
            (omega (arith, k, small))))

-- The rest of a string is read: what is behind it is not longer than the input.
string_from-Shrinks :
    (fuel limit position : ℕ) (rest output : List ℕ)
    → Shrinks (length rest) (string_from fuel limit position rest output)
unfolding string_from
string_from-Shrinks fuel limit position [] output = stops
string_from-Shrinks zero limit position (byte ∷ rest) output = stops
string_from-Shrinks (suc fuel) limit position (byte ∷ rest) output =
    Shrinks-if (byte == 0x22) (Shrinks-if (is_valid_utf8 output) (shrinks (omega arith)) stops) (
      Shrinks-if (ltb byte 0x20) stops (
        again-Shrinks limit (length rest) (length (byte ∷ rest)) output
          (string_piece byte (suc position) rest)
          (λ bytes c. string_from fuel limit c.position c.rest (output ++ bytes))
          (string_piece-Shrinks byte (suc position) rest)
          λ bytes c h.
            Shrinks-mono (omega (arith, h))
              (string_from-Shrinks fuel limit c.position c.rest (output ++ bytes))))

pub parse_string-Shrinks :
    (limit position byte : ℕ) (rest : List ℕ)
    → Shrinks (length rest) (parse_string limit (cursor position (byte ∷ rest)))
unfolding parse_string
parse_string-Shrinks limit position byte rest =
    string_from-Shrinks (length rest) limit (suc position) rest []
