-- ===== src/Json/Strings/RoundTrip.antt =====
-- Parsing what Escape and Quote of src/util/json.cpp print.
use gem16gb.Prelude.{
  ℕ, zero, suc, ◌+◌, ◌*◌, ◌/◌, ◌%◌, ◌≤◌, ◌<◌, ◌≡◌, ◌≢◌, ◌⊎◌, inl, inr, refl, sym, ap, subst, ◌∙◌,
  true, false, some, List, [], ◌∷◌, ◌++◌, ◌&&◌, ltb, leb, ◌==◌, length, arith, append_assoc,
  append-nil, length-append, Bool-cases,
}
use gem16gb.Json.Escape.{hex_digit, escape_byte, escape, quote}
use gem16gb.Json.Utf8.{encode_utf8, is_valid_utf8}
use gem16gb.Json.Strings.{
  Cursor, parsed, cursor, hex_value, hex_digits, parse_hex4, parse_unicode_escape, unescape,
  string_piece, string_from, parse_string,
}

pub hex_value-hex_digit : (n : ℕ) → n < 16 → hex_value (hex_digit n) ≡ some n
unfolding hex_value hex_digit
hex_value-hex_digit n h = ground arith

zero_digit : hex_value b'0' ≡ some 0
unfolding hex_value
zero_digit = refl

two_digits : (b : ℕ) → (0 + b / 16) * 16 + b % 16 ≡ b
two_digits b = omega arith

four_more : (n : ℕ) → ltb (suc (suc (suc (suc n)))) 4 ≡ false
four_more n = ground arith

plus_four : (p : ℕ) → suc (suc (suc (suc p))) ≡ p + 4
plus_four p = omega arith

hex_digits_step :
    (n v p : ℕ) (character : ℕ) {d : ℕ} (rest : List ℕ)
    → hex_value character ≡ some d
    → hex_digits (suc n) v p (character ∷ rest) ≡ hex_digits n (v * 16 + d) (suc p) rest
unfolding hex_digits
hex_digits_step n v p character rest h = rw (h, hex_digits)

hex_digits_lem :
    (b p : ℕ) (rest : List ℕ)
    → b < 32
    → hex_digits 4 0 p (b'0' ∷ b'0' ∷ hex_digit (b / 16) ∷ hex_digit (b % 16) ∷ rest)
      ≡ parsed b (cursor (p + 4) rest)
unfolding hex_digits
hex_digits_lem b p rest h =
    hex_digits_step 3 0 p b'0' (b'0' ∷ hex_digit (b / 16) ∷ hex_digit (b % 16) ∷ rest) zero_digit
    ∙ hex_digits_step 2 0 (suc p) b'0' (hex_digit (b / 16) ∷ hex_digit (b % 16) ∷ rest) zero_digit
    ∙ hex_digits_step 1 0 (suc (suc p)) (hex_digit (b / 16)) (hex_digit (b % 16) ∷ rest)
        (hex_value-hex_digit (b / 16) (omega arith))
    ∙ hex_digits_step 0 (0 + b / 16) (suc (suc (suc p))) (hex_digit (b % 16)) rest
        (hex_value-hex_digit (b % 16) (omega arith))
    ∙ rw (two_digits b, plus_four p)

parse_hex4_lem :
    (b p : ℕ) (rest : List ℕ)
    → b < 32
    → parse_hex4 (cursor p (b'0' ∷ b'0' ∷ hex_digit (b / 16) ∷ hex_digit (b % 16) ∷ rest))
      ≡ parsed b (cursor (p + 4) rest)
unfolding parse_hex4
parse_hex4_lem b p rest h = simp (hex_digits_lem b p rest h, four_more (length rest))

no_high : (b : ℕ) → b < 0x20 → leb 0xd800 b && leb b 0xdbff ≡ false
no_high b h = ground arith

no_low : (b : ℕ) → b < 0x20 → leb 0xdc00 b && leb b 0xdfff ≡ false
no_low b h = ground arith

encode_control : (b : ℕ) → b < 0x20 → encode_utf8 b ≡ b ∷ []
unfolding encode_utf8
encode_control b h = ground arith

plus_five : (p : ℕ) → suc p + 4 ≡ p + 5
plus_five p = omega arith

plus_zero : (p : ℕ) → p + 0 ≡ p
plus_zero p = omega arith

-- The rounds of the scan over what a byte is printed as: they give the byte back.
Scanned : ℕ → ℕ → List ℕ → Type 0
Scanned b p rest =
    (c : ℕ) × (tail : List ℕ) × (escape_byte b ≡ c ∷ tail)
    × ((c == 0x22) ≡ false)
    × (ltb c 0x20 ≡ false)
    × (string_piece c p (tail ++ rest) ≡ parsed (b ∷ []) (cursor (p + length tail) rest))

moved :
    {bytes rest : List ℕ} {q r : ℕ}
    → q ≡ r
    → parsed bytes (cursor q rest) ≡ parsed bytes (cursor r rest)
moved {bytes} {rest} e = ap (λ q. parsed bytes (cursor q rest)) e

scan_short :
    (b e p : ℕ) (rest : List ℕ)
    → escape_byte b ≡ 0x5c ∷ e ∷ []
    → unescape e (cursor (suc p) rest) ≡ parsed (b ∷ []) (cursor (suc p) rest)
    → Scanned b p rest
unfolding string_piece Scanned
scan_short b e p rest printed h = (0x5c, e ∷ [], printed, refl, refl, h ∙ moved (omega arith))

unicode_escape_lem :
    (b p : ℕ) (rest : List ℕ)
    → b < 0x20
    → parse_unicode_escape (cursor p (b'0' ∷ b'0' ∷ hex_digit (b / 16) ∷ hex_digit (b % 16) ∷ rest))
      ≡ parsed b (cursor (p + 4) rest)
unfolding parse_unicode_escape
unicode_escape_lem b p rest h = simp (parse_hex4_lem b p rest h, no_high b h, no_low b h)

scan_control :
    (b p : ℕ) (rest : List ℕ)
    → b < 0x20
    → escape_byte b ≡ 0x5c ∷ b'u' ∷ b'0' ∷ b'0' ∷ hex_digit (b / 16) ∷ hex_digit (b % 16) ∷ []
    → Scanned b p rest
unfolding string_piece Scanned unescape
scan_control b p rest h printed = (
  0x5c,
  b'u' ∷ b'0' ∷ b'0' ∷ hex_digit (b / 16) ∷ hex_digit (b % 16) ∷ [],
  printed,
  refl,
  refl,
  simp (unicode_escape_lem b (suc p) rest h, encode_control b h, moved (plus_five p)),
)

eq_or_ne : (b k : ℕ) → (b ≡ k) ⊎ (b ≢ k)
eq_or_ne b k = elim (Bool-cases (b == k)) [
  | inl h ↦ inl (ground arith)
  | inr h ↦ inr (ground arith)
]

le_or_lt : (k b : ℕ) → (k ≤ b) ⊎ (b < k)
le_or_lt k b = elim (Bool-cases (ltb b k)) [
  | inl h ↦ inr (ground arith)
  | inr h ↦ inl (ground arith)
]

ne_eqb : (b k : ℕ) → b ≢ k → (b == k) ≡ false
ne_eqb b k h = ground arith

scan_plain :
    (b p : ℕ) (rest : List ℕ)
    → b ≢ 0x22
    → b ≢ 0x5c
    → 0x20 ≤ b
    → escape_byte b ≡ b ∷ []
    → Scanned b p rest
unfolding Scanned string_piece
scan_plain b p rest n1 n2 h printed =
    (b, [], printed, ground arith, ground arith, simp (ne_eqb b 0x5c n2, plus_zero p))

-- A byte that has an escape of its own.
scan_named :
    (b e p : ℕ) (rest : List ℕ) {k : ℕ}
    → b ≡ k
    → escape_byte k ≡ 0x5c ∷ e ∷ []
    → unescape e (cursor (suc p) rest) ≡ parsed (k ∷ []) (cursor (suc p) rest)
    → Scanned b p rest
scan_named b e p rest same printed h =
    subst (λ k. Scanned k p rest) (sym same) (scan_short _ e p rest printed h)

scan_rest :
    (b p : ℕ) (rest : List ℕ)
    → b ≢ 0x22
    → b ≢ 0x5c
    → b ≢ 0x08
    → b ≢ 0x0c
    → b ≢ 0x0a
    → b ≢ 0x0d
    → b ≢ 0x09
    → Scanned b p rest
unfolding escape_byte
scan_rest b p rest n1 n2 n3 n4 n5 n6 n7 = elim (le_or_lt 0x20 b) [
  | inl h ↦ scan_plain b p rest n1 n2 h (ground arith)
  | inr h ↦ scan_control b p rest h (ground arith)
]

scan_lem : (b p : ℕ) (rest : List ℕ) → Scanned b p rest
unfolding escape_byte unescape
scan_lem b p rest = elim (eq_or_ne b 0x22) [
  | inl e ↦ scan_named b 0x22 p rest e refl refl
  | inr n1 ↦ elim (eq_or_ne b 0x5c) [
    | inl e ↦ scan_named b 0x5c p rest e refl refl
    | inr n2 ↦ elim (eq_or_ne b 0x08) [
      | inl e ↦ scan_named b b'b' p rest e refl refl
      | inr n3 ↦ elim (eq_or_ne b 0x0c) [
        | inl e ↦ scan_named b b'f' p rest e refl refl
        | inr n4 ↦ elim (eq_or_ne b 0x0a) [
          | inl e ↦ scan_named b b'n' p rest e refl refl
          | inr n5 ↦ elim (eq_or_ne b 0x0d) [
            | inl e ↦ scan_named b b'r' p rest e refl refl
            | inr n6 ↦ elim (eq_or_ne b 0x09) [
              | inl e ↦ scan_named b b't' p rest e refl refl
              | inr n7 ↦ scan_rest b p rest n1 n2 n3 n4 n5 n6 n7
            ]
          ]
        ]
      ]
    ]
  ]
]

-- A round of the loop of ParseString that appends.
string_from-step :
    (fuel limit p c : ℕ) (rest output : List ℕ) {bytes : List ℕ} {at : Cursor}
    → (c == 0x22) ≡ false
    → ltb c 0x20 ≡ false
    → string_piece c (suc p) rest ≡ parsed bytes at
    → ltb limit (length (output ++ bytes)) ≡ false
    → string_from (suc fuel) limit p (c ∷ rest) output
      ≡ string_from fuel limit at.position at.rest (output ++ bytes)
unfolding string_from
string_from-step fuel limit p c rest output no_quote plain piece fits =
    rw (no_quote, plain, piece, fits, string_from)

string_from-end :
    (fuel limit p : ℕ) (rest output : List ℕ)
    → is_valid_utf8 output ≡ true
    → string_from (suc fuel) limit p (0x22 ∷ rest) output ≡ parsed output (cursor (suc p) rest)
unfolding string_from
string_from-end fuel limit p rest output h = rw (h, string_from)

push-append : (output xs : List ℕ) (x : ℕ) → (output ++ x ∷ []) ++ xs ≡ output ++ x ∷ xs
push-append output xs x = append_assoc output (x ∷ []) xs

length-printed :
    (x c : ℕ) (tail more : List ℕ)
    → escape_byte x ≡ c ∷ tail
    → length (escape_byte x ++ more) ≡ suc (length tail + length more)
length-printed x c tail more printed =
    ap (λ t. length (t ++ more)) printed ∙ length-append (c ∷ tail) more ∙ omega arith

fits-push :
    (limit : ℕ) (output xs : List ℕ) (x : ℕ)
    → length (output ++ x ∷ xs) ≤ limit
    → ltb limit (length (output ++ x ∷ [])) ≡ false
fits-push limit output xs x h =
    let whole : length (output ++ x ∷ xs) ≡ length output + suc (length xs) =
      length-append output (x ∷ xs) in
    let pushed : length (output ++ x ∷ []) ≡ length output + 1 = length-append output (x ∷ []) in
    ground arith

string_from-escape :
    (fuel limit p : ℕ) (xs rest output : List ℕ)
    → length (escape xs) < fuel
    → length (output ++ xs) ≤ limit
    → is_valid_utf8 (output ++ xs) ≡ true
    → string_from fuel limit p (escape xs ++ 0x22 ∷ rest) output
      ≡ parsed (output ++ xs) (cursor (suc (p + length (escape xs))) rest)
unfolding escape Scanned
string_from-escape zero limit p xs rest output h fits valid = absurd (omega (arith, h))
string_from-escape (suc fuel) limit p [] rest output h fits valid =
    let same = append-nil output in
    string_from-end fuel limit p rest output (subst (λ o. is_valid_utf8 o ≡ true) same valid)
    ∙ simp (same, plus_zero p)
string_from-escape (suc fuel) limit p (x ∷ xs) rest output h fits valid =
    let (c, tail, printed, no_quote, plain, piece) =
      scan_lem x (suc p) (escape xs ++ 0x22 ∷ rest) in
    let long = length-printed x c tail (escape xs) printed in
    let same = push-append output xs x in
    let text : (escape_byte x ++ escape xs) ++ 0x22 ∷ rest
        ≡ c ∷ (tail ++ (escape xs ++ 0x22 ∷ rest)) =
      simp (printed, append_assoc) in
    ap (λ t. string_from (suc fuel) limit p t output) text
    ∙ string_from-step fuel limit p c (tail ++ (escape xs ++ 0x22 ∷ rest)) output no_quote plain
        piece (fits-push limit output xs x fits)
    ∙ string_from-escape fuel limit (suc p + length tail) xs rest (output ++ x ∷ [])
        (omega (arith, h, long)) (subst (λ o. length o ≤ limit) (sym same) fits)
        (subst (λ o. is_valid_utf8 o ≡ true) (sym same) valid)
    ∙ ap (λ o. parsed o (cursor (suc (suc p + length tail + length (escape xs))) rest)) same
    ∙ moved (omega (arith, long))

-- The scan of a string that Quote printed, wherever it stands in a document, gives the string
-- back and stops behind the closing quote: for every text that is valid UTF-8 and within the
-- parser's limit on string bytes.
pub parse_string-quote :
    (limit p : ℕ) (text rest : List ℕ)
    → is_valid_utf8 text ≡ true
    → length text ≤ limit
    → parse_string limit (cursor p (quote text ++ rest))
      ≡ parsed text (cursor (p + length (quote text)) rest)
unfolding parse_string quote
parse_string-quote limit p text rest valid fits =
    let whole : (escape text ++ 0x22 ∷ []) ++ rest ≡ escape text ++ 0x22 ∷ rest =
      append_assoc (escape text) (0x22 ∷ []) rest in
    let size = length-append (escape text) (0x22 ∷ rest) in
    let size' = length-append (escape text) (0x22 ∷ []) in
    ap (λ t. string_from (length t) limit (suc p) t []) whole
    ∙ string_from-escape (length (escape text ++ 0x22 ∷ rest)) limit (suc p) text rest []
        (omega (arith, size)) fits valid
    ∙ moved (omega (arith, size'))
