-- ===== src/Json/Escape.antt =====
-- Escape and Quote of src/util/json.cpp.
use gem16gb.Prelude.{
  ℕ, ◌+◌, ◌-◌, ◌/◌, ◌%◌, ◌≡◌, refl, List, [], ◌∷◌, ◌++◌, ltb, ◌==◌, if◌then◌else◌, append_assoc,
}

-- digits[n] of "0123456789abcdef".
unfoldable pub hex_digit : ℕ → ℕ
hex_digit n = if ltb n 10 then b'0' + n else b'a' + (n - 10)

unfoldable pub escape_byte : ℕ → List ℕ
escape_byte byte =
    if byte == 0x22
    then 0x5c ∷ 0x22 ∷ []
    else if byte == 0x5c
    then 0x5c ∷ 0x5c ∷ []
    else if byte == 0x08
    then 0x5c ∷ b'b' ∷ []
    else if byte == 0x0c
    then 0x5c ∷ b'f' ∷ []
    else if byte == 0x0a
    then 0x5c ∷ b'n' ∷ []
    else if byte == 0x0d
    then 0x5c ∷ b'r' ∷ []
    else if byte == 0x09
    then 0x5c ∷ b't' ∷ []
    else if ltb byte 0x20
    then 0x5c ∷ b'u' ∷ b'0' ∷ b'0' ∷ hex_digit (byte / 16) ∷ hex_digit (byte % 16) ∷ []
    else byte ∷ []

unfoldable pub escape : List ℕ → List ℕ
escape [] = []
escape (byte ∷ input) = escape_byte byte ++ escape input

unfoldable pub quote : List ℕ → List ℕ
unfolding escape
quote input = 0x22 ∷ (escape input ++ 0x22 ∷ [])

pub escape-append : (xs ys : List ℕ) → escape (xs ++ ys) ≡ escape xs ++ escape ys
unfolding escape
escape-append [] ys = refl
escape-append (x ∷ xs) ys = simp (escape-append xs ys, append_assoc)
