-- ===== src/Json/Utf8/Fuel.antt =====
-- The UTF-8 checker of src/util/json.cpp takes at least one byte in each round.
use gem16gb.Prelude.{
  ℕ, zero, suc, ◌*◌, ◌^◌, ◌≤◌, ◌≡◌, refl, Bool, true, false, Option, none, some, List, [], ◌∷◌, leb,
  ◌==◌, if◌then◌else◌, length, arith,
}
use Prim.Native.Nat.{bit_and, bit_or}
use gem16gb.Json.Utf8.{Lead, lead_byte, continuations, is_bad_codepoint, valid_from}

-- No result, or a text that is left with at most `n` bytes.
data Shrinks (n : ℕ) : Option (ℕ × List ℕ) → Type 0 where
  shrinks : {codepoint : ℕ} {rest : List ℕ} → length rest ≤ n → Shrinks n (some (codepoint, rest))
  stops : Shrinks n none

Shrinks-mono : {n m : ℕ} {r : Option (ℕ × List ℕ)} → n ≤ m → Shrinks n r → Shrinks m r
Shrinks-mono le (shrinks h) = shrinks (omega (arith, le, h))
Shrinks-mono le stops = stops

Shrinks-if :
    {n : ℕ} (b : Bool) {x y : Option (ℕ × List ℕ)}
    → Shrinks n x
    → Shrinks n y
    → Shrinks n (if b then x else y)
Shrinks-if true h k = h
Shrinks-if false h k = k

continuations-Shrinks :
    (n codepoint : ℕ) (text : List ℕ) → Shrinks (length text) (continuations n codepoint text)
unfolding continuations
continuations-Shrinks zero codepoint text = shrinks (omega arith)
continuations-Shrinks (suc n) codepoint [] = stops
continuations-Shrinks (suc n) codepoint (byte ∷ text) =
    Shrinks-if (bit_and byte 0xc0 == 0x80)
      (Shrinks-mono (omega arith)
        (continuations-Shrinks n (bit_or (codepoint * 2 ^ 6) (bit_and byte 0x3f)) text))
      stops

character-eq :
    (n minimum : ℕ) (r : Option (ℕ × List ℕ)) (f g : List ℕ → Bool)
    → Shrinks n r
    → ((rest : List ℕ) → length rest ≤ n → f rest ≡ g rest)
    → (elim r [
      | none ↦ false
      | some (codepoint, rest) ↦ if is_bad_codepoint codepoint minimum then false else f rest
    ])
      ≡ (elim r [
        | none ↦ false
        | some (codepoint, rest) ↦ if is_bad_codepoint codepoint minimum then false else g rest
      ])
character-eq n minimum none f g stops k = refl
character-eq n minimum (some (codepoint, rest)) f g (shrinks h) k = rw (k rest h)

wide-eq :
    (lead : Option Lead) (text : List ℕ) (f g : List ℕ → Bool)
    → ((rest : List ℕ) → length rest ≤ length text → f rest ≡ g rest)
    → (elim lead [
      | none ↦ false
      | some lead ↦ elim (continuations lead.continuation_count lead.codepoint text) [
        | none ↦ false
        | some (codepoint, rest) ↦ if is_bad_codepoint codepoint lead.minimum then false else f rest
      ]
    ])
      ≡ (elim lead [
        | none ↦ false
        | some lead ↦ elim (continuations lead.continuation_count lead.codepoint text) [
          | none ↦ false
          | some (codepoint, rest) ↦
              if is_bad_codepoint codepoint lead.minimum then false else g rest
        ]
      ])
wide-eq none text f g k = refl
wide-eq (some lead) text f g k =
    character-eq (length text) lead.minimum _ f g
      (continuations-Shrinks lead.continuation_count lead.codepoint text) k

if-eq :
    (b : Bool) {x x' y y' : Bool} → x ≡ x' → y ≡ y' → (if b then x else y) ≡ (if b then x' else y')
if-eq true e e' = e
if-eq false e e' = e'

-- Fuel for every byte is enough: any two amounts that cover the text give the same verdict of the
-- UTF-8 checker, so that its loop ends by itself as the one of the source does.
pub valid_from-fuel :
    (m n : ℕ) (text : List ℕ)
    → length text ≤ m
    → length text ≤ n
    → valid_from m text ≡ valid_from n text
unfolding valid_from
valid_from-fuel zero zero [] h k = refl
valid_from-fuel zero (suc n) [] h k = refl
valid_from-fuel (suc m) zero [] h k = refl
valid_from-fuel (suc m) (suc n) [] h k = refl
valid_from-fuel zero n (first ∷ text) h k = absurd (omega (arith, h))
valid_from-fuel (suc m) zero (first ∷ text) h k = absurd (omega (arith, k))
valid_from-fuel (suc m) (suc n) (first ∷ text) h k =
    if-eq (leb first 0x7f) (valid_from-fuel m n text (omega (arith, h)) (omega (arith, k))) (
      wide-eq (lead_byte first) text (valid_from m) (valid_from n) (λ rest small.
        valid_from-fuel m n rest (omega (arith, h, small)) (omega (arith, k, small))))
