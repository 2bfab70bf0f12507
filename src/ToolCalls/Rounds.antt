-- ===== src/ToolCalls/Rounds.antt =====
-- One character: a round of Utf8CodePointCount of src/runtime/tool_call_parser.cpp against a round of
-- IsValidUtf8 of src/util/json.cpp.
use Prim.Native.Nat.{bit_and, bit_or}
use gem16gb.Prelude.{
  ℕ, zero, suc, ◌+◌, ◌-◌, ◌*◌, ◌^◌, ◌<◌, ◌≡◌, refl, ap, sym, ◌∙◌, inl, inr, Bool, true, false, not,
  ◌&&◌, Option, none, some, List, [], ◌∷◌, ltb, leb, ◌==◌, if◌then◌else◌, length, drop, Bool-cases,
  arith,
}
use gem16gb.Prelude.Bits.{bit_or_disjoint}
use gem16gb.Json.Utf8.{lead_byte, continuations, is_bad_codepoint}
use gem16gb.ToolCalls.{width_of, are_continuations, is_bad_pair, skip_width, skip_code_point}
use gem16gb.ToolCalls.Bytes.{continuation_lem, low_bits_lem, lead_byte-eq}

-- Every element is a byte.
abbrev pub AreBytes : List ℕ → Type 0
AreBytes [] = Unit {0}
AreBytes (b ∷ text) = (b < 256) × AreBytes text

abbrev pub is_some {ℓ} : {A : Type ℓ} → Option A → Bool
is_some none = false
is_some (some a) = true

abbrev is_continuation : ℕ → Bool
is_continuation b = leb 0x80 b && leb b 0xbf

-- The continuation bytes by arithmetic.
sum_bytes : ℕ → ℕ → List ℕ → Option (ℕ × List ℕ)
sum_bytes zero codepoint text = some (codepoint, text)
sum_bytes (suc n) codepoint [] = none
sum_bytes (suc n) codepoint (b ∷ text) =
    let rest = sum_bytes n (codepoint * 64 + (b - 0x80)) text in
    if is_continuation b then rest else none

continuations-sum :
    (n codepoint : ℕ) (text : List ℕ)
    → AreBytes text
    → continuations n codepoint text ≡ sum_bytes n codepoint text
unfolding continuations sum_bytes
continuations-sum zero codepoint text h = refl
continuations-sum (suc n) codepoint [] h = refl
continuations-sum (suc n) codepoint (b ∷ text) h = elim (Bool-cases (is_continuation b)) [
  | inl good ↦
      let test : (bit_and b 0xc0 == 0x80) ≡ true = continuation_lem b (h.0) ∙ good in
      let low : bit_and b 0x3f ≡ b - 0x80 = low_bits_lem b (h.0) ∙ rw good refl in
      let small : b - 0x80 < 64 = ground (arith, good) in
      let joined : bit_or (codepoint * 2 ^ 6) (bit_and b 0x3f) ≡ codepoint * 64 + (b - 0x80) =
        ap (bit_or (codepoint * 2 ^ 6)) low ∙ bit_or_disjoint 6 codepoint (b - 0x80) small in
      rw test (
        rw good (
          ap (λ c. continuations n c text) joined
          ∙ continuations-sum n (codepoint * 64 + (b - 0x80)) text (h.1)))
  | inr bad ↦
      let test : (bit_and b 0xc0 == 0x80) ≡ false = continuation_lem b (h.0) ∙ bad in
      rw test (rw bad refl)
]

are_continuations-sum :
    (n codepoint : ℕ) (text : List ℕ)
    → AreBytes text
    → are_continuations n text ≡ is_some (sum_bytes n codepoint text)
unfolding are_continuations sum_bytes
are_continuations-sum zero codepoint text h = refl
are_continuations-sum (suc n) codepoint [] h = refl
are_continuations-sum (suc n) codepoint (b ∷ text) h = elim (Bool-cases (is_continuation b)) [
  | inl good ↦
      let test : (bit_and b 0xc0 == 0x80) ≡ true = continuation_lem b (h.0) ∙ good in
      rw test (rw good (are_continuations-sum n (codepoint * 64 + (b - 0x80)) text (h.1)))
  | inr bad ↦
      let test : (bit_and b 0xc0 == 0x80) ≡ false = continuation_lem b (h.0) ∙ bad in
      rw test (rw bad refl)
]

-- Both rounds once the lead byte is known.
skip_of : ℕ → ℕ → List ℕ → Option (ℕ × List ℕ) → Option (List ℕ)
skip_of width lead text sum =
    if ltb (suc (length text)) width
    then none
    else if not (is_some sum)
    then none
    else if is_bad_pair lead text
    then none
    else some (drop (width - 1) text)

unfoldable pub valid_of : ℕ → Option (ℕ × List ℕ) → Option (List ℕ)
valid_of minimum none = none
valid_of minimum (some (codepoint, rest)) =
    if is_bad_codepoint codepoint minimum then none else some rest

two_lem :
    (lead : ℕ) (text : List ℕ)
    → leb 0xc2 lead && leb lead 0xdf ≡ true
    → AreBytes text
    → skip_of 2 lead text (sum_bytes 1 (lead - 0xc0) text)
      ≡ valid_of 0x80 (sum_bytes 1 (lead - 0xc0) text)
unfolding skip_of valid_of sum_bytes is_bad_pair is_bad_codepoint
two_lem lead [] r h = refl
two_lem lead (a ∷ text) r h = ground arith

three_lem :
    (lead : ℕ) (text : List ℕ)
    → leb 0xe0 lead && leb lead 0xef ≡ true
    → AreBytes text
    → skip_of 3 lead text (sum_bytes 2 (lead - 0xe0) text)
      ≡ valid_of 0x800 (sum_bytes 2 (lead - 0xe0) text)
unfolding skip_of valid_of sum_bytes is_bad_pair is_bad_codepoint
three_lem lead [] r h = refl
three_lem lead (a ∷ []) r h = ground arith
three_lem lead (a ∷ (b ∷ text)) r h = ground arith

four_lem :
    (lead : ℕ) (text : List ℕ)
    → leb 0xf0 lead && leb lead 0xf4 ≡ true
    → AreBytes text
    → skip_of 4 lead text (sum_bytes 3 (lead - 0xf0) text)
      ≡ valid_of 0x10000 (sum_bytes 3 (lead - 0xf0) text)
unfolding skip_of valid_of sum_bytes is_bad_pair is_bad_codepoint
four_lem lead [] r h = refl
four_lem lead (a ∷ []) r h = ground arith
four_lem lead (a ∷ (b ∷ [])) r h = ground arith
four_lem lead (a ∷ (b ∷ (c ∷ text))) r h = ground arith

-- One round of IsValidUtf8.
unfoldable pub valid_step : ℕ → List ℕ → Option (List ℕ)
valid_step first text = if leb first 0x7f then some text else elim (lead_byte first) [
  | none ↦ none
  | some lead ↦ valid_of lead.minimum (continuations lead.continuation_count lead.codepoint text)
]

-- Lead bytes that no character begins with.
short_lem :
    (lead : ℕ) (text : List ℕ)
    → leb 0xc0 lead && leb lead 0xc1 ≡ true
    → AreBytes text
    → valid_of 0x80 (sum_bytes 1 (lead - 0xc0) text) ≡ none
unfolding valid_of sum_bytes is_bad_codepoint
short_lem lead [] r h = refl
short_lem lead (a ∷ text) r h = ground arith

large_lem :
    (lead : ℕ) (text : List ℕ)
    → leb 0xf5 lead && leb lead 0xf7 ≡ true
    → AreBytes text
    → valid_of 0x10000 (sum_bytes 3 (lead - 0xf0) text) ≡ none
unfolding valid_of sum_bytes is_bad_codepoint
large_lem lead [] r h = refl
large_lem lead (a ∷ []) r h = ground arith
large_lem lead (a ∷ (b ∷ [])) r h = ground arith
large_lem lead (a ∷ (b ∷ (c ∷ text))) r h = ground arith

module _ (lead : ℕ) (text : List ℕ) (bytes : AreBytes text) where
  skip_lem :
      (width n codepoint : ℕ)
      → width_of lead ≡ some width
      → width - 1 ≡ n
      → skip_code_point lead text ≡ skip_of width lead text (sum_bytes n codepoint text)
  unfolding skip_code_point skip_width skip_of
  skip_lem width n codepoint e k =
      let found : are_continuations (width - 1) text ≡ is_some (sum_bytes n codepoint text) =
        ap (λ m. are_continuations m text) k ∙ are_continuations-sum n codepoint text bytes in
      ap (λ o. skip_width o lead text) e ∙ rw found refl

  valid_lem :
      (n codepoint minimum : ℕ)
      → leb lead 0x7f ≡ false
      → lead_byte lead
        ≡ some (record { continuation_count = n; codepoint = codepoint; minimum = minimum })
      → valid_step lead text ≡ valid_of minimum (sum_bytes n codepoint text)
  unfolding valid_step
  valid_lem n codepoint minimum wide e =
      rw wide (rw e (ap (valid_of minimum) (continuations-sum n codepoint text bytes)))

  width-two : leb 0xc2 lead && leb lead 0xdf ≡ true → width_of lead ≡ some 2
  unfolding width_of
  width-two h = ground arith

  width-three : leb 0xe0 lead && leb lead 0xef ≡ true → width_of lead ≡ some 3
  unfolding width_of
  width-three h = ground arith

  width-four : leb 0xf0 lead && leb lead 0xf4 ≡ true → width_of lead ≡ some 4
  unfolding width_of
  width-four h = ground arith

  announces :
      (small : lead < 256)
      → (leb 0xc0 lead && leb lead 0xdf ≡ true
          → lead_byte lead
            ≡ some (record { continuation_count = 1; codepoint = lead - 0xc0; minimum = 0x80 }))
        × (leb 0xe0 lead && leb lead 0xef ≡ true
            → lead_byte lead
              ≡ some (record { continuation_count = 2; codepoint = lead - 0xe0; minimum = 0x800 }))
        × (leb 0xf0 lead && leb lead 0xf7 ≡ true
            → lead_byte lead
              ≡ some
                  (record { continuation_count = 3; codepoint = lead - 0xf0; minimum = 0x10000 }))
  announces small = (
    λ h. lead_byte-eq lead small ∙ ground arith,
    λ h. lead_byte-eq lead small ∙ ground arith,
    λ h. lead_byte-eq lead small ∙ ground arith,
  )

  ascii_lem : leb lead 0x7f ≡ true → skip_code_point lead text ≡ some text
  unfolding skip_of sum_bytes is_bad_pair width_of
  ascii_lem h =
      let one : width_of lead ≡ some 1 = ground arith in skip_lem 1 0 0 one refl ∙ ground arith

  wide_case :
      (width n codepoint minimum : ℕ)
      → leb lead 0x7f ≡ false
      → width_of lead ≡ some width
      → width - 1 ≡ n
      → lead_byte lead
        ≡ some (record { continuation_count = n; codepoint = codepoint; minimum = minimum })
      → skip_of width lead text (sum_bytes n codepoint text)
        ≡ valid_of minimum (sum_bytes n codepoint text)
      → skip_code_point lead text ≡ valid_step lead text
  wide_case width n codepoint minimum wide e k l same =
      skip_lem width n codepoint e k ∙ same ∙ sym (valid_lem n codepoint minimum wide l)

  no_width_of :
      leb lead 0x7f ≡ false
      → leb 0xc2 lead && leb lead 0xdf ≡ false
      → leb 0xe0 lead && leb lead 0xef ≡ false
      → leb 0xf0 lead && leb lead 0xf4 ≡ false
      → width_of lead ≡ none
  unfolding width_of
  no_width_of h2 h3 h4 h5 = ground arith

  no_width :
      leb lead 0x7f ≡ false
      → leb 0xc2 lead && leb lead 0xdf ≡ false
      → leb 0xe0 lead && leb lead 0xef ≡ false
      → leb 0xf0 lead && leb lead 0xf4 ≡ false
      → skip_code_point lead text ≡ none
  unfolding skip_code_point skip_width
  no_width h2 h3 h4 h5 = ap (λ o. skip_width o lead text) (no_width_of h2 h3 h4 h5)

  no_lead :
      lead < 256
      → leb 0xc0 lead && leb lead 0xdf ≡ false
      → leb 0xe0 lead && leb lead 0xef ≡ false
      → leb 0xf0 lead && leb lead 0xf7 ≡ false
      → lead_byte lead ≡ none
  no_lead small h3 h4 h5 = lead_byte-eq lead small ∙ ground arith

  bad_case :
      lead < 256
      → leb lead 0x7f ≡ false
      → leb 0xc2 lead && leb lead 0xdf ≡ false
      → leb 0xe0 lead && leb lead 0xef ≡ false
      → leb 0xf0 lead && leb lead 0xf4 ≡ false
      → valid_step lead text ≡ none
  unfolding valid_step
  bad_case small h2 h3 h4 h5 = elim (Bool-cases (leb 0xc0 lead && leb lead 0xc1)) [
    | inl short ↦
        valid_lem 1 (lead - 0xc0) 0x80 h2 ((announces small).0 (ground arith))
        ∙ short_lem lead text short bytes
    | inr long ↦ elim (Bool-cases (leb 0xf5 lead && leb lead 0xf7)) [
      | inl large ↦
          valid_lem 3 (lead - 0xf0) 0x10000 h2 ((announces small).2 (ground arith))
          ∙ large_lem lead text large bytes
      | inr other ↦
          let nothing : lead_byte lead ≡ none = no_lead small (ground arith) h4 (ground arith) in
          rw h2 (rw nothing refl)
    ]
  ]

  -- The two loops take the same step.
  pub skip-valid : lead < 256 → skip_code_point lead text ≡ valid_step lead text
  unfolding valid_step
  skip-valid small = elim (Bool-cases (leb lead 0x7f)) [
    | inl ascii ↦ ascii_lem ascii ∙ rw ascii refl
    | inr h2 ↦ elim (Bool-cases (leb 0xc2 lead && leb lead 0xdf)) [
      | inl two ↦
          wide_case 2 1 (lead - 0xc0) 0x80 h2 (width-two two) refl
            ((announces small).0 (ground arith)) (two_lem lead text two bytes)
      | inr h3 ↦ elim (Bool-cases (leb 0xe0 lead && leb lead 0xef)) [
        | inl three ↦
            wide_case 3 2 (lead - 0xe0) 0x800 h2 (width-three three) refl
              ((announces small).1 three) (three_lem lead text three bytes)
        | inr h4 ↦ elim (Bool-cases (leb 0xf0 lead && leb lead 0xf4)) [
          | inl four ↦
              wide_case 4 3 (lead - 0xf0) 0x10000 h2 (width-four four) refl
                ((announces small).2 (ground arith)) (four_lem lead text four bytes)
          | inr h5 ↦ no_width h2 h3 h4 h5 ∙ sym (bad_case small h2 h3 h4 h5)
        ]
      ]
    ]
  ]
