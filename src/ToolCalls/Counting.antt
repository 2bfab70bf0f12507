-- ===== src/ToolCalls/Counting.antt =====
-- Utf8CodePointCount of src/runtime/tool_call_parser.cpp against IsValidUtf8 of src/util/json.cpp.
use gem16gb.Prelude.{
  ℕ, zero, suc, ◌-◌, ◌≤◌, ◌≡◌, refl, ap, sym, ◌∙◌, inl, inr, Bool, false, Option, none, some, List,
  [], ◌∷◌, leb, length, drop, Bool-cases, Option-cases, subst, length-drop, arith,
}
use gem16gb.Json.Utf8.{lead_byte, continuations, is_bad_codepoint, valid_from, is_valid_utf8}
use gem16gb.ToolCalls.{width_of, skip_width, skip_code_point, count_from, utf8_code_point_count}
use gem16gb.ToolCalls.Rounds.{AreBytes, is_some, valid_of, valid_step, skip-valid}

valid_next : ℕ → Option (List ℕ) → Bool
valid_next fuel none = false
valid_next fuel (some rest) = valid_from fuel rest

valid_from-step :
    (fuel first : ℕ) (text : List ℕ)
    → valid_from (suc fuel) (first ∷ text) ≡ valid_next fuel (valid_step first text)
unfolding valid_from valid_step valid_of valid_next
valid_from-step fuel first text = elim (Bool-cases (leb first 0x7f)) [
  | inl ascii ↦ rw ascii refl
  | inr wide ↦ elim (Option-cases (lead_byte first)) [
    | inl nothing ↦ rw wide (rw nothing refl)
    | inr (lead, found) ↦
        elim (Option-cases (continuations lead.continuation_count lead.codepoint text)) [
          | inl cut ↦ rw wide (rw found (rw cut refl))
          | inr ((codepoint, rest), whole) ↦
              elim (Bool-cases (is_bad_codepoint codepoint lead.minimum)) [
                | inl bad ↦ rw wide (rw found (rw whole (rw bad refl)))
                | inr good ↦ rw wide (rw found (rw whole (rw good refl)))
              ]
        ]
  ]
]

skip_rest :
    (width : Option ℕ) (lead : ℕ) (text rest : List ℕ)
    → skip_width width lead text ≡ some rest
    → (n : ℕ) × (rest ≡ drop n text)
unfolding skip_width
skip_rest none lead text rest e = cc
skip_rest (some width) lead text rest e = (width - 1, ground arith)

AreBytes-drop : (n : ℕ) (text : List ℕ) → AreBytes text → AreBytes (drop n text)
AreBytes-drop zero text h = h
AreBytes-drop (suc n) [] h = tt
AreBytes-drop (suc n) (b ∷ text) h = AreBytes-drop n text (h.1)

count_next : ℕ → ℕ → Option (List ℕ) → Option ℕ
count_next fuel count none = none
count_next fuel count (some rest) = count_from fuel (suc count) rest

count_from-step :
    (fuel count lead : ℕ) (text : List ℕ)
    → count_from (suc fuel) count (lead ∷ text) ≡ count_next fuel count (skip_code_point lead text)
unfolding count_from count_next
count_from-step fuel count lead text = elim (Option-cases (skip_code_point lead text)) [
  | inl e ↦ rw (e, count_from) refl
  | inr (rest, e) ↦ rw (e, count_from) refl
]

next-same :
    (fuel count : ℕ) (o : Option (List ℕ))
    → ((rest : List ℕ)
        → o ≡ some rest
        → is_some (count_from fuel (suc count) rest) ≡ valid_from fuel rest)
    → is_some (count_next fuel count o) ≡ valid_next fuel o
unfolding count_next valid_next
next-same fuel count none k = refl
next-same fuel count (some rest) k = k rest refl

skip_code_point-width :
    (lead : ℕ) (text : List ℕ) → skip_code_point lead text ≡ skip_width (width_of lead) lead text
unfolding skip_code_point
skip_code_point-width lead text = refl

shorter :
    (fuel : ℕ) (text rest : List ℕ) (n : ℕ)
    → length text ≤ fuel
    → rest ≡ drop n text
    → length rest ≤ fuel
shorter fuel text rest n h e = omega (arith, h, ap length e, length-drop n text)

count_from-valid :
    (fuel count : ℕ) (text : List ℕ)
    → length text ≤ fuel
    → AreBytes text
    → is_some (count_from fuel count text) ≡ valid_from fuel text
count_from-valid zero count [] h bytes = unfold count_from in unfold valid_from in refl
count_from-valid (suc fuel) count [] h bytes = unfold count_from in unfold valid_from in refl
count_from-valid zero count (lead ∷ text) h bytes = absurd (omega (arith, h))
count_from-valid (suc fuel) count (lead ∷ text) h bytes =
    ap is_some (count_from-step fuel count lead text)
    ∙ next-same fuel count (skip_code_point lead text) (λ rest e.
      let found =
        skip_rest (width_of lead) lead text rest (sym (skip_code_point-width lead text) ∙ e) in
      count_from-valid fuel (suc count) rest
        (shorter fuel text rest (found.0) (omega (arith, h)) (found.1))
        (subst AreBytes (sym (found.1)) (AreBytes-drop (found.0) text (bytes.1))))
    ∙ ap (valid_next fuel) (skip-valid lead text (bytes.1) (bytes.0))
    ∙ sym (valid_from-step fuel lead text)

-- On any bytes, Utf8CodePointCount gives a count exactly when IsValidUtf8 of the JSON parser accepts
-- them: the two checks of lead bytes, continuation bytes, overlong forms, surrogates and range agree.
pub utf8_code_point_count-valid :
    (text : List ℕ) → AreBytes text → is_some (utf8_code_point_count text) ≡ is_valid_utf8 text
utf8_code_point_count-valid text bytes =
    unfold utf8_code_point_count in
    unfold is_valid_utf8 in count_from-valid (length text) 0 text (omega arith) bytes
