-- ===== src/ToolCalls/Tests.antt =====
-- Code points of short texts.
use gem16gb.Prelude.{ℕ, ◌≡◌, refl, none, some, List, [], ◌∷◌, arith}
use gem16gb.Json.Utf8.{is_valid_utf8}
use gem16gb.ToolCalls.{
  width_of, are_continuations, is_bad_pair, skip_width, skip_code_point, utf8_code_point_count,
}
use gem16gb.ToolCalls.Rounds.{is_some}
use gem16gb.ToolCalls.Counting.{utf8_code_point_count-valid}

-- An accented letter, a plain one and the euro sign.
abbrev three_letters : List ℕ
three_letters = 0xc3 ∷ 0xa9 ∷ b'a' ∷ 0xe2 ∷ 0x82 ∷ 0xac ∷ []

three_letters-count : utf8_code_point_count three_letters ≡ some 3
unfolding utf8_code_point_count skip_code_point skip_width width_of are_continuations is_bad_pair
three_letters-count = refl

-- A surrogate, coded in three bytes.
surrogate : utf8_code_point_count (0xed ∷ 0xa0 ∷ 0x80 ∷ []) ≡ none
unfolding utf8_code_point_count skip_code_point skip_width width_of are_continuations is_bad_pair
surrogate = refl

utf8_code_point_count-valid_example :
    is_some (utf8_code_point_count three_letters) ≡ is_valid_utf8 three_letters
utf8_code_point_count-valid_example = utf8_code_point_count-valid three_letters (omega arith)
