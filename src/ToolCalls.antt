-- ===== src/ToolCalls.antt =====
-- src/runtime/tool_call_parser.cpp: how the strict schema check counts the code points of a string.
pub mod Bytes
pub mod Rounds
pub mod Counting
pub mod Arguments
pub mod Stream
pub mod Schema
mod Tests
use Prim.Native.Nat.{bit_and}
use gem16gb.Prelude.{
  ℕ, zero, suc, ◌-◌, Bool, true, false, not, ◌&&◌, ◌||◌, Option, none, some, List, [], ◌∷◌, ltb,
  leb, ◌==◌, if◌then◌else◌, length, drop, get_or,
}

-- The number of bytes that a lead byte announces.
unfoldable pub width_of : ℕ → Option ℕ
width_of lead =
    if leb lead 0x7f
    then some 1
    else if leb 0xc2 lead && leb lead 0xdf
    then some 2
    else if leb 0xe0 lead && leb lead 0xef
    then some 3
    else if leb 0xf0 lead && leb lead 0xf4
    then some 4
    else none

-- The loop over the continuation bytes.
unfoldable pub are_continuations : ℕ → List ℕ → Bool
are_continuations zero text = true
are_continuations (suc n) [] = false
are_continuations (suc n) (byte ∷ text) =
    let rest = are_continuations n text in if bit_and byte 0xc0 == 0x80 then rest else false

-- A lead byte with a second byte that makes it overlong, a surrogate or too large.
unfoldable pub is_bad_pair : ℕ → List ℕ → Bool
is_bad_pair lead text =
    (lead == 0xe0 && ltb (get_or text 0 0) 0xa0)
    || ((lead == 0xed && leb 0xa0 (get_or text 0 0))
        || ((lead == 0xf0 && ltb (get_or text 0 0) 0x90)
            || (lead == 0xf4 && leb 0x90 (get_or text 0 0))))

-- One round of the loop, for a lead byte of some width or none: what stands behind the character.
unfoldable pub skip_width : Option ℕ → ℕ → List ℕ → Option (List ℕ)
skip_width none lead text = none
skip_width (some width) lead text =
    if ltb (suc (length text)) width
    then none
    else if not (are_continuations (width - 1) text)
    then none
    else if is_bad_pair lead text
    then none
    else some (drop (width - 1) text)

unfoldable pub skip_code_point : ℕ → List ℕ → Option (List ℕ)
skip_code_point lead text = skip_width (width_of lead) lead text

-- Utf8CodePointCount, one round for each character.
unfoldable pub count_from : ℕ → ℕ → List ℕ → Option ℕ
count_from fuel count [] = some count
count_from zero count (lead ∷ text) = none
count_from (suc fuel) count (lead ∷ text) = elim (skip_code_point lead text) [
  | none ↦ none
  | some rest ↦ count_from fuel (suc count) rest
]

unfoldable pub utf8_code_point_count : List ℕ → Option ℕ
unfolding count_from
utf8_code_point_count text = count_from (length text) 0 text
