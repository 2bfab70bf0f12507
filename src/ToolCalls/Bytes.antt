-- ===== src/ToolCalls/Bytes.antt =====
-- The bits of one byte that src/util/json.cpp and src/runtime/tool_call_parser.cpp look at, by its value.
use Prim.Native.Nat.{bit_and}
use native.Mathlib.Decide.{dec_lt}
use gem16gb.Prelude.{
  ℕ, zero, suc, ◌-◌, ◌<◌, ◌≡◌, refl, Bool, true, false, ◌&&◌, none, some, leb, ◌==◌, ==_iff,
  if◌then◌else◌, ap, ◌∙◌, inl, inr, Bool-cases, arith,
}
use gem16gb.Json.Utf8.{lead_byte}

-- A test passes at every number under a bound.
every : (ℕ → Bool) → ℕ → Bool
every test zero = true
every test (suc bound) = let lower = every test bound in if test bound then lower else false

every_lem :
    (test : ℕ → Bool) {bound : ℕ}
    → every test bound ≡ true
    → (byte : ℕ) → byte < bound
    → test byte ≡ true
unfolding every
every_lem test {bound = zero} passed byte small = elim small [ ]
every_lem test {bound = suc bound} passed byte small = elim (Bool-cases (test bound)) [
  | inr fails ↦ let wrong = rw fails at passed in cc
  | inl holds ↦ elim (dec_lt byte bound) [
    | yes less ↦ every_lem test (rw holds at passed) byte less
    | no last ↦ let at_bound : byte ≡ bound = omega arith in ap test at_bound ∙ holds
  ]
]

same : Bool → Bool → Bool
same true b = b
same false true = false
same false false = true

same-eq : (a b : Bool) → same a b ≡ true → a ≡ b
unfolding same
same-eq true true h = refl
same-eq true false h = cc
same-eq false true h = cc
same-eq false false h = refl

continuation_table :
    every (λ b. same (bit_and b 0xc0 == 0x80) (leb 0x80 b && leb b 0xbf)) 256 ≡ true
unfolding every same
continuation_table = refl

pub continuation_lem : (b : ℕ) → b < 256 → (bit_and b 0xc0 == 0x80) ≡ (leb 0x80 b && leb b 0xbf)
continuation_lem b h = same-eq _ _ (every_lem _ continuation_table b h)

low_table :
    every
      (λ b. bit_and b 0x3f == (if leb 0x80 b && leb b 0xbf then b - 0x80 else bit_and b 0x3f))
      256
    ≡ true
unfolding every
low_table = refl

pub low_bits_lem :
    (b : ℕ)
    → b < 256
    → (bit_and b 0x3f) ≡ (if leb 0x80 b && leb b 0xbf then b - 0x80 else bit_and b 0x3f)
low_bits_lem b h = (==_iff _ _).0 (every_lem _ low_table b h)

two_table : every (λ b. same (bit_and b 0xe0 == 0xc0) (leb 0xc0 b && leb b 0xdf)) 256 ≡ true
unfolding every same
two_table = refl

three_table : every (λ b. same (bit_and b 0xf0 == 0xe0) (leb 0xe0 b && leb b 0xef)) 256 ≡ true
unfolding every same
three_table = refl

four_table : every (λ b. same (bit_and b 0xf8 == 0xf0) (leb 0xf0 b && leb b 0xf7)) 256 ≡ true
unfolding every same
four_table = refl

two_bits :
    every
      (λ b. bit_and b 0x1f == (if leb 0xc0 b && leb b 0xdf then b - 0xc0 else bit_and b 0x1f))
      256
    ≡ true
unfolding every
two_bits = refl

three_bits :
    every
      (λ b. bit_and b 0x0f == (if leb 0xe0 b && leb b 0xef then b - 0xe0 else bit_and b 0x0f))
      256
    ≡ true
unfolding every
three_bits = refl

four_bits :
    every
      (λ b. bit_and b 0x07 == (if leb 0xf0 b && leb b 0xf7 then b - 0xf0 else bit_and b 0x07))
      256
    ≡ true
unfolding every
four_bits = refl

pub lead_byte-eq :
    (b : ℕ)
    → b < 256
    → lead_byte b ≡ (
        if leb 0xc0 b && leb b 0xdf
        then some (record { continuation_count = 1; codepoint = b - 0xc0; minimum = 0x80 })
        else if leb 0xe0 b && leb b 0xef
        then some (record { continuation_count = 2; codepoint = b - 0xe0; minimum = 0x800 })
        else if leb 0xf0 b && leb b 0xf7
        then some (record { continuation_count = 3; codepoint = b - 0xf0; minimum = 0x10000 })
        else none)
unfolding lead_byte
lead_byte-eq b h =
    let two = same-eq _ _ (every_lem _ two_table b h) in
    let three = same-eq _ _ (every_lem _ three_table b h) in
    let four = same-eq _ _ (every_lem _ four_table b h) in
    let bits2 = (==_iff _ _).0 (every_lem _ two_bits b h) in
    let bits3 = (==_iff _ _).0 (every_lem _ three_bits b h) in
    let bits4 = (==_iff _ _).0 (every_lem _ four_bits b h) in
    ground (arith, two, three, four, bits2, bits3, bits4)
