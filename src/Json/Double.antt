-- ===== src/Json/Double.antt =====
-- Value::as_number of src/util/json.cpp, and the comparisons of doubles that its clients use.
--
-- A double is its 64-bit pattern. An int64_t becomes the nearest double, of two equally near ones the
-- one with an even significand.
use gem16gb.Prelude.{
  ℕ, zero, suc, ◌+◌, ◌-◌, ◌*◌, ◌/◌, ◌%◌, ◌^◌, Bool, not, ◌&&◌, ◌||◌, Option, none, some, ltb, leb,
  ◌==◌, if◌then◌else◌,
}
use gem16gb.Json.Value.{ℤ, pos, negsuc, Value, integer, double}

-- The exponent of the highest bit; an int64_t has 64 bits.
unfoldable log2 : ℕ → ℕ → ℕ
log2 zero n = 0
log2 (suc fuel) n = let more = log2 fuel (n / 2) in if ltb n 2 then 0 else suc more

-- The significand with its leading bit, 53 bits long, or 2 ^ 53 where it was rounded up to that.
unfoldable significand : ℕ → ℕ → ℕ
significand n exponent =
    let unit = 2 ^ (exponent - 52) in
    let kept = n / unit in
    let rest = n % unit in
    if leb exponent 52
    then n * 2 ^ (52 - exponent)
    else if ltb unit (2 * rest) || (unit == 2 * rest && kept % 2 == 1)
    then suc kept
    else kept

-- The double of a number that is not negative: one more bit in the significand counts as an exponent.
unfoldable pub magnitude_of : ℕ → ℕ
unfolding log2 significand
magnitude_of n =
    let exponent = log2 64 n in
    if n == 0 then 0 else (exponent + 1022) * 2 ^ 52 + significand n exponent

unfoldable pub to_double : ℤ → ℕ
unfolding magnitude_of
to_double (pos n) = magnitude_of n
to_double (negsuc n) = 2 ^ 63 + magnitude_of (suc n)

-- Value::as_number; `none` where std::get throws.
unfoldable pub as_number : Value → Option ℕ
unfolding to_double
as_number (integer n) = some (to_double n)
as_number (double bits) = some bits
as_number value = none

abbrev infinity : ℕ
infinity = 0x7ff * 2 ^ 52

unfoldable pub is_finite : ℕ → Bool
is_finite bits = ltb (bits % 2 ^ 63) infinity

unfoldable pub is_nan : ℕ → Bool
is_nan bits = ltb infinity (bits % 2 ^ 63)

-- Numbers in the order of the doubles; the two zeros are one number.
unfoldable rank : ℕ → ℕ
rank bits = if ltb bits (2 ^ 63) then 2 ^ 63 + bits else 2 ^ 63 - bits % 2 ^ 63

unfoldable pub double_less : ℕ → ℕ → Bool
unfolding is_nan rank
double_less x y = not (is_nan x || is_nan y) && ltb (rank x) (rank y)

unfoldable pub double_equal : ℕ → ℕ → Bool
unfolding is_nan rank
double_equal x y = not (is_nan x || is_nan y) && rank x == rank y
