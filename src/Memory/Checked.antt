-- ===== src/Memory/Checked.antt =====
-- The checked arithmetic of memory_plan.cpp, and what a success or an error of it means.
use Prim.Native.Nat.{bit_and}
use Prim.Native.String.{◌++◌ as str_append}
use gem16gb.Prelude.{
  ℕ, zero, suc, ◌+◌, ◌-◌, ◌*◌, ◌/◌, ◌%◌, ◌^◌, ◌≤◌, ◌<◌, ◌≡◌, refl, ap, subst, ◌∙◌, sym, ◌↔◌, inl,
  inr, String, Bool, true, false, not, ◌&&◌, List, [], ◌∷◌, ltb, ◌==◌, if◌then◌else◌, arith,
  Bool-cases,
}
use native.Mathlib.Nat.{
  div-lt_iff_lt-mul, mod-eq_of_lt, mul_assoc, mod-lt, div-add-mod', mul-mod_left, one-le-pow,
  pow-le-pow_right,
}
use native.Mathlib.Decide.{dec_lt}
use gem16gb.Prelude.Bits.{bit_and_round, pow_add, power_of_two}
use gem16gb.Status.{Result, ok, fail, invalid_argument}

-- std::numeric_limits<std::uint64_t>::max()
abbrev pub max64 : ℕ
max64 = 2 ^ 64 - 1

abbrev pub overflow {ℓ} : {A : Type ℓ} → String → Result A
overflow label = fail invalid_argument (str_append label " byte count overflows uint64")

unfoldable pub checked_add : ℕ → ℕ → String → Result ℕ
checked_add left right label =
    if ltb (max64 - right) left then overflow label else ok ((left + right) % 2 ^ 64)

-- The loop over the factors, with the product so far.
unfoldable pub multiply_from : ℕ → List ℕ → String → Result ℕ
multiply_from result [] label = ok result
multiply_from result (factor ∷ factors) label =
    let rest = multiply_from (result * factor % 2 ^ 64) factors label in
    if not (factor == 0) && ltb (max64 / factor) result then overflow label else rest

unfoldable pub checked_multiply : List ℕ → String → Result ℕ
unfolding multiply_from
checked_multiply factors label = multiply_from 1 factors label

unfoldable pub is_power_of_two : ℕ → Bool
is_power_of_two value = not (value == 0) && bit_and value (value - 1) == 0

-- `~mask` is the complement in 64 bits.
unfoldable pub align_up : ℕ → ℕ → Result ℕ
unfolding is_power_of_two
align_up value alignment =
    let mask = alignment - 1 in
    if not (is_power_of_two alignment)
    then fail invalid_argument "arena alignment must be a non-zero power of two"
    else if ltb (max64 - mask) value
    then fail invalid_argument "aligned arena offset overflows uint64"
    else ok (bit_and ((value + mask) % 2 ^ 64) (max64 - mask))

-- A checked sum is the true sum if that fits 64 bits, and an error if not.
pub checked_add_iff :
    (a b : ℕ) (label : String) (c : ℕ)
    → a < 2 ^ 64
    → b < 2 ^ 64
    → (checked_add a b label ≡ ok c) ↔ ((c ≡ a + b) × (a + b < 2 ^ 64))
unfolding checked_add
checked_add_iff a b label c ha hb = ground arith

abbrev pub product : List ℕ → ℕ
product [] = 1
product (f ∷ fs) = f * product fs

-- The guard of the loop passes exactly the factors whose product with the result fits.
pub guard_iff : (r f : ℕ) → ((not (f == 0) && ltb (max64 / f) r) ≡ false) ↔ (r * f < 2 ^ 64)
guard_iff r zero = (λ h. omega arith, λ h. refl)
guard_iff r (suc f) = (
  λ h. ground (arith, (div-lt_iff_lt-mul {k = suc f} {x = max64} {y = r} (omega arith)).1),
  λ h. ground (arith, (div-lt_iff_lt-mul {k = suc f} {x = max64} {y = r} (omega arith)).0),
)

multiply_step :
    (r f : ℕ) (fs : List ℕ) (label : String)
    → r * f < 2 ^ 64
    → multiply_from r (f ∷ fs) label ≡ multiply_from (r * f) fs label
unfolding multiply_from
multiply_step r f fs label fits = rw ((guard_iff r f).1 fits) (rw (mod-eq_of_lt fits))

-- A checked product that succeeds is the true product, and it fits 64 bits.
pub multiply_from-ok :
    (r : ℕ) (fs : List ℕ) (label : String) (c : ℕ)
    → r < 2 ^ 64
    → multiply_from r fs label ≡ ok c
    → (c ≡ r * product fs) × (c < 2 ^ 64)
unfolding multiply_from
multiply_from-ok r [] label c hr h = ground arith
multiply_from-ok r (f ∷ fs) label c hr h = elim (Bool-cases (not (f == 0) && ltb (max64 / f) r)) [
  | inl big ↦ let refused = rw big at h in cc
  | inr small ↦
      let fits = (guard_iff r f).0 small in
      let (exact, bound) =
        multiply_from-ok (r * f) fs label c fits (sym (multiply_step r f fs label fits) ∙ h) in
      (omega (arith, mul_assoc r f (product fs)), bound)
]

pub le_factor : (a p m : ℕ) → 0 < p → a * p < m → a < m
le_factor a zero m h lt = elim h [ ]
le_factor a (suc p) m h lt = grind arith

-- With factors that are not zero, a product that fits is computed.
pub multiply_from-fits :
    (r : ℕ) (fs : List ℕ) (label : String)
    → 0 < r
    → 0 < product fs
    → r * product fs < 2 ^ 64
    → multiply_from r fs label ≡ ok (r * product fs)
unfolding multiply_from
multiply_from-fits r [] label hr pos fits = ground arith
multiply_from-fits r (zero ∷ fs) label hr pos fits = absurd (omega arith)
multiply_from-fits r (suc f ∷ fs) label hr pos fits =
    let rest : 0 < product fs = grind arith in
    let assoc = mul_assoc r (suc f) (product fs) in
    let small : r * suc f < 2 ^ 64 =
      le_factor (r * suc f) (product fs) (2 ^ 64) rest (omega (arith, assoc)) in
    multiply_step r (suc f) fs label small
    ∙ multiply_from-fits (r * suc f) fs label (grind arith) rest (omega (arith, assoc))
    ∙ ap ok assoc

-- A checked product of factors that are not zero is the true product if that fits 64 bits, and an
-- error if not.
pub checked_multiply_iff :
    (fs : List ℕ) (label : String) (c : ℕ)
    → 0 < product fs
    → (checked_multiply fs label ≡ ok c) ↔ ((c ≡ product fs) × (product fs < 2 ^ 64))
unfolding checked_multiply
checked_multiply_iff fs label c pos = (
  λ h. ground (arith, multiply_from-ok 1 fs label c (omega arith) h),
  λ h. multiply_from-fits 1 fs label (omega arith) pos (omega arith) ∙ ap ok (omega arith),
)

-- A checked product that succeeds is the true product, also with factors that are zero.
pub checked_multiply-ok :
    (fs : List ℕ) (label : String) (c : ℕ)
    → checked_multiply fs label ≡ ok c
    → (c ≡ product fs) × (c < 2 ^ 64)
unfolding checked_multiply
checked_multiply-ok fs label c h = ground (arith, multiply_from-ok 1 fs label c (omega arith) h)

-- What is rounded up.
pub record Aligned (value alignment result : ℕ) : Type 0 where
  pub multiple : result % alignment ≡ 0
  pub above : value ≤ result
  pub near : result < value + alignment
  pub fits : result < 2 ^ 64

align_pow :
    (d k value : ℕ)
    → 2 ^ d * 2 ^ k ≡ 2 ^ 64
    → value + (2 ^ k - 1) < 2 ^ 64
    → bit_and (value + (2 ^ k - 1)) (max64 - (2 ^ k - 1)) ≡ (value + (2 ^ k - 1)) / 2 ^ k * 2 ^ k
align_pow d k value e fits =
    ap (bit_and (value + (2 ^ k - 1))) (omega (arith, e, one-le-pow k 2))
    ∙ bit_and_round d k (value + (2 ^ k - 1)) (omega (arith, e))

round_up-Aligned :
    (value p : ℕ) → 0 < p → value + (p - 1) < 2 ^ 64 → Aligned value p ((value + (p - 1)) / p * p)
round_up-Aligned value p pos fits = record {
  multiple = mul-mod_left ((value + (p - 1)) / p) p;
  above = omega (arith, div-add-mod' (value + (p - 1)) p, mod-lt (value + (p - 1)) pos);
  near = omega (arith, div-add-mod' (value + (p - 1)) p);
  fits = omega (arith, div-add-mod' (value + (p - 1)) p);
}

-- An alignment below 2 ^ 64 is a power of two with an exponent of at most 63.
complement : (k : ℕ) → 2 ^ k < 2 ^ 64 → 2 ^ (64 - k) * 2 ^ k ≡ 2 ^ 64
complement k h = elim (dec_lt k 64) [
  | yes p ↦
      sym (pow_add (64 - k) k) ∙ (let e : 64 - k + k ≡ 64 = omega arith in ap (λ (t : ℕ). 2 ^ t) e)
  | no p ↦
      absurd (omega (arith, pow-le-pow_right {n = 2} (omega arith) {i = 64} {j = k} (omega arith)))
]

is_power_of_two-pow :
    (alignment : ℕ) → is_power_of_two alignment ≡ true → (k : ℕ) × (alignment ≡ 2 ^ k)
unfolding is_power_of_two
is_power_of_two-pow alignment h = power_of_two alignment (ground arith) (ground arith)

align_up-ok :
    (value alignment result : ℕ)
    → alignment < 2 ^ 64
    → align_up value alignment ≡ ok result
    → (is_power_of_two alignment ≡ true)
      × (value + (alignment - 1) < 2 ^ 64)
      × (result ≡ bit_and (value + (alignment - 1)) (max64 - (alignment - 1)))
unfolding align_up
align_up-ok value alignment result ha h = elim (Bool-cases (is_power_of_two alignment)) [
  | inr odd ↦ let refused = rw odd at h in cc
  | inl even ↦ elim (Bool-cases (ltb (max64 - (alignment - 1)) value)) [
    | inl big ↦ let refused = rw (even, big) at h in cc
    | inr small ↦
        let fits : value + (alignment - 1) < 2 ^ 64 = ground arith in
        (even, fits, (let done = rw (even, small, mod-eq_of_lt fits) at h in cc))
  ]
]

-- Rounding up succeeds for a power of two only, and then gives the least multiple of the alignment
-- that is not below the value, within 64 bits.
pub align_up-Aligned :
    (value alignment result : ℕ)
    → alignment < 2 ^ 64
    → align_up value alignment ≡ ok result
    → ((k : ℕ) × (alignment ≡ 2 ^ k)) × Aligned value alignment result
align_up-Aligned value alignment result ha h =
    let (even, fits, e) = align_up-ok value alignment result ha h in
    (is_power_of_two-pow alignment even, exact even fits e)
  where
    at_pow :
        (p : ℕ)
        → ((k : ℕ) × (p ≡ 2 ^ k))
        → p < 2 ^ 64
        → value + (p - 1) < 2 ^ 64
        → bit_and (value + (p - 1)) (max64 - (p - 1)) ≡ (value + (p - 1)) / p * p
    at_pow p (k, q) small fits =
        rw q (align_pow (64 - k) k value (complement k (rw q at small)) (rw q at fits))

    exact :
        is_power_of_two alignment ≡ true
        → value + (alignment - 1) < 2 ^ 64
        → result ≡ bit_and (value + (alignment - 1)) (max64 - (alignment - 1))
        → Aligned value alignment result
    exact even fits e =
        let (k, q) = is_power_of_two-pow alignment even in
        subst (Aligned value alignment) (sym (e ∙ at_pow alignment (k, q) ha fits))
          (round_up-Aligned value alignment (rw q (one-le-pow k 2 (omega arith))) fits)
