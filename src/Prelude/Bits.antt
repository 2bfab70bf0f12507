-- ===== src/Prelude/Bits.antt =====
-- `&` and `|` of unsigned words as arithmetic, at every width: the law of the lowest digit, and from
-- it masks, disjoint fields and the test for powers of two.
use Prim.Native.Nat.{
  ℕ, zero, suc, ◌+◌, ◌-◌, ◌*◌, ◌/◌, ◌%◌, ◌^◌, ◌≤◌, ◌<◌, min, max, bit_and, bit_or, digits,
  bit_and-bitwise, bit_or-bitwise,
}
use native.Mathlib.Nat.{
  pow-suc, one-le-pow, mod-lt, div-add-mod', add-zero, add-suc, div-lt_iff_lt-mul,
}
use mathlib.Core.Path.{◌≡◌, refl, ap, sym, ◌∙◌}
use mathlib.Core.Logic.{◌≢◌}
use mathlib.Core.WellFounded
use native.Mathlib.Decide.{dec_lt}
use native.Mathlib.Omega.{arith}
use gem16gb.Prelude.Order.{lt_wf}

-- Any two counts of digits that cover the number give the same result.
any_count :
    (z : ℕ → ℕ) (f : ℕ → ℕ → ℕ) (n m a b : ℕ) → a ≤ n → a ≤ m → digits z f n a b ≡ digits z f m a b
any_count z f (suc n) (suc m) (suc a) b small tiny =
    ap (λ t. t * 2 + f (suc a % 2) (b % 2))
      (any_count z f n m (suc a / 2) (b / 2) (omega arith) (omega arith))
any_count z f (suc n) zero (suc a) b small tiny = absurd (omega (arith, tiny))
any_count z f zero m (suc a) b small tiny = absurd (omega (arith, small))
any_count z f (suc n) (suc m) zero b small tiny = refl
any_count z f (suc n) zero zero b small tiny = refl
any_count z f zero (suc m) zero b small tiny = refl
any_count z f zero zero zero b small tiny = refl

-- The lowest digit of each.
pub bit_and-halves : (a b : ℕ) → bit_and a b ≡ bit_and (a / 2) (b / 2) * 2 + min (a % 2) (b % 2)
bit_and-halves zero b = omega (arith, bit_and-bitwise 0 b, bit_and-bitwise 0 (b / 2))
bit_and-halves (suc a) b = omega (
  arith,
  bit_and-bitwise (suc a) b,
  bit_and-bitwise (suc a / 2) (b / 2),
  any_count (λ c. 0) min a (suc a / 2) (suc a / 2) (b / 2) (omega arith) (omega arith),
)

pub bit_or-halves : (a b : ℕ) → bit_or a b ≡ bit_or (a / 2) (b / 2) * 2 + max (a % 2) (b % 2)
bit_or-halves zero b = omega (arith, bit_or-bitwise 0 b, bit_or-bitwise 0 (b / 2))
bit_or-halves (suc a) b = omega (
  arith,
  bit_or-bitwise (suc a) b,
  bit_or-bitwise (suc a / 2) (b / 2),
  any_count (λ c. c) max a (suc a / 2) (suc a / 2) (b / 2) (omega arith) (omega arith),
)

-- To halve a number down to zero.
by_halves {ℓ} : (P : ℕ → Type ℓ) → P 0 → ((n : ℕ) → P (suc n / 2) → P (suc n)) → (n : ℕ) → P n
by_halves P base step n = WellFounded.induction lt_wf {C = P} n (λ k ih. down k ih)
  where
    down : (k : ℕ) → ((m : ℕ) → m < k → P m) → P k
    down zero ih = base
    down (suc k) ih = step k (ih (suc k / 2) (omega arith))

pub bit_and-zero : (a : ℕ) → bit_and a 0 ≡ 0
bit_and-zero =
    by_halves (λ a. bit_and a 0 ≡ 0) refl (λ n ih. omega (arith, bit_and-halves (suc n) 0))

pub bit_or-zero : (a : ℕ) → bit_or a 0 ≡ a
bit_or-zero = by_halves (λ a. bit_or a 0 ≡ a) refl (λ n ih. omega (arith, bit_or-halves (suc n) 0))

pub bit_and_self : (a : ℕ) → bit_and a a ≡ a
bit_and_self =
    by_halves (λ a. bit_and a a ≡ a) refl (λ n ih. omega (arith, bit_and-halves (suc n) (suc n)))

times_double : (m k : ℕ) → m * 2 ^ suc k ≡ 2 * (m * 2 ^ k)
times_double m k = omega (arith, ap (λ (t : ℕ). m * t) (pow-suc 2 k))

-- A mask whose `k` low digits are zero keeps the digits above and clears those.
pub bit_and_shift :
    (k q r m : ℕ) → r < 2 ^ k → bit_and (q * 2 ^ k + r) (m * 2 ^ k) ≡ bit_and q m * 2 ^ k
bit_and_shift zero q r m h = ground (arith, ap (λ t. bit_and t m) (q_alone q r h))
  where
    q_alone : (q r : ℕ) → r < 1 → q * 1 + r ≡ q
    q_alone q r h = omega arith
bit_and_shift (suc k) q r m h = ground (
  arith,
  bit_and-halves (q * 2 ^ suc k + r) (m * 2 ^ suc k),
  times_double q k,
  times_double m k,
  times_double (bit_and q m) k,
  bit_and_shift k q (r / 2) m (omega (arith, pow-suc 2 k)),
)

-- A full mask keeps everything.
pub bit_and_full : (d x : ℕ) → x < 2 ^ d → bit_and x (2 ^ d - 1) ≡ x
bit_and_full zero x h = omega (arith, bit_and-zero x)
bit_and_full (suc d) x h = ground (
  arith,
  bit_and-halves x (2 ^ suc d - 1),
  pow-suc 2 d,
  one-le-pow d 2,
  bit_and_full d (x / 2) (omega (arith, pow-suc 2 d)),
)

-- `(q << k) | r` is a sum when `r` fits `k` bits.
pub bit_or_disjoint : (k q r : ℕ) → r < 2 ^ k → bit_or (q * 2 ^ k) r ≡ q * 2 ^ k + r
bit_or_disjoint zero q r h = ground (arith, bit_or-zero q)
bit_or_disjoint (suc k) q r h = ground (
  arith,
  bit_or-halves (q * 2 ^ suc k) r,
  times_double q k,
  pow-suc 2 k,
  bit_or_disjoint k q (r / 2) (omega (arith, pow-suc 2 k)),
)

-- `v & (v - 1)` is zero for the powers of two only.
pub power_of_two : (v : ℕ) → v ≢ 0 → bit_and v (v - 1) ≡ 0 → (k : ℕ) × (v ≡ 2 ^ k)
power_of_two =
    by_halves (λ v. v ≢ 0 → bit_and v (v - 1) ≡ 0 → (k : ℕ) × (v ≡ 2 ^ k)) (λ h e. absurd (h refl))
      step
  where
    odd : (u : ℕ) → bit_and (2 * u + 1) (2 * u) ≡ 2 * u
    odd u = ground (arith, bit_and-halves (2 * u + 1) (2 * u), bit_and_self u)

    even : (u : ℕ) → 0 < u → bit_and (2 * u) (2 * u - 1) ≡ 2 * bit_and u (u - 1)
    even u h = ground (arith, bit_and-halves (2 * u) (2 * u - 1))

    odd_one : (n : ℕ) → suc n % 2 ≡ 1 → bit_and (suc n) (suc n - 1) ≡ 0 → suc n ≡ 1
    odd_one n p e = ground (arith, odd (suc n / 2))

    even_half :
        (n : ℕ)
        → suc n % 2 ≡ 0
        → bit_and (suc n) (suc n - 1) ≡ 0
        → bit_and (suc n / 2) (suc n / 2 - 1) ≡ 0
    even_half n p e = ground (arith, even (suc n / 2) (omega arith))

    step :
        (n : ℕ)
        → (suc n / 2 ≢ 0 → bit_and (suc n / 2) (suc n / 2 - 1) ≡ 0 → (k : ℕ) × (suc n / 2 ≡ 2 ^ k))
        → suc n ≢ 0
        → bit_and (suc n) (suc n - 1) ≡ 0
        → (k : ℕ) × (suc n ≡ 2 ^ k)
    step n ih h e = elim (dec_lt 0 (suc n % 2)) [
      | yes p ↦ (0, odd_one n (omega arith) e)
      | no p ↦
          let half = ih (omega arith) (even_half n (omega arith) e) in
          (suc half.0, omega (arith, half.1, pow-suc 2 half.0))
    ]

pub pow_add : (d k : ℕ) → 2 ^ (d + k) ≡ 2 ^ d * 2 ^ k
pow_add d zero = omega (arith, ap (λ (t : ℕ). 2 ^ t) (add-zero d))
pow_add d (suc k) = omega (
  arith,
  ap (λ (t : ℕ). 2 ^ t) (add-suc d k),
  pow-suc 2 (d + k),
  pow_add d k,
  times_double (2 ^ d) k,
)

-- `&` with the complement of a low mask, in words of `d + k` bits, rounds down to a multiple of 2 ^ k.
pub bit_and_round :
    (d k x : ℕ) → x < 2 ^ d * 2 ^ k → bit_and x (2 ^ d * 2 ^ k - 2 ^ k) ≡ x / 2 ^ k * 2 ^ k
bit_and_round d k x h =
    ap (λ t. bit_and t (2 ^ d * 2 ^ k - 2 ^ k)) (sym (div-add-mod' x (2 ^ k)))
    ∙ ap (bit_and (x / 2 ^ k * 2 ^ k + x % 2 ^ k)) (sym (pred_mul (2 ^ d) (2 ^ k)))
    ∙ bit_and_shift k (x / 2 ^ k) (x % 2 ^ k) (2 ^ d - 1) (mod-lt x pos)
    ∙ ap (λ t. t * 2 ^ k) (bit_and_full d (x / 2 ^ k) ((div-lt_iff_lt-mul pos).1 h))
  where
    pos : 0 < 2 ^ k
    pos = one-le-pow k 2 (omega arith)

    pred_mul : (a b : ℕ) → (a - 1) * b ≡ a * b - b
    pred_mul zero b = omega arith
    pred_mul (suc a) b = let e : suc a - 1 ≡ a = omega arith in ap (λ t. t * b) e ∙ omega arith
