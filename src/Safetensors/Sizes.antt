-- ===== src/Safetensors/Sizes.antt =====
-- Sizes and alignments of src/model/safetensors.cpp: TensorBytes multiplies without wrapping.
use native.Mathlib.Nat.{mod-eq_of_lt, pow-suc, pow-le-pow_right}
use native.Mathlib.Decide.{dec_lt}
use gem16gb.Prelude.{
  ℕ, zero, suc, ◌*◌, ◌/◌, ◌%◌, ◌^◌, ◌≤◌, ◌<◌, ◌≡◌, ◌⊎◌, inl, inr, subst, refl, ap, sym, ◌∙◌, false,
  not, ◌&&◌, List, [], ◌∷◌, ltb, ◌==◌, Bool-cases, arith, String, ◌↔◌,
}
use gem16gb.Memory.Checked.{
  max64, product, guard_iff, overflow, multiply_from, multiply_from-ok, multiply_from-fits,
  le_factor,
}
use gem16gb.Status.{Result, ok, fail, >>=-eq-ok, data_loss}
use gem16gb.Safetensors.{shape_product, tensor_bytes, alignment_from, alignment_of}

-- The loop is the checked product of the memory plan but for its message.
shape_product-multiply :
    (elements : ℕ) (shape : List ℕ) (label : String)
    → ((n : ℕ) × (multiply_from elements shape label ≡ ok n)
        × (shape_product elements shape ≡ ok n))
      ⊎ ((multiply_from elements shape label ≡ overflow label)
          × (shape_product elements shape ≡ fail data_loss "tensor shape product overflows uint64"))
unfolding multiply_from shape_product
shape_product-multiply elements [] label = inl (elements, refl, refl)
shape_product-multiply elements (dimension ∷ shape) label =
    elim (Bool-cases (not (dimension == 0) && ltb (max64 / dimension) elements)) [
      | inl wraps ↦ inr (rw wraps refl, rw wraps refl)
      | inr passes ↦ rw passes (shape_product-multiply (elements * dimension % 2 ^ 64) shape label)
    ]

multiply_from-refused : {n : ℕ} {r : Result ℕ} → r ≡ overflow "" → r ≡ ok n → ⊥
multiply_from-refused p q = cc

shape_product-ok :
    (shape : List ℕ) (n : ℕ) → shape_product 1 shape ≡ ok n → (n ≡ product shape) × (n < 2 ^ 64)
shape_product-ok shape n e = elim (shape_product-multiply 1 shape "") [
  | inl (m, p, q) ↦
      let same : m ≡ n = cc in
      let found = multiply_from-ok 1 shape "" m (omega arith) p in
      (omega (arith, found.0), omega (arith, found.1))
  | inr (p, q) ↦ cc
]

shape_product-fits :
    (shape : List ℕ)
    → 0 < product shape
    → product shape < 2 ^ 64
    → shape_product 1 shape ≡ ok (product shape)
shape_product-fits shape pos small =
    let whole = multiply_from-fits 1 shape "" (omega arith) pos (omega arith) in
    elim (shape_product-multiply 1 shape "") [
      | inl (m, p, q) ↦ let same : m ≡ 1 * product shape = cc in q ∙ ap ok (omega (arith, same))
      | inr (p, q) ↦ absurd (multiply_from-refused p whole)
    ]

-- TensorBytes succeeds with the number of elements times the element size only, and never wraps.
pub tensor_bytes-ok :
    (shape : List ℕ) (element_bytes n : ℕ)
    → tensor_bytes shape element_bytes ≡ ok n
    → (n ≡ product shape * element_bytes) × (n < 2 ^ 64)
unfolding tensor_bytes
tensor_bytes-ok shape element_bytes n e =
    let (elements, p, q) = >>=-eq-ok (shape_product 1 shape) _ e in
    let found = shape_product-ok shape elements p in
    elim (Bool-cases (not (element_bytes == 0) && ltb (max64 / element_bytes) elements)) [
      | inl wraps ↦ let refused = rw wraps at q in cc
      | inr passes ↦
          let below = (guard_iff elements element_bytes).0 passes in
          let returned : n ≡ elements * element_bytes % 2 ^ 64 = let r = rw passes at q in cc in
          (
            returned ∙ mod-eq_of_lt below ∙ ap (λ (t : ℕ). t * element_bytes) found.0,
            omega (arith, returned),
          )
    ]

-- For a shape with no zero in it TensorBytes gives the number of bytes if that fits 64 bits, and an
-- error if not.
pub tensor_bytes_iff :
    (shape : List ℕ) (element_bytes n : ℕ)
    → 0 < product shape
    → 0 < element_bytes
    → (tensor_bytes shape element_bytes ≡ ok n)
      ↔ ((n ≡ product shape * element_bytes) × (product shape * element_bytes < 2 ^ 64))
unfolding tensor_bytes
tensor_bytes_iff shape element_bytes n pos some_bytes = (
  λ e.
      let found = tensor_bytes-ok shape element_bytes n e in
      (found.0, omega (arith, found.0, found.1)),
  λ h.
      let small = le_factor (product shape) element_bytes (2 ^ 64) some_bytes h.1 in
      rw (shape_product-fits shape pos small) (
        rw ((guard_iff (product shape) element_bytes).1 h.1)
          (ap ok (mod-eq_of_lt h.1 ∙ sym (h.0)))),
)

half_power : (n : ℕ) → 2 ^ suc n / 2 ≡ 2 ^ n
half_power n = omega (arith, pow-suc 2 n)

module _ (offset : ℕ) where
  alignment_from-eq :
      (n : ℕ) → (k : ℕ) × (k ≤ n) × (alignment_from n (2 ^ n) offset ≡ 2 ^ k) × (offset % 2 ^ k ≡ 0)
  unfolding alignment_from
  alignment_from-eq zero = (0, omega arith, refl, omega arith)
  alignment_from-eq (suc n) = elim (Bool-cases (offset % 2 ^ suc n == 0)) [
    | inl whole ↦ (suc n, omega arith, rw whole refl, ground arith)
    | inr part ↦
        let found = alignment_from-eq n in
        (found.0, omega (arith, found.1), rw part (rw (half_power n) (found.2)), found.3)
  ]

  alignment_from-le :
      (n j : ℕ) → j ≤ n → offset % 2 ^ j ≡ 0 → 2 ^ j ≤ alignment_from n (2 ^ n) offset
  unfolding alignment_from
  alignment_from-le zero j h e = let same : j ≡ 0 = omega arith in rw same (omega arith)
  alignment_from-le (suc n) j h e = elim (Bool-cases (offset % 2 ^ suc n == 0)) [
    | inl whole ↦ rw whole (pow-le-pow_right {n = 2} (omega arith) h)
    | inr part ↦ rw part (rw (half_power n) (alignment_from-le n j (below part) e))
  ]
    where
      below : offset % 2 ^ suc n == 0 ≡ false → j ≤ n
      below part = elim (dec_lt j (suc n)) [
        | yes less ↦ omega arith
        | no more ↦
            let same : j ≡ suc n = omega (arith, h) in
            let zero_part = subst (λ t. offset % 2 ^ t ≡ 0) same e in ground arith
      ]

-- Alignment returns the largest power of two up to 4096 that divides the offset.
pub alignment_of_lem :
    (offset : ℕ)
    → (offset % alignment_of offset ≡ 0)
      × ((k : ℕ) × (k ≤ 12) × (alignment_of offset ≡ 2 ^ k))
      × ((j : ℕ) → j ≤ 12 → offset % 2 ^ j ≡ 0 → 2 ^ j ≤ alignment_of offset)
unfolding alignment_of
alignment_of_lem offset =
    let found = alignment_from-eq offset 12 in
    (
      rw (found.2) (found.3),
      (found.0, found.1, found.2),
      λ j h e. alignment_from-le offset 12 j h e,
    )
