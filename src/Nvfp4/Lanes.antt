-- ===== src/Nvfp4/Lanes.antt =====
-- What a lane of a warp gets from the tiled buffers of src/cuda/nvfp4/sm120_layout.cpp, against the
-- row-major matrix that the buffers were made from.
use native.Mathlib.Nat.{div-lt_iff_lt-mul}
use gem16gb.Prelude.{
  ℕ, ◌+◌, ◌-◌, ◌*◌, ◌/◌, ◌%◌, ◌^◌, ◌<◌, ◌≡◌, refl, ap, sym, ◌∙◌, inl, inr, true, false, not, ◌||◌,
  leb, ◌==◌, if◌then◌else◌, Bool-cases, arith,
}
use gem16gb.Status.{ok, ◌>>=◌}
use gem16gb.Nvfp4.{
  Sm120Nvfp4SourceLayout, checked_product, plan_source_layout, check_layout, Buffer,
  destination_offset, tile_tiles, tile_weights, tile_weight_scales, load_little_u32,
  Sm120Nvfp4WeightLaneFragment, load_active, load_lane_fragment,
}
use gem16gb.Nvfp4.Tiled.{tiled_byte}

-- The fragment of a lane, read straight from the row-major matrix: lane `4 * r + q` has bytes
-- `4 * q` to `4 * q + 3` and `4 * q + 16` to `4 * q + 19` of the K block in row `r` of its tile.
abbrev pub lane_of_matrix : ℕ → ℕ → Buffer → Buffer → ℕ → ℕ → ℕ → Sm120Nvfp4WeightLaneFragment
lane_of_matrix rows columns weights scales row_tile k_block lane =
    let row = row_tile * 8 + lane / 4 in
    if leb rows row
    then record {
      packed_low = 0;
      packed_high = 0;
      packed_scales = 0;
      source_row = row;
      active = false;
    }
    else record {
      packed_low = load_little_u32 weights.byte (row * (columns / 2) + k_block * 32 + lane % 4 * 4);
      packed_high =
          load_little_u32 weights.byte (row * (columns / 2) + k_block * 32 + (lane % 4 * 4 + 16));
      packed_scales = load_little_u32 scales.byte (row * (columns / 16) + k_block * 4 + 0);
      source_row = row;
      active = true;
    }

abbrev planned : ℕ → ℕ → Sm120Nvfp4SourceLayout
planned rows columns = record {
  rows = rows;
  contracting_elements = columns;
  row_tiles = (rows + 8 - 1) / 8;
  k_blocks = columns / 64;
  packed_weight_bytes = rows * columns / 2;
  scale_bytes = rows * columns / 16;
  persistent_repack_bytes = 0;
}

no_overflow : (left right : ℕ) → 0 < right → left * right < 2 ^ 64 → (2 ^ 64 - 1) / right < left → ⊥
no_overflow left right p h g = let below = (div-lt_iff_lt-mul p).0 g in omega (arith, below, h)

checked_product_lem :
    (left right : ℕ)
    → 0 < right
    → left * right < 2 ^ 64
    → checked_product left right ≡ ok (left * right)
unfolding checked_product
checked_product_lem left right p h = ground (arith, no_overflow left right p h)

module _ (rows columns : ℕ) (some_rows : 0 < rows) (some_columns : 0 < columns)
    (blocks : columns % 64 ≡ 0) (fits : rows * columns < 2 ^ 64) where
  plan-planned : plan_source_layout rows columns ≡ ok (planned rows columns)
  unfolding plan_source_layout
  plan-planned =
      let good : rows == 0 || (columns == 0 || not (columns % 64 == 0)) ≡ false = ground arith in
      rw good (rw (checked_product_lem rows columns some_columns fits) refl)

  check-planned : check_layout (planned rows columns) ≡ ok tt
  unfolding check_layout
  check-planned = rw plan-planned (ground arith)

  tile_weights-planned :
      (weights : Buffer)
      → weights.size ≡ rows * columns / 2
      → tile_weights (planned rows columns) weights
        ≡ ok (record {
          size = rows * columns / 2;
          byte =
              tile_tiles
                (planned rows columns)
                32
                (columns / 2)
                weights.byte
                ((rows + 8 - 1) / 8)
                0
                (λ j. 0);
        })
  unfolding tile_weights
  tile_weights-planned weights e =
      let same : not (weights.size == rows * columns / 2) ≡ false = ground arith in
      rw check-planned (rw same refl)

  tile_weight_scales-planned :
      (scales : Buffer)
      → scales.size ≡ rows * columns / 16
      → tile_weight_scales (planned rows columns) scales
        ≡ ok (record {
          size = rows * columns / 16;
          byte =
              tile_tiles
                (planned rows columns)
                4
                (columns / 16)
                scales.byte
                ((rows + 8 - 1) / 8)
                0
                (λ j. 0);
        })
  unfolding tile_weight_scales
  tile_weight_scales-planned scales e =
      let same : not (scales.size == rows * columns / 16) ≡ false = ground arith in
      rw check-planned (rw same refl)

  load_lane_fragment-planned :
      (weights scales : Buffer) (t k lane : ℕ)
      → weights.size ≡ rows * columns / 2
      → scales.size ≡ rows * columns / 16
      → t < (rows + 8 - 1) / 8
      → k < columns / 64
      → lane < 32
      → load_lane_fragment (planned rows columns) weights scales t k lane
        ≡ ok (
            if leb rows (t * 8 + lane / 4)
            then record {
              packed_low = 0;
              packed_high = 0;
              packed_scales = 0;
              source_row = t * 8 + lane / 4;
              active = false;
            }
            else load_active (planned rows columns) weights scales t k lane)
  unfolding load_lane_fragment
  load_lane_fragment-planned weights scales t k lane e e' h h' g =
      let sizes : not (weights.size == rows * columns / 2)
            || not (scales.size == rows * columns / 16)
          ≡ false =
        ground arith in
      let inside : leb ((rows + 8 - 1) / 8) t || (leb (columns / 64) k || leb 32 lane) ≡ false =
        ground arith in
      rw check-planned (rw sizes (rw inside refl))

-- Four bytes that agree give words that agree.
load_little_u32-eq :
    (f g : ℕ → ℕ) (x y b : ℕ)
    → ((i : ℕ) → i < 4 → f (x + (b + i)) ≡ g (y + (b + i)))
    → load_little_u32 f (x + b) ≡ load_little_u32 g (y + b)
load_little_u32-eq f g x y b same = omega (
  arith,
  at 0 (omega arith),
  at 1 (omega arith),
  at 2 (omega arith),
  at 3 (omega arith),
  ap f (plus_zero (x + b)),
  ap g (plus_zero (y + b)),
)
  where
    move : (z i : ℕ) → z + b + i ≡ z + (b + i)
    move z i = omega arith

    plus_zero : (z : ℕ) → z + 0 ≡ z
    plus_zero z = omega arith

    at : (i : ℕ) → i < 4 → f (x + b + i) ≡ g (y + b + i)
    at i h = ap f (move x i) ∙ same i h ∙ ap g (sym (move y i))

-- A word of a tiled buffer is the word of the matrix that its place stands for.
tiled_word :
    (layout : Sm120Nvfp4SourceLayout) (unit row_bytes : ℕ) (source : ℕ → ℕ) (t k r b : ℕ)
    → t < layout.row_tiles
    → k < layout.k_blocks
    → r < 8
    → t * 8 + r < layout.rows
    → b + 3 < unit
    → load_little_u32
        (tile_tiles layout unit row_bytes source layout.row_tiles 0 (λ j. 0))
        (destination_offset layout unit row_bytes source (t * 8) k r + b)
      ≡ load_little_u32 source ((t * 8 + r) * row_bytes + k * unit + b)
tiled_word layout unit row_bytes source t k r b h h' low inside small =
    load_little_u32-eq (tile_tiles layout unit row_bytes source layout.row_tiles 0 (λ j. 0)) source
      (destination_offset layout unit row_bytes source (t * 8) k r)
      ((t * 8 + r) * row_bytes + k * unit) b
      (λ i below.
        tiled_byte layout unit row_bytes source t k r (b + i) (λ j. 0) h h' low inside
          (omega (arith, below, small)))

module _ (rows columns : ℕ) (weights scales : Buffer) where
  abbrev tiled_weights : Buffer
  tiled_weights = record {
    size = rows * columns / 2;
    byte =
        tile_tiles (planned rows columns) 32 (columns / 2) weights.byte ((rows + 8 - 1) / 8) 0
          (λ j. 0);
  }

  abbrev tiled_scales : Buffer
  tiled_scales = record {
    size = rows * columns / 16;
    byte =
        tile_tiles (planned rows columns) 4 (columns / 16) scales.byte ((rows + 8 - 1) / 8) 0
          (λ j. 0);
  }

  load_active-planned :
      (t k lane : ℕ)
      → t < (rows + 8 - 1) / 8
      → k < columns / 64
      → lane < 32
      → t * 8 + lane / 4 < rows
      → load_active (planned rows columns) tiled_weights tiled_scales t k lane ≡ record {
        packed_low =
            load_little_u32 weights.byte
              ((t * 8 + lane / 4) * (columns / 2) + k * 32 + lane % 4 * 4);
        packed_high =
            load_little_u32 weights.byte
              ((t * 8 + lane / 4) * (columns / 2) + k * 32 + (lane % 4 * 4 + 16));
        packed_scales =
            load_little_u32 scales.byte ((t * 8 + lane / 4) * (columns / 16) + k * 4 + 0);
        source_row = t * 8 + lane / 4;
        active = true;
      }
  unfolding load_active
  load_active-planned t k lane h h' g inside = λ i. record {
    packed_low = low i;
    packed_high =
        (ap (load_little_u32 tiled_weights.byte) (regroup weight_place (lane % 4 * 4) 16) ∙ high) i;
    packed_scales =
        (ap (load_little_u32 tiled_scales.byte) (sym (plus_zero scale_place)) ∙ scale) i;
    source_row = t * 8 + lane / 4;
    active = true;
  }
    where
      regroup : (x b c : ℕ) → x + b + c ≡ x + (b + c)
      regroup x b c = omega arith

      plus_zero : (x : ℕ) → x + 0 ≡ x
      plus_zero x = omega arith

      weight_place : ℕ
      weight_place =
          destination_offset (planned rows columns) 32 (columns / 2) weights.byte (t * 8) k
            (lane / 4)

      scale_place : ℕ
      scale_place =
          destination_offset (planned rows columns) 4 (columns / 16) scales.byte (t * 8) k
            (lane / 4)

      low :
          load_little_u32 tiled_weights.byte (weight_place + lane % 4 * 4)
          ≡ load_little_u32 weights.byte
              ((t * 8 + lane / 4) * (columns / 2) + k * 32 + lane % 4 * 4)
      low =
          tiled_word (planned rows columns) 32 (columns / 2) weights.byte t k (lane / 4)
            (lane % 4 * 4) h h' (omega (arith, g)) inside (omega arith)

      high :
          load_little_u32 tiled_weights.byte (weight_place + (lane % 4 * 4 + 16))
          ≡ load_little_u32 weights.byte
              ((t * 8 + lane / 4) * (columns / 2) + k * 32 + (lane % 4 * 4 + 16))
      high =
          tiled_word (planned rows columns) 32 (columns / 2) weights.byte t k (lane / 4)
            (lane % 4 * 4 + 16) h h' (omega (arith, g)) inside (omega arith)

      scale :
          load_little_u32 tiled_scales.byte (scale_place + 0)
          ≡ load_little_u32 scales.byte ((t * 8 + lane / 4) * (columns / 16) + k * 4 + 0)
      scale =
          tiled_word (planned rows columns) 4 (columns / 16) scales.byte t k (lane / 4) 0 h h'
            (omega (arith, g)) inside (omega arith)

-- A layout made for a matrix, both buffers tiled and a lane loaded: for a matrix of positive
-- dimensions, with a whole number of K blocks and a size that fits 64 bits, and buffers of its size,
-- no step is refused, and every lane in range gets exactly the weights and scales of its row and K
-- block of the row-major matrix; a lane past the last row is inactive and gets zeros.
pub load_lane_fragment-tile :
    (rows columns : ℕ) (weights scales : Buffer) (t k lane : ℕ)
    → 0 < rows
    → 0 < columns
    → columns % 64 ≡ 0
    → rows * columns < 2 ^ 64
    → weights.size ≡ rows * columns / 2
    → scales.size ≡ rows * columns / 16
    → t < (rows + 8 - 1) / 8
    → k < columns / 64
    → lane < 32
    → (do
      layout ← plan_source_layout rows columns
      w ← tile_weights layout weights
      s ← tile_weight_scales layout scales
      load_lane_fragment layout w s t k lane)
      ≡ ok (lane_of_matrix rows columns weights scales t k lane)
load_lane_fragment-tile rows columns weights scales t k lane p q blocks fits e e' h h' g =
    rw (plan-planned rows columns p q blocks fits) (
      rw (tile_weights-planned rows columns p q blocks fits weights e) (
        rw (tile_weight_scales-planned rows columns p q blocks fits scales e') (
          rw
            (load_lane_fragment-planned rows columns p q blocks fits
              (tiled_weights rows columns weights scales) (tiled_scales rows columns weights scales)
              t k lane refl refl h h' g)
            (elim (Bool-cases (leb rows (t * 8 + lane / 4))) [
              | inl past ↦ rw past refl
              | inr inside ↦ rw inside (
                  ap ok (
                    load_active-planned rows columns weights scales t k lane h h' g (ground arith)))
            ]))))
