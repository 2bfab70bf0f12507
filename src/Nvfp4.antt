-- ===== src/Nvfp4.antt =====
-- src/cuda/nvfp4/sm120_layout.{h,cpp}: the order in which NVFP4 weights and their scales lie in device
-- memory, and the host's model of what a lane of a warp loads from them.
--
-- A buffer is the list of its bytes. The dimensions are 64-bit numbers whose product is checked by
-- the plan; every offset below stays under it, so that no sum wraps.

pub mod Tiled
pub mod Lanes
mod Tests
use gem16gb.Prelude.{
  ℕ, zero, suc, ◌+◌, ◌-◌, ◌*◌, ◌/◌, ◌%◌, ◌^◌, min, Bool, true, false, not, ◌&&◌, ◌||◌, List, [],
  ◌∷◌, ◌++◌, ltb, leb, ◌==◌, if◌then◌else◌, length, get_or, set, replicate, String,
}
use gem16gb.Status.{Result, ok, err, fail, refuse_if, ◌>>=◌, ◌>>◌, invalid_argument}

pub record Sm120Nvfp4SourceLayout : Type 0 where
  pub rows : ℕ
  pub contracting_elements : ℕ
  pub row_tiles : ℕ
  pub k_blocks : ℕ
  pub packed_weight_bytes : ℕ
  pub scale_bytes : ℕ
  pub persistent_repack_bytes : ℕ

-- CheckedMultiply.
unfoldable pub checked_product : ℕ → ℕ → Result ℕ
checked_product left right =
    if not (right == 0) && ltb ((2 ^ 64 - 1) / right) left
    then fail invalid_argument "NVFP4 elements overflow"
    else ok (left * right)

unfoldable pub plan_source_layout : ℕ → ℕ → Result Sm120Nvfp4SourceLayout
unfolding checked_product
plan_source_layout rows contracting_elements = do
  refuse_if (rows == 0 || (contracting_elements == 0 || not (contracting_elements % 64 == 0)))
      invalid_argument
      "SM120 NVFP4 source layout requires positive dimensions and K divisible by 64"
  logical_elements ← checked_product rows contracting_elements
  ok (record {
    rows = rows;
    contracting_elements = contracting_elements;
    row_tiles = (rows + 8 - 1) / 8;
    k_blocks = contracting_elements / 64;
    packed_weight_bytes = logical_elements / 2;
    scale_bytes = logical_elements / 16;
    persistent_repack_bytes = 0;
  })

-- The test that the fields agree with the plan for the same dimensions.
abbrev pub is_consistent : Sm120Nvfp4SourceLayout → Sm120Nvfp4SourceLayout → Bool
is_consistent layout expected =
    layout.row_tiles == expected.row_tiles
    && (layout.k_blocks == expected.k_blocks
        && (layout.packed_weight_bytes == expected.packed_weight_bytes
            && (layout.scale_bytes == expected.scale_bytes && layout.persistent_repack_bytes == 0)))

unfoldable pub check_layout : Sm120Nvfp4SourceLayout → Result (Unit {0})
unfolding plan_source_layout
check_layout layout = do
  expected ← plan_source_layout layout.rows layout.contracting_elements
  refuse_if (not (is_consistent layout expected)) invalid_argument
      "SM120 NVFP4 source layout metadata is inconsistent"

-- A span of bytes: its size, and its bytes by offset.
pub record Buffer : Type 0 where
  pub size : ℕ
  pub byte : ℕ → ℕ

-- std::copy_n of `n` bytes from one buffer into another.
abbrev pub copy_n : (ℕ → ℕ) → ℕ → ℕ → (ℕ → ℕ) → ℕ → ℕ → ℕ
copy_n source from n target to j =
    if leb to j && ltb j (to + n) then source (from + (j - to)) else target j

-- The two functions that tile are one loop nest, at `unit` bytes for each K block: 32 packed weights,
-- or 4 scales.
module _ (layout : Sm120Nvfp4SourceLayout) (unit source_row_bytes : ℕ) (source : ℕ → ℕ) where
  abbrev pub tile_rows_of : ℕ → ℕ
  tile_rows_of first_row = min 8 (layout.rows - first_row)

  abbrev pub source_offset : ℕ → ℕ → ℕ → ℕ
  source_offset first_row k_block row = (first_row + row) * source_row_bytes + k_block * unit

  abbrev pub destination_offset : ℕ → ℕ → ℕ → ℕ
  destination_offset first_row k_block row =
      first_row * layout.k_blocks * unit + (k_block * tile_rows_of first_row + row) * unit

  -- `n` rows from `row` on; `n` K blocks from `k_block` on; `n` tiles from `row_tile` on.
  unfoldable pub tile_rows : ℕ → ℕ → ℕ → ℕ → (ℕ → ℕ) → ℕ → ℕ
  tile_rows zero first_row k_block row tiled = tiled
  tile_rows (suc n) first_row k_block row tiled = tile_rows n first_row k_block (suc row) (
      copy_n source (source_offset first_row k_block row) unit tiled
        (destination_offset first_row k_block row))

  unfoldable pub tile_blocks : ℕ → ℕ → ℕ → (ℕ → ℕ) → ℕ → ℕ
  unfolding tile_rows
  tile_blocks zero first_row k_block tiled = tiled
  tile_blocks (suc n) first_row k_block tiled =
      tile_blocks n first_row (suc k_block)
        (tile_rows (tile_rows_of first_row) first_row k_block 0 tiled)

  unfoldable pub tile_tiles : ℕ → ℕ → (ℕ → ℕ) → ℕ → ℕ
  unfolding tile_blocks
  tile_tiles zero row_tile tiled = tiled
  tile_tiles (suc n) row_tile tiled =
      tile_tiles n (suc row_tile) (tile_blocks layout.k_blocks (row_tile * 8) 0 tiled)

unfoldable pub tile_weights : Sm120Nvfp4SourceLayout → Buffer → Result Buffer
unfolding check_layout tile_tiles
tile_weights layout source = do
  check_layout layout
  refuse_if (not (source.size == layout.packed_weight_bytes)) invalid_argument
      "SM120 NVFP4 source weights do not match the planned byte count"
  ok (record {
    size = layout.packed_weight_bytes;
    byte =
        tile_tiles layout 32 (layout.contracting_elements / 2) source.byte layout.row_tiles 0
          (λ j. 0);
  })

unfoldable pub tile_weight_scales : Sm120Nvfp4SourceLayout → Buffer → Result Buffer
unfolding check_layout tile_tiles
tile_weight_scales layout source = do
  check_layout layout
  refuse_if (not (source.size == layout.scale_bytes)) invalid_argument
      "SM120 NVFP4 source scales do not match the planned byte count"
  ok (record {
    size = layout.scale_bytes;
    byte =
        tile_tiles layout 4 (layout.contracting_elements / 16) source.byte layout.row_tiles 0
          (λ j. 0);
  })

-- LoadLittleU32: four bytes that do not overlap, so that `|` is a sum.
abbrev pub load_little_u32 : (ℕ → ℕ) → ℕ → ℕ
load_little_u32 source offset =
    source offset
    + source (offset + 1) * 2 ^ 8
    + source (offset + 2) * 2 ^ 16
    + source (offset + 3) * 2 ^ 24

pub record Sm120Nvfp4WeightLaneFragment : Type 0 where
  pub packed_low : ℕ
  pub packed_high : ℕ
  pub packed_scales : ℕ
  pub source_row : ℕ
  pub active : Bool

-- The three loads of an active lane.
unfoldable pub load_active :
    Sm120Nvfp4SourceLayout → Buffer → Buffer → ℕ → ℕ → ℕ → Sm120Nvfp4WeightLaneFragment
load_active layout weights scales row_tile k_block lane =
    let first_row = row_tile * 8 in
    let tile_rows = min 8 (layout.rows - first_row) in
    let first_offset =
      first_row * layout.k_blocks * 32 + (k_block * tile_rows + lane / 4) * 32 + lane % 4 * 4 in
    let scale_offset = first_row * layout.k_blocks * 4 + (k_block * tile_rows + lane / 4) * 4 in
    record {
      packed_low = load_little_u32 weights.byte first_offset;
      packed_high = load_little_u32 weights.byte (first_offset + 16);
      packed_scales = load_little_u32 scales.byte scale_offset;
      source_row = row_tile * 8 + lane / 4;
      active = true;
    }

unfoldable pub load_lane_fragment :
    Sm120Nvfp4SourceLayout → Buffer → Buffer → ℕ → ℕ → ℕ → Result Sm120Nvfp4WeightLaneFragment
unfolding check_layout load_active
load_lane_fragment layout weights scales row_tile k_block lane = do
  check_layout layout
  refuse_if
      (not (weights.size == layout.packed_weight_bytes) || not (scales.size == layout.scale_bytes))
      invalid_argument "SM120 NVFP4 source buffers do not match the planned byte counts"
  refuse_if (leb layout.row_tiles row_tile || (leb layout.k_blocks k_block || leb 32 lane))
      invalid_argument "SM120 NVFP4 lane-fragment coordinate is out of range"
  ok (
      if leb layout.rows (row_tile * 8 + lane / 4)
      then record {
        packed_low = 0;
        packed_high = 0;
        packed_scales = 0;
        source_row = row_tile * 8 + lane / 4;
        active = false;
      }
      else load_active layout weights scales row_tile k_block lane)
