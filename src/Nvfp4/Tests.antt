-- ===== src/Nvfp4/Tests.antt =====
-- Runs of the NVFP4 weight layout at small matrices.
use gem16gb.Prelude.{◌+◌, ◌*◌, ◌^◌, ◌≡◌, refl, arith}
use gem16gb.Status.{ok, fail, ◌>>=◌, invalid_argument}
use gem16gb.Nvfp4.{
  Buffer, checked_product, plan_source_layout, tile_weights, tile_weight_scales, load_lane_fragment,
  check_layout, tile_tiles, load_active,
}
use gem16gb.Nvfp4.Lanes.{lane_of_matrix, load_lane_fragment-tile}

-- Nine rows of 64 elements: two tiles, the second of one row.
abbrev nine_rows : Buffer
nine_rows = record { size = 288; byte = λ j. j }

abbrev nine_scales : Buffer
nine_scales = record { size = 36; byte = λ j. j + 100 }

load_lane_fragment-tile_example :
    (do
      layout ← plan_source_layout 9 64
      w ← tile_weights layout nine_rows
      s ← tile_weight_scales layout nine_scales
      load_lane_fragment layout w s 1 0 2)
    ≡ ok (lane_of_matrix 9 64 nine_rows nine_scales 1 0 2)
load_lane_fragment-tile_example =
    load_lane_fragment-tile 9 64 nine_rows nine_scales 1 0 2 (omega arith) (omega arith) refl
      (omega arith) refl refl (omega arith) (omega arith) (omega arith)

-- The second block of a row of 128 columns: the tile holds block 0 of both rows before block 1.
second_block :
    (do
      layout ← plan_source_layout 2 128
      w ← tile_weights layout (record { size = 128; byte = λ j. j })
      s ← tile_weight_scales layout (record { size = 16; byte = λ j. j })
      fragment ← load_lane_fragment layout w s 0 1 5
      ok fragment.packed_scales)
    ≡ ok (12 + 13 * 2 ^ 8 + 14 * 2 ^ 16 + 15 * 2 ^ 24)
unfolding plan_source_layout checked_product tile_weights tile_weight_scales tile_tiles
    load_lane_fragment check_layout load_active
second_block = refl

odd_columns :
    plan_source_layout 2 65
    ≡ fail invalid_argument
        "SM120 NVFP4 source layout requires positive dimensions and K divisible by 64"
unfolding plan_source_layout
odd_columns = refl
