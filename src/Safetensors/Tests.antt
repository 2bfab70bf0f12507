-- ===== src/Safetensors/Tests.antt =====
-- LoadFile at small files, and the theorems about it at concrete inputs.
use gem16gb.Prelude.{
  ℕ, ◌*◌, ◌^◌, ◌<◌, ◌≡◌, refl, ◌↔◌, false, Option, none, List, [], ◌∷◌, ◌++◌, replicate, arith,
}
use gem16gb.Status.{ok, fail, data_loss}
use gem16gb.Memory.Checked.{product}
use gem16gb.Safetensors.{StoredTensor, codes, tensor_bytes, alignment_of, sort, overlaps, load_file}
use gem16gb.Safetensors.Sizes.{tensor_bytes_iff}
use gem16gb.Safetensors.Overlap.{AreDisjoint, overlaps-sort_iff}
use gem16gb.Safetensors.Loaded.{AreStored, AreSeparate, load_file-AreStored}

abbrev no_strtod : List ℕ → Option ℕ
no_strtod token = none

-- Two bytes and a float behind a header of 106 bytes.
abbrev two_tensors : List ℕ
two_tensors =
    106
    ∷ (replicate 7 0
        ++ (codes
              "{\"a\":{\"dtype\":\"U8\",\"shape\":[2],\"data_offsets\":[0,2]},\"b\":{\"dtype\":\"F32\",\"shape\":[1],\"data_offsets\":[2,6]}}"
            ++ replicate 6 9))

abbrev stored : List StoredTensor
stored =
    record {
      name = codes "a";
      shape = 2 ∷ [];
      dtype = codes "U8";
      absolute_offset = 114;
      length = 2;
      alignment = alignment_of 114;
      shard = codes "m";
    }
    ∷ record {
      name = codes "b";
      shape = 1 ∷ [];
      dtype = codes "F32";
      absolute_offset = 116;
      length = 4;
      alignment = alignment_of 116;
      shard = codes "m";
    }
    ∷ []

two_tensors-load : load_file no_strtod (codes "m") two_tensors ≡ ok stored
unfolding load_file gem16gb.Json.Strings.parse_string
two_tensors-load = refl

load_file-AreStored_example : AreStored two_tensors stored × AreSeparate stored
load_file-AreStored_example =
    load_file-AreStored no_strtod (codes "m") two_tensors stored two_tensors-load

-- The float begins inside the first tensor.
overlapping_tensors :
    load_file no_strtod (codes "m") (
      106
      ∷ (replicate 7 0
          ++ (codes
                "{\"a\":{\"dtype\":\"U8\",\"shape\":[2],\"data_offsets\":[0,2]},\"b\":{\"dtype\":\"F32\",\"shape\":[1],\"data_offsets\":[1,5]}}"
              ++ replicate 6 9)))
    ≡ fail data_loss "overlapping tensor payload ranges in "
unfolding load_file gem16gb.Json.Strings.parse_string
overlapping_tensors = refl

overlaps-sort_iff_example :
    (overlaps (sort ((4, 6) ∷ (0, 4) ∷ [])) ≡ false) ↔ AreDisjoint ((4, 6) ∷ (0, 4) ∷ [])
overlaps-sort_iff_example =
    overlaps-sort_iff ((4, 6) ∷ (0, 4) ∷ []) (omega arith, (omega arith, tt))

tensor_bytes_iff_example :
    (tensor_bytes (3 ∷ 5 ∷ []) 2 ≡ ok 30)
    ↔ ((◌≡◌ {A = ℕ} 30 (product (3 ∷ 5 ∷ []) * 2)) × (product (3 ∷ 5 ∷ []) * 2 < 2 ^ 64))
tensor_bytes_iff_example = tensor_bytes_iff (3 ∷ 5 ∷ []) 2 30 (omega arith) (omega arith)
