-- ===== src/Safetensors/Directory/Tests.antt =====
-- LoadSafetensorsDirectory over a small file system of two shards and an index.
use gem16gb.Prelude.{
  ℕ, ◌≡◌, refl, true, false, Option, none, List, [], ◌∷◌, ◌++◌, replicate, if◌then◌else◌,
}
use gem16gb.Status.{ok, fail, data_loss}
use gem16gb.Safetensors.{StoredTensor, codes, bytes_eq, alignment_of}
use gem16gb.Safetensors.Directory.{
  FileSystem, index_name, find_files, take_files, sort_by_name, load_safetensors_directory,
}
use gem16gb.Safetensors.Directory.Merge.{AreAscending}
use gem16gb.Safetensors.Directory.Agreement.{Matches, load_safetensors_directory-Matches}

abbrev no_strtod : List ℕ → Option ℕ
no_strtod token = none

-- A file with one tensor of one byte; its header has 53 bytes.
abbrev file_of : List ℕ → List ℕ
file_of header = 53 ∷ (replicate 7 0 ++ (header ++ 9 ∷ []))

-- The tensor a lies in the file y, and b in x; the index is given.
abbrev disk : List ℕ → FileSystem
unfolding bytes_eq
disk index = record {
  resolves = true;
  is_regular_file = λ name. true;
  lies_inside = λ name. true;
  canonical_name = λ name. name;
  contents = λ name.
      if bytes_eq name index_name
      then ok index
      else if bytes_eq name (codes "x")
      then ok (file_of (codes "{\"b\":{\"dtype\":\"U8\",\"shape\":[1],\"data_offsets\":[0,1]}}"))
      else ok (file_of (codes "{\"a\":{\"dtype\":\"U8\",\"shape\":[1],\"data_offsets\":[0,1]}}"));
  is_unsafe = λ name. false;
}

abbrev one_byte : List ℕ → List ℕ → StoredTensor
one_byte name shard = record {
  name = name;
  shape = 1 ∷ [];
  dtype = codes "U8";
  absolute_offset = 61;
  length = 1;
  alignment = alignment_of 61;
  shard = shard;
}

abbrev both : List StoredTensor
both = one_byte (codes "a") (codes "y") ∷ one_byte (codes "b") (codes "x") ∷ []

abbrev right_index : List ℕ
right_index = codes "{\"weight_map\":{\"a\":\"y\",\"b\":\"x\"}}"

loads_both : load_safetensors_directory no_strtod (disk right_index) ≡ ok both
unfolding load_safetensors_directory find_files take_files sort_by_name
    gem16gb.Json.Strings.parse_string
loads_both = refl

load_safetensors_directory-Matches_example :
    AreAscending both
    × ((index : List (List ℕ × List ℕ)) × (names : List (List ℕ)) × (find_files no_strtod
            (disk right_index)
          ≡ ok (index, names))
        × Matches index both)
load_safetensors_directory-Matches_example =
    load_safetensors_directory-Matches no_strtod (disk right_index) both loads_both

-- The index gives the shards the other way round.
wrong_index :
    load_safetensors_directory no_strtod (disk (codes "{\"weight_map\":{\"a\":\"x\",\"b\":\"y\"}}"))
    ≡ fail data_loss "tensor/index shard disagreement: "
unfolding load_safetensors_directory find_files take_files sort_by_name
    gem16gb.Json.Strings.parse_string
wrong_index = refl

-- The index has an entry without a tensor.
missing_tensor :
    load_safetensors_directory no_strtod
      (disk (codes "{\"weight_map\":{\"a\":\"y\",\"b\":\"x\",\"c\":\"x\"}}"))
    ≡ fail data_loss "Safetensors index and shard tensor counts disagree"
unfolding load_safetensors_directory find_files take_files sort_by_name
    gem16gb.Json.Strings.parse_string
missing_tensor = refl
