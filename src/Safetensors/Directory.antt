-- ===== src/Safetensors/Directory.antt =====
-- LoadIndex and LoadSafetensorsDirectory of src/model/safetensors.cpp: the shards of a checkpoint are
-- put together and held against the index.
--
-- A path is the list of its bytes. What the source asks of std::filesystem and of the mapped files is
-- the record `FileSystem`, an argument. A std::map and a std::set are lists in the order of
-- their keys.
pub mod Merge
pub mod Agreement
mod Tests
use gem16gb.Prelude
use gem16gb.Prelude.{
  ℕ, ◌*◌, Bool, true, false, not, ◌&&◌, ◌||◌, Option, none, some, List, [], ◌∷◌, ◌++◌, ltb, ◌==◌,
  if◌then◌else◌, String,
}
use gem16gb.Status.{
  StatusCode, Result, ok, err, fail, refuse_if, ◌>>=◌, ◌>>◌, data_loss, io_error, not_found,
}
use gem16gb.Json.Value.{Value, Members, empty, entry, find, key_less}
use gem16gb.Json.Parse.{ParseLimits, parse}
use gem16gb.Safetensors.{
  StoredTensor, codes, bytes_eq, string_of, object_of, require, parsed_value, load_file,
}

-- std::filesystem, for one model directory. Paths of files in the directory are given by their name.
pub record FileSystem : Type 0 where
  -- canonical(model_directory) succeeds.
  pub resolves : Bool
  pub is_regular_file : List ℕ → Bool
  -- canonical(file) succeeds and its parent is the canonical directory.
  pub lies_inside : List ℕ → Bool
  -- The file name of canonical(file).
  pub canonical_name : List ℕ → List ℕ
  -- The bytes of a mapped file.
  pub contents : List ℕ → Result (List ℕ)
  -- empty(), is_absolute(), has_parent_path() or an extension other than ".safetensors".
  pub is_unsafe : List ℕ → Bool

abbrev pub max_index_bytes : ℕ
max_index_bytes = 256 * 1024 * 1024

abbrev pub index_limits : ParseLimits
index_limits = record { max_depth = 32; max_values = 2000000; max_string_bytes = max_index_bytes }

abbrev pub index_name : List ℕ
index_name = codes "model.safetensors.index.json"

abbrev pub single_name : List ℕ
single_name = codes "model.safetensors"

abbrev pub members_of : Option Value → Option Members
members_of none = none
members_of (some value) = object_of value

unfoldable pub read_small_text : FileSystem → List ℕ → ℕ → Result (List ℕ)
read_small_text files path limit = do
  bytes ← files.contents path
  refuse_if (ltb limit (Prelude.length bytes)) data_loss "file exceeds safety limit: "
  ok bytes

-- The loop over the weight map; the keys come in order, so that emplace puts each at the end.
unfoldable pub read_weight_map : FileSystem → Members → Result (List (List ℕ × List ℕ))
read_weight_map files empty = ok []
read_weight_map files (entry tensor shard_value rest) =
    let more = read_weight_map files rest in
    require (string_of (some shard_value)) "index shard name must be a string: " >>= (λ shard.
      refuse_if (files.is_unsafe shard) data_loss "unsafe shard path in index: "
      >> (more >>= (λ others. ok ((tensor, shard) ∷ others))))

unfoldable pub load_index :
    (List ℕ → Option ℕ) → FileSystem → List ℕ → Result (List (List ℕ × List ℕ))
unfolding read_small_text read_weight_map parse find
load_index strtod files path = do
  text ← read_small_text files path max_index_bytes
  root ← parsed_value (parse strtod index_limits text)
  weight_map ←
      require (members_of (find (codes "weight_map") root))
        "Safetensors index must contain an object weight_map: "
  read_weight_map files weight_map

-- std::set::insert, of an element that is new.
unfoldable pub insert_name : List ℕ → List (List ℕ) → List (List ℕ)
unfolding key_less
insert_name name [] = name ∷ []
insert_name name (head ∷ rest) =
    if key_less head name
    then head ∷ insert_name name rest
    else if key_less name head
    then name ∷ (head ∷ rest)
    else head ∷ rest

unfoldable pub unique_files : List (List ℕ × List ℕ) → List (List ℕ)
unfolding insert_name
unique_files [] = []
unique_files ((tensor, file) ∷ index) = insert_name file (unique_files index)

-- Which files to read, and the index; a directory without one holds a single file.
unfoldable pub find_files :
    (List ℕ → Option ℕ) → FileSystem → Result (List (List ℕ × List ℕ) × List (List ℕ))
unfolding load_index unique_files
find_files strtod files =
    if files.is_regular_file index_name
    then load_index strtod files index_name >>= (λ index. ok (index, unique_files index))
    else if files.is_regular_file single_name
    then ok ([], single_name ∷ [])
    else fail not_found
        "model directory has neither model.safetensors nor model.safetensors.index.json: "

-- tensor_names.contains(name)
abbrev pub has_name : List ℕ → List StoredTensor → Bool
has_name name [] = false
has_name name (t ∷ ts) = let rest = has_name name ts in bytes_eq t.name name || rest

-- index.find(name)
unfoldable pub assignment_of : List ℕ → List (List ℕ × List ℕ) → Option (List ℕ)
unfolding bytes_eq
assignment_of name [] = none
assignment_of name ((tensor, shard) ∷ index) =
    let rest = assignment_of name index in if bytes_eq tensor name then some shard else rest

-- assignment == index.end() || assignment->second != shard
unfoldable pub differs : Option (List ℕ) → List ℕ → Bool
unfolding bytes_eq
differs none shard = true
differs (some assigned) shard = not (bytes_eq assigned shard)

-- Whether the index gives the tensor another shard, or none; an empty index is not asked.
unfoldable pub disagrees : List (List ℕ × List ℕ) → StoredTensor → Bool
unfolding assignment_of differs
disagrees [] t = false
disagrees (first ∷ index) t = differs (assignment_of t.name (first ∷ index)) t.shard

-- The loop over the tensors of one file; `result` holds those that were taken, the last one first,
-- and stands for the set of their names as well.
unfoldable pub take_tensors :
    List (List ℕ × List ℕ) → List StoredTensor → List StoredTensor → Result (List StoredTensor)
unfolding disagrees
take_tensors index result [] = ok result
take_tensors index result (t ∷ ts) =
    let further = take_tensors index (t ∷ result) ts in
    refuse_if (has_name t.name result) data_loss "duplicate tensor across shards: "
    >> (refuse_if (disagrees index t) data_loss "tensor/index shard disagreement: " >> further)

-- The loop over the files.
unfoldable pub take_files :
    (List ℕ → Option ℕ)
    → FileSystem
    → List (List ℕ × List ℕ)
    → List StoredTensor
    → List (List ℕ)
    → Result (List StoredTensor)
unfolding take_tensors load_file
take_files strtod files index result [] = ok result
take_files strtod files index result (file ∷ rest) = do
  refuse_if (not (files.is_regular_file file)) not_found "Safetensors shard is missing: "
  refuse_if (not (files.lies_inside file)) data_loss
      "Safetensors shard resolves outside the model directory: "
  bytes ← files.contents file
  tensors ← load_file strtod (files.canonical_name file) bytes
  taken ← take_tensors index result tensors
  take_files strtod files index taken rest

-- std::sort by name.
unfoldable pub insert_by_name : StoredTensor → List StoredTensor → List StoredTensor
unfolding key_less
insert_by_name t [] = t ∷ []
insert_by_name t (head ∷ rest) =
    if key_less head.name t.name then head ∷ insert_by_name t rest else t ∷ (head ∷ rest)

unfoldable pub sort_by_name : List StoredTensor → List StoredTensor
unfolding insert_by_name
sort_by_name [] = []
sort_by_name (t ∷ ts) = insert_by_name t (sort_by_name ts)

abbrev pub counts_differ : List (List ℕ × List ℕ) → List StoredTensor → Bool
counts_differ [] tensors = false
counts_differ (first ∷ index) tensors =
    not (Prelude.length tensors == Prelude.length (first ∷ index))

unfoldable pub load_safetensors_directory :
    (List ℕ → Option ℕ) → FileSystem → Result (List StoredTensor)
load_safetensors_directory strtod files = do
  refuse_if (not files.resolves) io_error "cannot resolve model directory: "
  found ← find_files strtod files
  result ← take_files strtod files found.0 [] found.1
  refuse_if (counts_differ found.0 result) data_loss
      "Safetensors index and shard tensor counts disagree"
  ok (sort_by_name result)
