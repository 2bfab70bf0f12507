-- ===== src/Safetensors.antt =====
-- src/model/safetensors.{h,cpp}: reading one Safetensors file, whose header is a JSON object from tensor
-- names to types, shapes and byte ranges.
--
-- A file is the list of its bytes, and a name the list of its bytes. Where the source puts the
-- path or the tensor's name into a message, the model keeps the fixed part of the message.
pub mod Sizes
pub mod Overlap
pub mod Loaded
pub mod Directory
mod Tests
use Prim.Native.Char.{code}
use gem16gb.Prelude
use gem16gb.Prelude.{
  ℕ, zero, suc, ◌+◌, ◌-◌, ◌*◌, ◌/◌, ◌%◌, ◌^◌, Bool, true, false, not, ◌&&◌, ◌||◌, Option, none,
  some, List, [], ◌∷◌, ltb, leb, ◌==◌, if◌then◌else◌, take, drop, String,
}
use gem16gb.Status.{
  StatusCode, Result, ok, err, fail, refuse_if, ◌>>=◌, ◌>>◌, data_loss, unsupported,
}
use gem16gb.Json.Strings.{Parsed, parsed, failed}
use gem16gb.Json.Value.{
  ℤ, pos, negsuc, Value, integer, string, array, object, Items, nil, cons, Members, empty, entry,
  find, key_less,
}
use gem16gb.Json.Parse.{ParseLimits, parse}

-- The bytes of a literal.
abbrev pub codes : String → List ℕ
codes String.[] = []
codes (String.◌∷◌ c s) = code c ∷ codes s

unfoldable pub bytes_eq : List ℕ → List ℕ → Bool
bytes_eq [] [] = true
bytes_eq [] (y ∷ right) = false
bytes_eq (x ∷ left) [] = false
bytes_eq (x ∷ left) (y ∷ right) = let rest = bytes_eq left right in x == y && rest

pub record StoredTensor : Type 0 where
  pub name : List ℕ
  pub shape : List ℕ
  pub dtype : List ℕ
  pub absolute_offset : ℕ
  pub length : ℕ
  pub alignment : ℕ
  pub shard : List ℕ

abbrev pub max_header_bytes : ℕ
max_header_bytes = 256 * 1024 * 1024

-- ReadLittleEndian64: the bytes do not overlap, so that `|` is a sum.
abbrev little_endian : List ℕ → ℕ
little_endian [] = 0
little_endian (byte ∷ rest) = byte + 2 ^ 8 * little_endian rest

abbrev pub read_little_endian64 : List ℕ → ℕ
read_little_endian64 bytes = little_endian (take 8 bytes)

abbrev is_any_of : List ℕ → List String → Bool
unfolding bytes_eq
is_any_of text [] = false
is_any_of text (name ∷ names) =
    let rest = is_any_of text names in bytes_eq text (codes name) || rest

unfoldable pub dtype_bytes : List ℕ → Result ℕ
unfolding bytes_eq is_any_of
dtype_bytes dtype =
    if is_any_of dtype ("BOOL" ∷ "I8" ∷ "U8" ∷ "F8_E4M3" ∷ "F8_E5M2" ∷ [])
    then ok 1
    else if is_any_of dtype ("I16" ∷ "U16" ∷ "F16" ∷ "BF16" ∷ [])
    then ok 2
    else if is_any_of dtype ("I32" ∷ "U32" ∷ "F32" ∷ [])
    then ok 4
    else if is_any_of dtype ("I64" ∷ "U64" ∷ "F64" ∷ [])
    then ok 8
    else fail unsupported "unsupported Safetensors dtype: "

-- The loop of TensorBytes, from the product so far.
unfoldable pub shape_product : ℕ → List ℕ → Result ℕ
shape_product elements [] = ok elements
shape_product elements (dimension ∷ shape) =
    let more = shape_product (elements * dimension % 2 ^ 64) shape in
    if not (dimension == 0) && ltb ((2 ^ 64 - 1) / dimension) elements
    then fail data_loss "tensor shape product overflows uint64"
    else more

unfoldable pub tensor_bytes : List ℕ → ℕ → Result ℕ
unfolding shape_product
tensor_bytes shape element_bytes = do
  elements ← shape_product 1 shape
  refuse_if (not (element_bytes == 0) && ltb ((2 ^ 64 - 1) / element_bytes) elements) data_loss
      "tensor byte count overflows uint64"
  ok (elements * element_bytes % 2 ^ 64)

-- Alignment: `n` candidates from `power` down; the loop stops before 1.
unfoldable pub alignment_from : ℕ → ℕ → ℕ → ℕ
alignment_from zero power offset = 1
alignment_from (suc n) power offset =
    let lower = alignment_from n (power / 2) offset in if offset % power == 0 then power else lower

unfoldable pub alignment_of : ℕ → ℕ
unfolding alignment_from
alignment_of offset = alignment_from 12 4096 offset

-- is_integer() with as_integer() >= 0, is_string(), is_array() and is_object(), with what they hold.
abbrev pub non_negative : Value → Option ℕ
non_negative (integer (pos n)) = some n
non_negative value = none

abbrev pub string_of : Option Value → Option (List ℕ)
string_of (some (string text)) = some text
string_of value = none

abbrev pub array_of : Option Value → Option Items
array_of (some (array items)) = some items
array_of value = none

abbrev pub object_of : Value → Option Members
object_of (object members) = some members
object_of value = none

abbrev pub require {ℓ} : {A : Type ℓ} → Option A → String → Result A
require none message = fail data_loss message
require (some a) message = ok a

unfoldable pub read_shape : Items → Result (List ℕ)
read_shape nil = ok []
read_shape (cons dimension rest) = do
  n ← require (non_negative dimension) "tensor shape contains a non-negative-integer violation: "
  more ← read_shape rest
  ok (n ∷ more)

unfoldable pub read_offsets : Items → Result (ℕ × ℕ)
read_offsets (cons begin_value (cons end_value nil)) = do
  begin ← require (non_negative begin_value) "invalid data_offsets: "
  end ← require (non_negative end_value) "invalid data_offsets: "
  refuse_if (ltb end begin) data_loss "invalid data_offsets: "
  ok (begin, end)
read_offsets nil = fail data_loss "data_offsets must contain two integers: "
read_offsets (cons first nil) = fail data_loss "data_offsets must contain two integers: "
read_offsets (cons first (cons second (cons third rest))) =
    fail data_loss "data_offsets must contain two integers: "

-- The checks on one tensor whose fields have been read.
unfoldable pub store_tensor :
    ℕ → ℕ → List ℕ → List ℕ → List ℕ → List ℕ → ℕ → ℕ → Result StoredTensor
unfolding dtype_bytes tensor_bytes
store_tensor data_base payload_size shard name dtype shape begin end = do
  refuse_if (ltb payload_size end) data_loss "tensor extends beyond Safetensors payload: "
  element_bytes ← dtype_bytes dtype
  expected_bytes ← tensor_bytes shape element_bytes
  refuse_if (not (end - begin == expected_bytes)) data_loss
      "tensor byte length does not match dtype and shape: "
  ok (record {
    name = name;
    shape = shape;
    dtype = dtype;
    absolute_offset = data_base + begin;
    length = end - begin;
    alignment = alignment_of (data_base + begin);
    shard = shard;
  })

-- The body of the loop for an entry that is not `__metadata__`: the tensor, and where it begins and ends.
unfoldable pub load_tensor : ℕ → ℕ → List ℕ → List ℕ → Value → Result (StoredTensor × (ℕ × ℕ))
unfolding read_shape read_offsets store_tensor find
load_tensor data_base payload_size shard name metadata = do
  fields ← require (object_of metadata) "tensor metadata must be an object: "
  dtype ← require (string_of (find (codes "dtype") metadata)) "incomplete tensor metadata: "
  shape_items ← require (array_of (find (codes "shape") metadata)) "incomplete tensor metadata: "
  offset_items ←
      require (array_of (find (codes "data_offsets") metadata)) "incomplete tensor metadata: "
  shape ← read_shape shape_items
  offsets ← read_offsets offset_items
  tensor ← store_tensor data_base payload_size shard name dtype shape offsets.0 offsets.1
  ok (tensor, offsets)

-- `if (end > begin) intervals.emplace_back(begin, end);`
abbrev pub add_interval : ℕ × ℕ → List (ℕ × ℕ) → List (ℕ × ℕ)
add_interval interval intervals =
    if ltb interval.0 interval.1 then interval ∷ intervals else intervals

unfoldable pub load_entries : ℕ → ℕ → List ℕ → Members → Result (List StoredTensor × List (ℕ × ℕ))
unfolding load_tensor bytes_eq
load_entries data_base payload_size shard empty = ok ([], [])
load_entries data_base payload_size shard (entry name metadata rest) =
    let further = load_entries data_base payload_size shard rest in
    if bytes_eq name (codes "__metadata__")
    then require (object_of metadata) "Safetensors __metadata__ must be an object"
      >>= (λ checked. further)
    else load_tensor data_base payload_size shard name metadata
      >>= (λ loaded. further >>= (λ more. ok (loaded.0 ∷ more.0, add_interval loaded.1 more.1)))

-- std::sort of pairs.
abbrev pub pair_less : ℕ × ℕ → ℕ × ℕ → Bool
pair_less left right = ltb left.0 right.0 || (not (ltb right.0 left.0) && ltb left.1 right.1)

unfoldable pub insert_sorted : ℕ × ℕ → List (ℕ × ℕ) → List (ℕ × ℕ)
insert_sorted interval [] = interval ∷ []
insert_sorted interval (head ∷ rest) =
    if pair_less head interval then head ∷ insert_sorted interval rest else interval ∷ (head ∷ rest)

unfoldable pub sort : List (ℕ × ℕ) → List (ℕ × ℕ)
unfolding insert_sorted
sort [] = []
sort (interval ∷ rest) = insert_sorted interval (sort rest)

-- The loop over neighbours: whether one begins before the one in front of it ends.
unfoldable pub overlaps_from : ℕ → List (ℕ × ℕ) → Bool
overlaps_from end [] = false
overlaps_from end (interval ∷ rest) =
    let further = overlaps_from interval.1 rest in if ltb interval.0 end then true else further

unfoldable pub overlaps : List (ℕ × ℕ) → Bool
unfolding overlaps_from
overlaps [] = false
overlaps (interval ∷ rest) = overlaps_from interval.1 rest

abbrev pub header_limits : ParseLimits
header_limits = record { max_depth = 64; max_values = 2000000; max_string_bytes = max_header_bytes }

abbrev pub parsed_value : Option (Parsed Value) → Result Value
parsed_value none = fail data_loss "JSON document exceeds configured byte limit"
parsed_value (some (failed at message)) = fail data_loss message
parsed_value (some (parsed value c)) = ok value

-- LoadFile, on the bytes of the mapped file.
unfoldable pub load_file : (List ℕ → Option ℕ) → List ℕ → List ℕ → Result (List StoredTensor)
unfolding load_entries sort overlaps parse
load_file strtod shard file = do
  refuse_if (ltb (Prelude.length file) 8) data_loss
      "Safetensors file is shorter than its length prefix: "
  let header_length = read_little_endian64 file
  refuse_if
      (ltb header_length 2
        || (ltb max_header_bytes header_length || ltb (Prelude.length file - 8) header_length))
      data_loss "invalid Safetensors header length in "
  root ← parsed_value (parse strtod header_limits (take header_length (drop 8 file)))
  entries ← require (object_of root) "Safetensors header root must be an object: "
  let data_base = 8 + header_length
  loaded ← load_entries data_base (Prelude.length file - data_base) shard entries
  refuse_if (overlaps (sort loaded.1)) data_loss "overlapping tensor payload ranges in "
  ok loaded.0
