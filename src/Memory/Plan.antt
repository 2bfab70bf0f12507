-- ===== src/Memory/Plan.antt =====
-- BuildMemoryPlan of src/runtime/memory_plan.cpp, with its types from include/gem16/memory.h,
-- include/gem16/types.h and src/model/config.h (the fields that the planner reads).
pub mod Regions
pub mod Laws
pub mod Tests
use Prim.Native.String.{◌++◌ as str_append}
use gem16gb.Prelude.{
  ℕ, suc, ◌+◌, ◌-◌, ◌%◌, ◌^◌, ◌<◌, String, Bool, true, false, not, ◌||◌, List, [], ◌∷◌, ◌++◌, min,
  ltb, ◌==◌, if◌then◌else◌, length, str_eq,
}
use gem16gb.Status.{
  Result, Status, ok, err, fail, refuse_if, ◌>>=◌, ◌>>◌, invalid_argument, unsupported, data_loss,
}
use gem16gb.Memory.Checked.{checked_add, checked_multiply, is_power_of_two, align_up}

pub data ContextProfile : Type 0 where
  interactive standard long xlong maximal : ContextProfile

pub data KvStorage : Type 0 where
  unspecified shared separate : KvStorage

pub record MemoryPlanOptions : Type 0 where
  pub context_profile : ContextProfile
  pub kv_storage : KvStorage
  pub kv_element_bytes : ℕ
  pub arena_alignment : ℕ

pub record MemoryRegion : Type 0 where
  pub name : String
  pub offset : ℕ
  pub bytes : ℕ
  pub alignment : ℕ

pub record MemoryPlan : Type 0 where
  pub model_directory : String
  pub context_profile : String
  pub kv_storage : String
  pub context_tokens : ℕ
  pub kv_element_bytes : ℕ
  pub arena_alignment : ℕ
  pub local_layer_count : ℕ
  pub global_layer_count : ℕ
  pub resident_source_bytes : ℕ
  pub model_weight_bytes : ℕ
  pub scale_bytes : ℕ
  pub local_shared_kv_bytes : ℕ
  pub global_shared_kv_bytes : ℕ
  pub shared_kv_bytes : ℕ
  pub separate_kv_bytes : ℕ
  pub selected_kv_bytes : ℕ
  pub padding_bytes : ℕ
  pub total_arena_bytes : ℕ
  pub regions : List MemoryRegion

pub record ModelConfig : Type 0 where
  pub layer_count : ℕ
  pub max_positions : ℕ
  pub sliding_window : ℕ
  pub local_kv_heads : ℕ
  pub global_kv_heads : ℕ
  pub local_head_dimension : ℕ
  pub global_head_dimension : ℕ
  pub layer_types : List String

pub record TensorInfo : Type 0 where
  pub quantization_class : String
  pub expected_role : String
  pub byte_length : ℕ

pub record ModelManifest : Type 0 where
  pub model_directory : String
  pub tensors : List TensorInfo
  pub total_tensor_bytes : ℕ

unfoldable pub is_scale_tensor : TensorInfo → Bool
is_scale_tensor t =
    str_eq t.quantization_class "FP8_WEIGHT_SCALE"
    || (str_eq t.quantization_class "NVFP4_GLOBAL_SCALE"
        || (str_eq t.quantization_class "NVFP4_INPUT_SCALE"
            || (str_eq t.quantization_class "NVFP4_LOCAL_SCALE_E4M3"
                || (str_eq t.expected_role "weight_global_scale"
                    || (str_eq t.expected_role "activation_global_scale"
                        || str_eq t.expected_role "weight_local_or_channel_scale")))))

unfoldable pub profile_name : ContextProfile → String
profile_name interactive = "interactive"
profile_name standard = "standard"
profile_name long = "long"
profile_name xlong = "xlong"
profile_name maximal = "max"

unfoldable pub context_tokens : ContextProfile → Result ℕ
context_tokens interactive = ok 8192
context_tokens standard = ok 32768
context_tokens long = ok 65536
context_tokens xlong = ok 131072
context_tokens maximal = ok 262144

-- The plan so far, and the cursor of the arena.
pub record Draft : Type 0 where
  pub padding_bytes : ℕ
  pub regions : List MemoryRegion
  pub cursor : ℕ

unfoldable pub add_region : Draft → String → ℕ → ℕ → Result Draft
add_region d name bytes alignment = do
  aligned ← align_up d.cursor alignment
  padding ← checked_add d.padding_bytes (aligned - d.cursor) "arena padding"
  end ← checked_add aligned bytes "arena region"
  ok (record {
    padding_bytes = padding;
    regions =
        d.regions
        ++ record { name = name; offset = aligned; bytes = bytes; alignment = alignment } ∷ [];
    cursor = end;
  })

-- The loop over the layer types: how many are local and how many global.
unfoldable pub count_layers : ℕ × ℕ → List String → Result (ℕ × ℕ)
count_layers counts [] = ok counts
count_layers (local, global) (layer_type ∷ rest) =
    let one_local = count_layers ((local + 1) % 2 ^ 64, global) rest in
    let one_global = count_layers (local, (global + 1) % 2 ^ 64) rest in
    if str_eq layer_type "sliding_attention"
    then one_local
    else if str_eq layer_type "full_attention"
    then one_global
    else fail unsupported (str_append "unknown attention layer type in memory plan: " layer_type)

-- The loop over the tensors: the bytes of the weights and of the scales.
unfoldable pub sum_tensors : ℕ × ℕ → List TensorInfo → Result (ℕ × ℕ)
sum_tensors sums [] = ok sums
sum_tensors (weights, scales) (t ∷ rest) =
    let into_scales = (do
      sum ← checked_add scales t.byte_length "runtime-resident tensor"
      sum_tensors (weights, sum) rest) in
    let into_weights = (do
      sum ← checked_add weights t.byte_length "runtime-resident tensor"
      sum_tensors (sum, scales) rest) in
    if is_scale_tensor t then into_scales else into_weights

abbrev pub is_unspecified : KvStorage → Bool
is_unspecified unspecified = true
is_unspecified _ = false

abbrev pub is_shared : KvStorage → Bool
is_shared shared = true
is_shared _ = false

-- A configuration that says too little to plan by.
unfoldable pub incomplete : ModelConfig → Bool
incomplete config =
    not (length config.layer_types == config.layer_count)
    || (config.sliding_window == 0
        || (config.local_kv_heads == 0
            || (config.global_kv_heads == 0
                || (config.local_head_dimension == 0 || config.global_head_dimension == 0))))

-- The checks on the options and the configuration, in their order; the context length.
unfoldable pub check_request : ModelConfig → MemoryPlanOptions → Result ℕ
check_request config options = do
  refuse_if (is_unspecified options.kv_storage) invalid_argument
      "KV storage must be explicit: choose shared or separate K/V storage"
  refuse_if (options.kv_element_bytes == 0) invalid_argument
      "KV element byte width must be positive"
  refuse_if (not (is_power_of_two options.arena_alignment)) invalid_argument
      "arena alignment must be a non-zero power of two"
  tokens ← context_tokens options.context_profile
  refuse_if (ltb config.max_positions tokens) unsupported
      "context profile exceeds the checkpoint maximum position count"
  refuse_if (incomplete config) invalid_argument "model config is incomplete for memory planning"
  refuse_if (is_shared options.kv_storage) unsupported
      "shared physical K/V storage is unsupported: attention_k_eq_v reuses only the projection output; K normalization/RoPE and V normalization produce distinct cache states"
  ok tokens

-- The sizes of the key and value caches: local, global, one of the two, both.
pub record KvBytes : Type 0 where
  pub local : ℕ
  pub global : ℕ
  pub one_state : ℕ
  pub both : ℕ

unfoldable pub plan_kv : ModelConfig → ℕ → ℕ → ℕ × ℕ → Result KvBytes
plan_kv config element_bytes tokens (local_layers, global_layers) = do
  local ←
      checked_multiply
        (local_layers
          ∷ min tokens config.sliding_window
          ∷ config.local_kv_heads
          ∷ config.local_head_dimension
          ∷ element_bytes
          ∷ [])
        "local KV cache"
  global ←
      checked_multiply
        (global_layers ∷ tokens ∷ config.global_kv_heads ∷ config.global_head_dimension
          ∷ element_bytes ∷ [])
        "global KV cache"
  one_state ← checked_add local global "shared KV cache"
  both ← checked_multiply (one_state ∷ 2 ∷ []) "separate KV cache"
  ok (record { local = local; global = global; one_state = one_state; both = both })

-- The regions of the arena, and the rounding of its end.
pub record Arena : Type 0 where
  pub padding_bytes : ℕ
  pub regions : List MemoryRegion
  pub total_arena_bytes : ℕ

unfoldable pub plan_arena : ℕ → ℕ → ℕ → ℕ → Result Arena
plan_arena weights scales kv alignment = do
  first ←
      add_region (record { padding_bytes = 0; regions = []; cursor = 0 }) "immutable_model_weights"
        weights alignment
  second ← add_region first "scales" scales alignment
  third ← add_region second "kv_cache" kv alignment
  total ← align_up third.cursor alignment
  padding ← checked_add third.padding_bytes (total - third.cursor) "arena padding"
  ok (record { padding_bytes = padding; regions = third.regions; total_arena_bytes = total })

unfoldable pub build_memory_plan :
    ModelConfig → ModelManifest → MemoryPlanOptions → Result MemoryPlan
build_memory_plan config manifest options = do
  tokens ← check_request config options
  layers ← count_layers (0, 0) config.layer_types
  sums ← sum_tensors (0, 0) manifest.tensors
  resident ← checked_add sums.0 sums.1 "runtime-resident tensor"
  refuse_if (not (resident == manifest.total_tensor_bytes)) data_loss
      "manifest total byte count disagrees with the runtime-resident tensor inventory"
  kv ← plan_kv config options.kv_element_bytes tokens layers
  arena ← plan_arena sums.0 sums.1 kv.both options.arena_alignment
  ok (record {
    model_directory = manifest.model_directory;
    context_profile = profile_name options.context_profile;
    kv_storage = "separate";
    context_tokens = tokens;
    kv_element_bytes = options.kv_element_bytes;
    arena_alignment = options.arena_alignment;
    local_layer_count = layers.0;
    global_layer_count = layers.1;
    resident_source_bytes = resident;
    model_weight_bytes = sums.0;
    scale_bytes = sums.1;
    local_shared_kv_bytes = kv.local;
    global_shared_kv_bytes = kv.global;
    shared_kv_bytes = kv.one_state;
    separate_kv_bytes = kv.both;
    selected_kv_bytes = kv.both;
    padding_bytes = arena.padding_bytes;
    total_arena_bytes = arena.total_arena_bytes;
    regions = arena.regions;
  })
