-- ===== src/Memory/Plan/Laws.antt =====
-- What a memory plan promises.
use gem16gb.Prelude.{
  ℕ, ◌+◌, ◌*◌, ◌^◌, ◌≤◌, ◌<◌, ◌≡◌, String, List, [], ◌∷◌, min, length, str_eq, if◌then◌else◌,
}
use gem16gb.Status.{ok}
use gem16gb.Memory.Plan.{
  KvStorage, MemoryPlanOptions, MemoryPlan, ModelConfig, TensorInfo, ModelManifest, KvBytes,
  is_scale_tensor, context_tokens,
}
use gem16gb.Memory.Plan.Regions.{Sound}

-- How many layers have a type.
abbrev pub layers_of : String → List String → ℕ
layers_of type [] = 0
layers_of type (t ∷ ts) = (if str_eq t type then 1 else 0) + layers_of type ts

-- Types of layers that were counted: each layer is a local or a global one.
pub record Counted (local global : ℕ) (types : List String) (counts : ℕ × ℕ) : Type 0 where
  pub local_layers : counts.0 ≡ local + layers_of "sliding_attention" types
  pub global_layers : counts.1 ≡ global + layers_of "full_attention" types
  pub every_layer : counts.0 + counts.1 ≡ local + global + length types

abbrev pub tensor_bytes : List TensorInfo → ℕ
tensor_bytes [] = 0
tensor_bytes (t ∷ ts) = t.byte_length + tensor_bytes ts

-- The bytes of the scale tensors.
abbrev pub scale_tensor_bytes : List TensorInfo → ℕ
scale_tensor_bytes [] = 0
scale_tensor_bytes (t ∷ ts) =
    (if is_scale_tensor t then t.byte_length else 0) + scale_tensor_bytes ts

abbrev pub AllFit : List TensorInfo → Type 0
AllFit [] = Unit {0}
AllFit (t ∷ ts) = (t.byte_length < 2 ^ 64) × AllFit ts

-- Tensors that were summed up, into the bytes of the weights and of the scales.
pub record Summed (weights scales : ℕ) (ts : List TensorInfo) (sums : ℕ × ℕ) : Type 0 where
  pub every_tensor : sums.0 + sums.1 ≡ weights + scales + tensor_bytes ts
  pub scale_tensors : sums.1 ≡ scales + scale_tensor_bytes ts
  pub weights_fit : sums.0 < 2 ^ 64
  pub scales_fit : sums.1 < 2 ^ 64

-- The key and value caches of a configuration, in unbounded numbers.
abbrev pub local_kv : ModelConfig → ℕ → ℕ → ℕ → ℕ
local_kv c element tokens layers =
    layers
    * (min tokens c.sliding_window * (c.local_kv_heads * (c.local_head_dimension * (element * 1))))

abbrev pub global_kv : ModelConfig → ℕ → ℕ → ℕ → ℕ
global_kv c element tokens layers =
    layers * (tokens * (c.global_kv_heads * (c.global_head_dimension * (element * 1))))

pub record KvSound (c : ModelConfig) (element tokens local_layers global_layers : ℕ) (kv : KvBytes)
    : Type 0 where
  pub local : kv.local ≡ local_kv c element tokens local_layers
  pub global : kv.global ≡ global_kv c element tokens global_layers
  pub one_state : kv.one_state ≡ kv.local + kv.global
  pub both : kv.both ≡ kv.one_state + kv.one_state
  pub fits : kv.both < 2 ^ 64

-- What the checks let through.
pub record Accepted (c : ModelConfig) (o : MemoryPlanOptions) (tokens : ℕ) : Type 0 where
  pub profile : context_tokens o.context_profile ≡ ok tokens
  pub within : tokens ≤ c.max_positions
  pub complete : length c.layer_types ≡ c.layer_count
  pub separate : o.kv_storage ≡ KvStorage.separate

-- Everything that a plan says, for a configuration, a manifest and options.
pub record PlanSound (c : ModelConfig) (m : ModelManifest) (o : MemoryPlanOptions) (p : MemoryPlan)
    : Type 0 where
  pub accepted : Accepted c o p.context_tokens
  pub local_layers : p.local_layer_count ≡ layers_of "sliding_attention" c.layer_types
  pub global_layers : p.global_layer_count ≡ layers_of "full_attention" c.layer_types
  pub layers : p.local_layer_count + p.global_layer_count ≡ c.layer_count
  pub resident : p.model_weight_bytes + p.scale_bytes ≡ tensor_bytes m.tensors
  pub scales : p.scale_bytes ≡ scale_tensor_bytes m.tensors
  pub declared : p.resident_source_bytes ≡ m.total_tensor_bytes
  pub local_cache :
      p.local_shared_kv_bytes ≡ local_kv c o.kv_element_bytes p.context_tokens p.local_layer_count
  pub global_cache :
      p.global_shared_kv_bytes
      ≡ global_kv c o.kv_element_bytes p.context_tokens p.global_layer_count
  pub kv :
      p.selected_kv_bytes
      ≡ 2
        * (local_kv c o.kv_element_bytes p.context_tokens p.local_layer_count
            + global_kv c o.kv_element_bytes p.context_tokens p.global_layer_count)
  pub arena :
      Sound p.model_weight_bytes p.scale_bytes p.selected_kv_bytes o.arena_alignment (record {
        padding_bytes = p.padding_bytes;
        regions = p.regions;
        total_arena_bytes = p.total_arena_bytes;
      })
