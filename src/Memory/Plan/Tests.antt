-- ===== src/Memory/Plan/Tests.antt =====
-- The planner's theorems at concrete sizes, and a run of it.
use gem16gb.Prelude.{ℕ, ◌^◌, ◌≡◌, refl, [], ◌∷◌, arith}
use gem16gb.Status.{ok, Ensures}
use gem16gb.Memory.Checked.{checked_add, checked_multiply, align_up, align_up-Aligned, Aligned}
use gem16gb.Memory.Plan.{
  ContextProfile, KvStorage, MemoryPlanOptions, ModelConfig, ModelManifest, add_region,
  is_scale_tensor, context_tokens, count_layers, sum_tensors, check_request, incomplete, plan_kv,
  plan_arena, build_memory_plan, MemoryPlan,
}
use gem16gb.Memory.Plan.Regions.{Sound, plan_arena-Sound}

align_up-Aligned_example : ((k : ℕ) × (◌≡◌ {A = ℕ} 256 (2 ^ k))) × Aligned 300 256 512
unfolding align_up
align_up-Aligned_example = align_up-Aligned 300 256 512 (omega arith) refl

plan_arena-Sound_example : Ensures (Sound 1000 24 512 256) (plan_arena 1000 24 512 256)
plan_arena-Sound_example =
    plan_arena-Sound 1000 24 512 256 (omega arith) (omega arith) (omega arith) (omega arith)

-- A model of two layers.
abbrev config : ModelConfig
config = record {
  layer_count = 2;
  max_positions = 131072;
  sliding_window = 1024;
  local_kv_heads = 8;
  global_kv_heads = 1;
  local_head_dimension = 256;
  global_head_dimension = 512;
  layer_types = "sliding_attention" ∷ "full_attention" ∷ [];
}

abbrev manifest : ModelManifest
manifest = record {
  model_directory = "model";
  tensors =
      record { quantization_class = "NVFP4"; expected_role = "weight"; byte_length = 1000 }
      ∷ record {
        quantization_class = "NVFP4_GLOBAL_SCALE";
        expected_role = "weight_global_scale";
        byte_length = 24;
      }
      ∷ [];
  total_tensor_bytes = 1024;
}

abbrev options : MemoryPlanOptions
options = record {
  context_profile = ContextProfile.interactive;
  kv_storage = KvStorage.separate;
  kv_element_bytes = 1;
  arena_alignment = 256;
}

total_bytes : MemoryPlan → ℕ
total_bytes p = p.total_arena_bytes

-- The plan is made: 2 * (1024 * 8 * 256 + 8192 * 512) bytes of caches behind 1280 bytes.
planned :
    (p : MemoryPlan) × (build_memory_plan config manifest options ≡ ok p)
    × (total_bytes p ≡ 12584192)
unfolding build_memory_plan check_request incomplete count_layers sum_tensors is_scale_tensor
    plan_kv plan_arena add_region checked_add checked_multiply align_up context_tokens total_bytes
planned = (_, refl, refl)
