-- ===== src/Media/Tests.antt =====
-- Chunks around two images, of two patches at token 4 and of three patches at token 9.
use gem16gb.Prelude.{◌-◌, ◌^◌, ◌≡◌, refl, inl, List, [], ◌∷◌, arith}
use gem16gb.Media.{VisionEmbeddingSegment, plan_vision_aware_prefill_chunk}
use gem16gb.Media.Laws.{
  Every, Fits, Disjoint, disjoint_nil, disjoint_cons, every_nil, every_cons, Apart, ChunkPlan,
  plan_vision_aware_prefill_chunk-ChunkPlan,
}

abbrev images : List VisionEmbeddingSegment
images =
    record { prompt_offset = 4; patches_size = 13824 }
    ∷ record { prompt_offset = 9; patches_size = 20736 }
    ∷ []

images-Disjoint : Disjoint images
unfolding Apart
images-Disjoint =
    disjoint_cons (every_cons (inl (omega arith)) every_nil) (disjoint_cons every_nil disjoint_nil)

images-Fit : Every Fits images
images-Fit = every_cons (omega arith) (every_cons (omega arith) every_nil)

before_first : plan_vision_aware_prefill_chunk 0 16 images ≡ 4
unfolding plan_vision_aware_prefill_chunk
before_first = refl

all_of_second : plan_vision_aware_prefill_chunk 9 2 images ≡ 3
unfolding plan_vision_aware_prefill_chunk
all_of_second = refl

-- The end of the proposed chunk wraps to 0, and the image at 4 is not seen.
wraps : plan_vision_aware_prefill_chunk 1 (2 ^ 64 - 1) images ≡ 2 ^ 64 - 1
unfolding plan_vision_aware_prefill_chunk
wraps = refl

plan_vision_aware_prefill_chunk-ChunkPlan_example :
    ChunkPlan 9 2 (plan_vision_aware_prefill_chunk 9 2 images) images
plan_vision_aware_prefill_chunk-ChunkPlan_example =
    plan_vision_aware_prefill_chunk-ChunkPlan 9 2 images images-Disjoint images-Fit (omega arith)
      (omega arith)
