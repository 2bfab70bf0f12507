-- ===== src/Media.antt =====
-- PlanVisionAwarePrefillChunk of src/cuda/engine/media_chunk_plan.h: how many tokens the next prefill
-- chunk takes, so that the patches of one image are processed together.
pub mod Laws
mod Tests
use gem16gb.Prelude.{
  ℕ, ◌+◌, ◌-◌, ◌/◌, ◌%◌, ◌^◌, min, Bool, ◌&&◌, List, [], ◌∷◌, ltb, leb, if◌then◌else◌,
}

-- A segment of the prompt: its first token, and the number of floats in its patches.
pub record VisionEmbeddingSegment : Type 0 where
  pub prompt_offset : ℕ
  pub patches_size : ℕ

abbrev pub patch_count : VisionEmbeddingSegment → ℕ
patch_count segment = segment.patches_size / 6912

abbrev pub segment_end : VisionEmbeddingSegment → ℕ
segment_end segment = (segment.prompt_offset + patch_count segment) % 2 ^ 64

-- The loop over the segments, on uint64_t: sums wrap, and the differences are taken where they are positive.
unfoldable pub plan_from : ℕ → ℕ → List VisionEmbeddingSegment → ℕ
plan_from proposed_begin tokens [] = tokens
plan_from proposed_begin tokens (segment ∷ segments) =
    let cut =
      plan_from proposed_begin (min tokens (segment.prompt_offset - proposed_begin)) segments in
    let uncut = plan_from proposed_begin tokens segments in
    if ltb proposed_begin segment.prompt_offset
      && ltb segment.prompt_offset ((proposed_begin + tokens) % 2 ^ 64)
    then cut
    else if leb segment.prompt_offset proposed_begin && ltb proposed_begin (segment_end segment)
    then segment_end segment - proposed_begin
    else uncut

unfoldable pub plan_vision_aware_prefill_chunk : ℕ → ℕ → List VisionEmbeddingSegment → ℕ
unfolding plan_from
plan_vision_aware_prefill_chunk proposed_begin maximum_tokens vision_segments =
    plan_from proposed_begin maximum_tokens vision_segments
