-- ===== src/Media/Laws.antt =====
-- What a planned chunk of src/cuda/engine/media_chunk_plan.h does to the images of a prompt.
use gem16gb.Prelude.{
  ℕ, ◌+◌, ◌-◌, ◌^◌, if◌then◌else◌, ◌≤◌, ◌<◌, ◌≡◌, refl, ap, ◌⊎◌, inl, inr, min, List, [], ◌∷◌, ltb,
  leb, ◌&&◌, false, arith, Bool-cases,
}
use native.Mathlib.Nat.{mod-eq_of_lt}
use gem16gb.Media.{VisionEmbeddingSegment, patch_count, plan_from, plan_vision_aware_prefill_chunk}

-- The position behind an image, in unbounded numbers.
abbrev pub image_end : VisionEmbeddingSegment → ℕ
image_end s = s.prompt_offset + patch_count s

-- The loop of the source in unbounded numbers.
exact_plan : ℕ → ℕ → List VisionEmbeddingSegment → ℕ
exact_plan begin tokens [] = tokens
exact_plan begin tokens (s ∷ ss) =
    let cut = exact_plan begin (min tokens (s.prompt_offset - begin)) ss in
    let uncut = exact_plan begin tokens ss in
    if ltb begin s.prompt_offset && ltb s.prompt_offset (begin + tokens)
    then cut
    else if leb s.prompt_offset begin && ltb begin (image_end s)
    then image_end s - begin
    else uncut

-- `P` holds of every segment of the list.
pub data Every {κ} (P : VisionEmbeddingSegment → Type κ)
    : List VisionEmbeddingSegment → Type κ where
  every_nil : Every P []
  every_cons :
      {s : VisionEmbeddingSegment} {ss : List VisionEmbeddingSegment}
      → P s
      → Every P ss
      → Every P (s ∷ ss)

pub data Member (s : VisionEmbeddingSegment) : List VisionEmbeddingSegment → Type 0 where
  here : {ss : List VisionEmbeddingSegment} → Member s (s ∷ ss)
  there :
      {t : VisionEmbeddingSegment} {ss : List VisionEmbeddingSegment}
      → Member s ss
      → Member s (t ∷ ss)

Every-lookup {κ} :
    {P : VisionEmbeddingSegment → Type κ} {s : VisionEmbeddingSegment}
    {ss : List VisionEmbeddingSegment}
    → Every P ss
    → Member s ss
    → P s
Every-lookup every_nil m = elim m [ ]
Every-lookup (every_cons h hs) here = h
Every-lookup (every_cons h hs) (there m) = Every-lookup hs m

Every-map {κ} :
    {P Q : VisionEmbeddingSegment → Type κ} {ss : List VisionEmbeddingSegment}
    → ((s : VisionEmbeddingSegment) → P s → Q s)
    → Every P ss
    → Every Q ss
Every-map f every_nil = every_nil
Every-map f (every_cons h hs) = every_cons (f _ h) (Every-map f hs)

-- The images lie one behind or before the other.
unfoldable pub Apart : VisionEmbeddingSegment → VisionEmbeddingSegment → Type 0
Apart s t = (image_end s ≤ t.prompt_offset) ⊎ (image_end t ≤ s.prompt_offset)

pub data Disjoint : List VisionEmbeddingSegment → Type 0 where
  disjoint_nil : Disjoint []
  disjoint_cons :
      {s : VisionEmbeddingSegment} {ss : List VisionEmbeddingSegment}
      → Every (Apart s) ss
      → Disjoint ss
      → Disjoint (s ∷ ss)

-- A chunk may end at this position: it is not in the middle of the image.
pub Uncut : ℕ → VisionEmbeddingSegment → Type 0
Uncut position s = (position ≤ s.prompt_offset) ⊎ (image_end s ≤ position)

-- The image is behind the chunk's first token, or the chunk stops before it.
Passed : ℕ → ℕ → VisionEmbeddingSegment → Type 0
Passed begin tokens s = (image_end s ≤ begin) ⊎ (begin + tokens ≤ s.prompt_offset)

-- The two ways in which the loop ends.
data Planned (begin tokens : ℕ) (ss : List VisionEmbeddingSegment) (n : ℕ) : Type 0 where
  stops_before :
      n ≤ tokens → (0 < tokens → 0 < n) → Every (Passed begin n) ss → Planned begin tokens ss n
  whole_image :
      (s : VisionEmbeddingSegment)
      → Member s ss
      → Every (λ t. (t ≡ s) ⊎ Apart s t) ss
      → s.prompt_offset ≤ begin
      → begin < image_end s
      → n ≡ image_end s - begin
      → Planned begin tokens ss n

Apart-sym : (s t : VisionEmbeddingSegment) → Apart s t → Apart t s
unfolding Apart
Apart-sym s t (inl h) = inr h
Apart-sym s t (inr h) = inl h

Planned-cut :
    (begin tokens n : ℕ) {s : VisionEmbeddingSegment} {ss : List VisionEmbeddingSegment}
    → Every (Apart s) ss
    → begin < s.prompt_offset
    → Planned begin (min tokens (s.prompt_offset - begin)) ss n
    → Planned begin tokens (s ∷ ss) n
unfolding Passed
Planned-cut begin tokens n {s} apart before (stops_before small some_left passed) =
    stops_before (omega (arith, small)) (λ h. some_left (omega (arith, h, before)))
      (every_cons (inr (omega (arith, small, before))) passed)
Planned-cut begin tokens n {s} apart before (whole_image t m others from below e) =
    whole_image t (there m) (every_cons (inr (Apart-sym s t (Every-lookup apart m))) others) from
      below e

Planned-skip :
    (begin tokens n : ℕ) {s : VisionEmbeddingSegment} {ss : List VisionEmbeddingSegment}
    → Every (Apart s) ss
    → (n ≤ tokens → Passed begin n s)
    → Planned begin tokens ss n
    → Planned begin tokens (s ∷ ss) n
Planned-skip begin tokens n apart passed (stops_before small some_left rest) =
    stops_before small some_left (every_cons (passed small) rest)
Planned-skip begin tokens n {s} apart passed (whole_image t m others from below e) =
    whole_image t (there m) (every_cons (inr (Apart-sym s t (Every-lookup apart m))) others) from
      below e

skipped :
    (begin tokens offset end n : ℕ)
    → ltb begin offset && ltb offset (begin + tokens) ≡ false
    → leb offset begin && ltb begin end ≡ false
    → n ≤ tokens
    → (end ≤ begin) ⊎ (begin + n ≤ offset)
skipped begin tokens offset end n no_cut no_image small = elim (Bool-cases (ltb begin offset)) [
  | inl h ↦ inr (ground arith)
  | inr h ↦ inl (ground arith)
]

exact_plan-Planned :
    (begin tokens : ℕ) (ss : List VisionEmbeddingSegment)
    → Disjoint ss
    → Planned begin tokens ss (exact_plan begin tokens ss)
unfolding exact_plan Passed
exact_plan-Planned begin tokens [] d = stops_before (omega arith) (λ h. h) every_nil
exact_plan-Planned begin tokens (s ∷ ss) (disjoint_cons apart d) =
    elim (Bool-cases (ltb begin s.prompt_offset && ltb s.prompt_offset (begin + tokens))) [
      | inl cut ↦ rw cut (
          Planned-cut begin tokens _ apart (ground arith)
            (exact_plan-Planned begin (min tokens (s.prompt_offset - begin)) ss d))
      | inr no_cut ↦ elim (Bool-cases (leb s.prompt_offset begin && ltb begin (image_end s))) [
        | inl image ↦
            rw (no_cut, image)
              (whole_image s here (every_cons (inl refl) (Every-map (λ t. inr) apart))
                (ground arith) (ground arith) refl)
        | inr no_image ↦
            rw (no_cut, no_image)
              (Planned-skip begin tokens _ apart
                (skipped begin tokens s.prompt_offset (image_end s) _ no_cut no_image)
                (exact_plan-Planned begin tokens ss d))
      ]
    ]

pub record ChunkPlan (begin maximum n : ℕ) (ss : List VisionEmbeddingSegment) : Type 0 where
  pub some_tokens : 0 < n
  pub no_cut : Every (Uncut (begin + n)) ss
  pub bounded :
      (n ≤ maximum)
      ⊎ ((s : VisionEmbeddingSegment) × Member s ss
          × (s.prompt_offset ≤ begin)
          × (begin < image_end s)
          × (begin + n ≡ image_end s))

end_here :
    (begin n : ℕ) (s : VisionEmbeddingSegment) {ss : List VisionEmbeddingSegment}
    → s.prompt_offset ≤ begin
    → begin < image_end s
    → begin + n ≡ image_end s
    → Every (λ t. (t ≡ s) ⊎ Apart s t) ss
    → Every (Uncut (begin + n)) ss
unfolding Uncut Apart
end_here begin n s from below e others =
    Every-map
      (λ t other. elim other [
        | inl same ↦ inr (omega (arith, e, ap image_end same))
        | inr (inl h) ↦ inl (omega (arith, e, h))
        | inr (inr h) ↦ inr (omega (arith, e, h, from, below))
      ])
      others

plan_of :
    (begin maximum n : ℕ) (ss : List VisionEmbeddingSegment)
    → 0 < maximum
    → Planned begin maximum ss n
    → ChunkPlan begin maximum n ss
unfolding Passed Uncut
plan_of begin maximum n ss some (stops_before small left passed) = record {
  some_tokens = left some;
  no_cut = Every-map (λ s h. elim h [ inl k ↦ inr (omega (arith, k)) | inr k ↦ inl k ]) passed;
  bounded = inl small;
}
plan_of begin maximum n ss some (whole_image s m others from below e) =
    let ends : begin + n ≡ image_end s = omega (arith, e, below) in
    record {
      some_tokens = omega (arith, e, below);
      no_cut = end_here begin n s from below ends others;
      bounded = inr (s, m, from, below, ends);
    }

-- The image ends at a 64-bit position.
abbrev pub Fits : VisionEmbeddingSegment → Type 0
Fits s = image_end s < 2 ^ 64

-- Where nothing wraps, the loop is the one in unbounded numbers.
plan_from-exact_plan :
    (begin tokens : ℕ) (ss : List VisionEmbeddingSegment)
    → begin + tokens < 2 ^ 64
    → Every Fits ss
    → plan_from begin tokens ss ≡ exact_plan begin tokens ss
unfolding plan_from exact_plan
plan_from-exact_plan begin tokens [] bound fits = refl
plan_from-exact_plan begin tokens (s ∷ ss) bound (every_cons fit fits) = rw (
  mod-eq_of_lt {n = image_end s} {m = 2 ^ 64} fit,
  mod-eq_of_lt {n = begin + tokens} {m = 2 ^ 64} bound,
  plan_from-exact_plan begin (min tokens (s.prompt_offset - begin)) ss (omega arith) fits,
  plan_from-exact_plan begin tokens ss bound fits,
)

-- In a prompt whose images do not overlap and end at 64-bit positions, for a maximum that is not 0 and
-- does not lead beyond 64-bit positions, a chunk of at least one token is planned and no image is cut at
-- its end. The chunk stays within the maximum, or its first token lies in an image and it ends where
-- that image ends.
pub plan_vision_aware_prefill_chunk-ChunkPlan :
    (begin maximum : ℕ) (ss : List VisionEmbeddingSegment)
    → Disjoint ss
    → Every Fits ss
    → 0 < maximum
    → begin + maximum < 2 ^ 64
    → ChunkPlan begin maximum (plan_vision_aware_prefill_chunk begin maximum ss) ss
unfolding plan_vision_aware_prefill_chunk
plan_vision_aware_prefill_chunk-ChunkPlan begin maximum ss d fits some bound =
    rw (plan_from-exact_plan begin maximum ss bound fits)
      (plan_of begin maximum _ ss some (exact_plan-Planned begin maximum ss d))
