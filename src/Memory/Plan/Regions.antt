-- ===== src/Memory/Plan/Regions.antt =====
-- The regions of an arena: in order, aligned, disjoint, and all bytes accounted for.
use gem16gb.Prelude.{
  ℕ, ◌+◌, ◌-◌, ◌%◌, ◌^◌, ◌≤◌, ◌<◌, ◌≡◌, refl, ap, ◌∙◌, String, List, [], ◌∷◌, ◌++◌, arith,
}
use gem16gb.Status.{Ensures, returned, Ensures-ok, Ensures-step}
use gem16gb.Memory.Checked.{checked_add, checked_add_iff, align_up, align_up-Aligned, Aligned}
use gem16gb.Memory.Plan.{MemoryRegion, Draft, Arena, add_region, plan_arena}

-- The regions lie between two bounds, each behind the one before, at multiples of the alignment.
abbrev pub InOrder : ℕ → ℕ → List MemoryRegion → ℕ → Type 0
InOrder alignment lo [] hi = lo ≤ hi
InOrder alignment lo (r ∷ rs) hi =
    (lo ≤ r.offset) × (r.offset % alignment ≡ 0) × InOrder alignment (r.offset + r.bytes) rs hi

-- What a region is for, its size, and the alignment that it notes.
abbrev pub contents : List MemoryRegion → List (String × ℕ × ℕ)
contents [] = []
contents (r ∷ rs) = (r.name, r.bytes, r.alignment) ∷ contents rs

abbrev pub sum_bytes : List MemoryRegion → ℕ
sum_bytes [] = 0
sum_bytes (r ∷ rs) = r.bytes + sum_bytes rs

InOrder-snoc :
    (alignment lo hi : ℕ) (rs : List MemoryRegion) (r : MemoryRegion)
    → InOrder alignment lo rs hi
    → hi ≤ r.offset
    → r.offset % alignment ≡ 0
    → InOrder alignment lo (rs ++ r ∷ []) (r.offset + r.bytes)
InOrder-snoc alignment lo hi [] r v le aligned = (omega arith, aligned, omega arith)
InOrder-snoc alignment lo hi (q ∷ rs) r v le aligned =
    (v.0, v.1, InOrder-snoc alignment (q.offset + q.bytes) hi rs r v.2 le aligned)

InOrder-widen :
    (alignment lo hi hi' : ℕ) (rs : List MemoryRegion)
    → InOrder alignment lo rs hi
    → hi ≤ hi'
    → InOrder alignment lo rs hi'
InOrder-widen alignment lo hi hi' [] v le = omega arith
InOrder-widen alignment lo hi hi' (r ∷ rs) v le =
    (v.0, v.1, InOrder-widen alignment (r.offset + r.bytes) hi hi' rs v.2 le)

contents-snoc :
    (rs : List MemoryRegion) (r : MemoryRegion)
    → contents (rs ++ r ∷ []) ≡ contents rs ++ (r.name, r.bytes, r.alignment) ∷ []
contents-snoc [] r = refl
contents-snoc (q ∷ rs) r = ap (λ cs. (q.name, q.bytes, q.alignment) ∷ cs) (contents-snoc rs r)

sum_bytes-snoc :
    (rs : List MemoryRegion) (r : MemoryRegion) → sum_bytes (rs ++ r ∷ []) ≡ sum_bytes rs + r.bytes
sum_bytes-snoc [] r = omega arith
sum_bytes-snoc (q ∷ rs) r = omega (arith, sum_bytes-snoc rs r)

pub record Laid (alignment : ℕ) (d : Draft) : Type 0 where
  pub ordered : InOrder alignment 0 d.regions d.cursor
  pub accounted : sum_bytes d.regions + d.padding_bytes ≡ d.cursor
  pub fits : d.cursor < 2 ^ 64

-- What adding a region makes of an arena.
pub record Extended (d : Draft) (name : String) (bytes alignment : ℕ) (e : Draft) : Type 0 where
  pub laid : Laid alignment e
  pub added : contents e.regions ≡ contents d.regions ++ (name, bytes, alignment) ∷ []
  pub grown : sum_bytes e.regions ≡ sum_bytes d.regions + bytes

extended :
    (d : Draft) (name : String) (bytes alignment aligned : ℕ)
    → Laid alignment d
    → Aligned d.cursor alignment aligned
    → aligned + bytes < 2 ^ 64
    → Extended d name bytes alignment (record {
      padding_bytes = d.padding_bytes + (aligned - d.cursor);
      regions =
          d.regions
          ++ record { name = name; offset = aligned; bytes = bytes; alignment = alignment } ∷ [];
      cursor = aligned + bytes;
    })
extended d name bytes alignment aligned v a fits =
    let r : MemoryRegion = record {
      name = name;
      offset = aligned;
      bytes = bytes;
      alignment = alignment;
    } in
    record {
      laid = record {
        ordered = InOrder-snoc alignment 0 d.cursor d.regions r v.ordered a.above a.multiple;
        accounted = omega (arith, sum_bytes-snoc d.regions r, v.accounted, a.above);
        fits = fits;
      };
      added = contents-snoc d.regions r;
      grown = sum_bytes-snoc d.regions r;
    }

add_region-Extended :
    (d : Draft) (name : String) (bytes alignment : ℕ)
    → Laid alignment d
    → bytes < 2 ^ 64
    → alignment < 2 ^ 64
    → Ensures (Extended d name bytes alignment) (add_region d name bytes alignment)
unfolding add_region
add_region-Extended d name bytes alignment v hb ha =
    Ensures-step (align_up d.cursor alignment) λ aligned h1.
      let a : Aligned d.cursor alignment aligned =
        (align_up-Aligned d.cursor alignment aligned ha h1).1 in
      Ensures-step (checked_add d.padding_bytes (aligned - d.cursor) "arena padding") λ padding h2.
        Ensures-step (checked_add aligned bytes "arena region") λ end h3.
          let sum2 =
            (checked_add_iff d.padding_bytes (aligned - d.cursor) "arena padding" padding
                (omega (arith, v.accounted, v.fits)) (omega (arith, a.fits))).0
              h2 in
          let sum3 = (checked_add_iff aligned bytes "arena region" end a.fits hb).0 h3 in
          returned (rw (sum2.0, sum3.0) (extended d name bytes alignment aligned v a sum3.1))

-- The arena of three sizes: it holds these three regions, and nothing else but padding.
pub record Sound (weights scales kv alignment : ℕ) (a : Arena) : Type 0 where
  pub ordered : InOrder alignment 0 a.regions a.total_arena_bytes
  pub regions :
      contents a.regions
      ≡ ("immutable_model_weights", weights, alignment)
        ∷ ("scales", scales, alignment)
        ∷ ("kv_cache", kv, alignment)
        ∷ []
  pub accounted : weights + scales + kv + a.padding_bytes ≡ a.total_arena_bytes
  pub multiple : a.total_arena_bytes % alignment ≡ 0
  pub fits : a.total_arena_bytes < 2 ^ 64

empty-Laid :
    (alignment : ℕ) → Laid alignment (record { padding_bytes = 0; regions = []; cursor = 0 })
empty-Laid alignment = record { ordered = omega arith; accounted = refl; fits = omega arith }

-- An arena that is planned, for sizes and an alignment of 64 bits, holds three regions in this order: the
-- weights, the scales and the caches, each of the size asked for. Each starts at a multiple of the
-- alignment, behind the end of the one before, and all end within the arena. Sizes and padding add up to
-- the arena, the arena is a multiple of the alignment, and no sum has wrapped.
pub plan_arena-Sound :
    (weights scales kv alignment : ℕ)
    → weights < 2 ^ 64
    → scales < 2 ^ 64
    → kv < 2 ^ 64
    → alignment < 2 ^ 64
    → Ensures (Sound weights scales kv alignment) (plan_arena weights scales kv alignment)
unfolding plan_arena
plan_arena-Sound weights scales kv alignment hw hs hk ha =
    Ensures-step (add_region _ "immutable_model_weights" weights alignment) λ first h1.
      let e1 =
        Ensures-ok
          (add_region-Extended _ "immutable_model_weights" weights alignment (empty-Laid alignment)
            hw ha)
          h1 in
      Ensures-step (add_region first "scales" scales alignment) λ second h2.
        let e2 =
          Ensures-ok (add_region-Extended first "scales" scales alignment e1.laid hs ha) h2 in
        Ensures-step (add_region second "kv_cache" kv alignment) λ third h3.
          let e3 =
            Ensures-ok (add_region-Extended second "kv_cache" kv alignment e2.laid hk ha) h3 in
          Ensures-step (align_up third.cursor alignment) λ total h4.
            let a = (align_up-Aligned third.cursor alignment total ha h4).1 in
            Ensures-step (checked_add third.padding_bytes (total - third.cursor) "arena padding")
              λ padding h5.
                let s =
                  (checked_add_iff third.padding_bytes (total - third.cursor) "arena padding"
                      padding (omega (arith, e3.laid.accounted, e3.laid.fits))
                      (omega (arith, a.fits))).0
                    h5 in
                returned (record {
                  ordered =
                      InOrder-widen alignment 0 third.cursor total third.regions e3.laid.ordered
                        a.above;
                  regions =
                      e3.added
                      ∙ ap (λ cs. cs ++ ("kv_cache", kv, alignment) ∷ [])
                          (e2.added ∙ ap (λ cs. cs ++ ("scales", scales, alignment) ∷ []) e1.added);
                  accounted =
                      omega (arith, s.0, e3.laid.accounted, e1.grown, e2.grown, e3.grown, a.above);
                  multiple = a.multiple;
                  fits = a.fits;
                })
