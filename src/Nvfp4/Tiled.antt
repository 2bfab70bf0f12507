-- ===== src/Nvfp4/Tiled.antt =====
-- Where src/cuda/nvfp4/sm120_layout.cpp puts each byte of a tiled buffer. The loops write in the order
-- of their destinations, so that no write touches what an earlier one put there.
use native.Mathlib.Nat.{mul-le-mul_left}
use gem16gb.Prelude.{
  ℕ, zero, suc, ◌+◌, ◌-◌, ◌*◌, ◌≤◌, ◌<◌, ◌≡◌, refl, sym, subst, ◌∙◌, true, false, ◌&&◌, ltb, leb,
  arith,
}
use gem16gb.Nvfp4.{
  Sm120Nvfp4SourceLayout, copy_n, tile_rows_of, source_offset, destination_offset, tile_rows,
  tile_blocks, tile_tiles,
}

copy_before :
    (source : ℕ → ℕ) (from n : ℕ) (target : ℕ → ℕ) (to j : ℕ)
    → j < to
    → copy_n source from n target to j ≡ target j
copy_before source from n target to j h =
    let outside : leb to j && ltb j (to + n) ≡ false = ground arith in rw outside

copy_inside :
    (source : ℕ → ℕ) (from n : ℕ) (target : ℕ → ℕ) (to b : ℕ)
    → b < n
    → copy_n source from n target to (to + b) ≡ source (from + b)
copy_inside source from n target to b h =
    let inside : leb to (to + b) && ltb (to + b) (to + n) ≡ true = ground arith in
    let same : to + b - to ≡ b = omega arith in rw (inside, same)

zero_plus : (n : ℕ) → 0 + n ≡ n
zero_plus n = omega arith

next_row : (k t r u : ℕ) → (k * t + suc r) * u ≡ (k * t + r) * u + u
next_row k t r u = omega arith

row_in_block : (k t r u b : ℕ) → r < t → b < u → (k * t + r) * u + b < (suc k * t + 0) * u
row_in_block k t r u b h g = omega (arith, mul-le-mul_left u h)

block_in_tile :
    (f k t m u : ℕ)
    → m < k
    → t ≤ 8
    → f * 8 * k * u + (suc m * t + 0) * u ≤ suc f * 8 * k * u + (0 * t + 0) * u
block_in_tile f k t m u h g =
    omega (arith, mul-le-mul_left u (mul-le-mul_left t h), mul-le-mul_left k (mul-le-mul_left u g))

module _ (layout : Sm120Nvfp4SourceLayout) (unit row_bytes : ℕ) (source : ℕ → ℕ) where
  -- Where a row of a K block goes, and where it comes from.
  abbrev to : ℕ → ℕ → ℕ → ℕ
  to = destination_offset layout unit row_bytes source

  abbrev from : ℕ → ℕ → ℕ → ℕ
  from = source_offset layout unit row_bytes source

  abbrev height_of : ℕ → ℕ
  height_of = tile_rows_of layout unit row_bytes source

  rows_keep :
      (n f k r : ℕ) (tiled : ℕ → ℕ) (j : ℕ)
      → j < to f k r
      → tile_rows layout unit row_bytes source n f k r tiled j ≡ tiled j
  unfolding tile_rows
  rows_keep zero f k r tiled j h = refl
  rows_keep (suc n) f k r tiled j h =
      rows_keep n f k (suc r) _ j (omega (arith, h, next_row k (height_of f) r unit))
      ∙ copy_before source (from f k r) unit tiled (to f k r) j h

  rows_write :
      (n f k r : ℕ) (tiled : ℕ → ℕ) (i b : ℕ)
      → i < n
      → b < unit
      → tile_rows layout unit row_bytes source n f k r tiled (to f k (r + i) + b)
        ≡ source (from f k (r + i) + b)
  unfolding tile_rows
  rows_write zero f k r tiled i b h g = absurd (omega (arith, h))
  rows_write (suc n) f k r tiled zero b h g =
      let here : r + 0 ≡ r = omega arith in
      rw here (
        rows_keep n f k (suc r) _ (to f k r + b) (omega (arith, g, next_row k (height_of f) r unit))
        ∙ copy_inside source (from f k r) unit tiled (to f k r) b g)
  rows_write (suc n) f k r tiled (suc i) b h g =
      let there : r + suc i ≡ suc r + i = omega arith in
      rw there (rows_write n f k (suc r) _ i b (omega (arith, h)) g)

  blocks_keep :
      (n f k : ℕ) (tiled : ℕ → ℕ) (j : ℕ)
      → j < to f k 0
      → tile_blocks layout unit row_bytes source n f k tiled j ≡ tiled j
  unfolding tile_blocks
  blocks_keep zero f k tiled j h = refl
  blocks_keep (suc n) f k tiled j h =
      blocks_keep n f (suc k) _ j (omega (arith, h)) ∙ rows_keep (height_of f) f k 0 tiled j h

  blocks_write :
      (n f k : ℕ) (tiled : ℕ → ℕ) (m r b : ℕ)
      → m < n
      → r < height_of f
      → b < unit
      → tile_blocks layout unit row_bytes source n f k tiled (to f (k + m) r + b)
        ≡ source (from f (k + m) r + b)
  unfolding tile_blocks
  blocks_write zero f k tiled m r b h g u = absurd (omega (arith, h))
  blocks_write (suc n) f k tiled zero r b h g u =
      let here : k + 0 ≡ k = omega arith in
      rw here (
        blocks_keep n f (suc k) _ (to f k r + b)
          (omega (arith, row_in_block k (height_of f) r unit b g u))
        ∙ subst
            (λ q.
              tile_rows layout unit row_bytes source (height_of f) f k 0 tiled (to f k q + b)
              ≡ source (from f k q + b))
            (zero_plus r) (rows_write (height_of f) f k 0 tiled r b g u))
  blocks_write (suc n) f k tiled (suc m) r b h g u =
      let there : k + suc m ≡ suc k + m = omega arith in
      rw there (blocks_write n f (suc k) _ m r b (omega (arith, h)) g u)

  tiles_keep :
      (n t : ℕ) (tiled : ℕ → ℕ) (j : ℕ)
      → j < to (t * 8) 0 0
      → tile_tiles layout unit row_bytes source n t tiled j ≡ tiled j
  unfolding tile_tiles
  tiles_keep zero t tiled j h = refl
  tiles_keep (suc n) t tiled j h =
      tiles_keep n (suc t) _ j (omega (arith, h)) ∙ blocks_keep layout.k_blocks (t * 8) 0 tiled j h

  before_next_tile :
      (t k r b : ℕ)
      → k < layout.k_blocks
      → r < height_of (t * 8)
      → b < unit
      → to (t * 8) k r + b < to (suc t * 8) 0 0
  before_next_tile t k r b h g u =
      let bound : height_of (t * 8) ≤ 8 = omega arith in
      omega (
        arith,
        row_in_block k (height_of (t * 8)) r unit b g u,
        block_in_tile t layout.k_blocks (height_of (t * 8)) k unit h bound,
      )

  tiles_write :
      (n t : ℕ) (tiled : ℕ → ℕ) (m k r b : ℕ)
      → m < n
      → k < layout.k_blocks
      → r < height_of ((t + m) * 8)
      → b < unit
      → tile_tiles layout unit row_bytes source n t tiled (to ((t + m) * 8) k r + b)
        ≡ source (from ((t + m) * 8) k r + b)
  unfolding tile_tiles
  tiles_write zero t tiled m k r b h h' g u = absurd (omega (arith, h))
  tiles_write (suc n) t tiled zero k r b h h' g u =
      let here : t + 0 ≡ t = omega arith in
      let g' = subst (λ q. r < height_of (q * 8)) here g in
      rw here (
        tiles_keep n (suc t) _ (to (t * 8) k r + b) (before_next_tile t k r b h' g' u)
        ∙ subst
            (λ q.
              tile_blocks layout unit row_bytes source layout.k_blocks (t * 8) 0 tiled
                (to (t * 8) q r + b)
              ≡ source (from (t * 8) q r + b))
            (zero_plus k) (blocks_write layout.k_blocks (t * 8) 0 tiled k r b h' g' u))
  tiles_write (suc n) t tiled (suc m) k r b h h' g u =
      let there : t + suc m ≡ suc t + m = omega arith in
      rw there (
        tiles_write n (suc t) _ m k r b (omega (arith, h)) h'
          (subst (λ q. r < height_of (q * 8)) there g) u)

  -- After the loops every byte of the source stands at its place.
  pub tiled_byte :
      (t k r b : ℕ) (start : ℕ → ℕ)
      → t < layout.row_tiles
      → k < layout.k_blocks
      → r < 8
      → t * 8 + r < layout.rows
      → b < unit
      → tile_tiles layout unit row_bytes source layout.row_tiles 0 start (to (t * 8) k r + b)
        ≡ source ((t * 8 + r) * row_bytes + k * unit + b)
  tiled_byte t k r b start h h' low inside u =
      subst
        (λ q.
          tile_tiles layout unit row_bytes source layout.row_tiles 0 start (to (q * 8) k r + b)
          ≡ source (from (q * 8) k r + b))
        (zero_plus t)
        (tiles_write layout.row_tiles 0 start t k r b h h'
          (subst (λ q. r < height_of (q * 8)) (sym (zero_plus t)) (omega (arith, low, inside))) u)
