-- ===== src/Json/Parse/Steps.antt =====
-- One round of ParseValue, ParseArray and ParseObject of src/util/json.cpp, on what Stringify prints.
use gem16gb.Prelude.{ℕ, suc, ◌≡◌, false, Option, some, List, ◌∷◌, ltb, ◌==◌}
use gem16gb.Json.Strings.{Cursor, parsed, cursor, ◌>>=◌, parse_string}
use gem16gb.Json.Value.{Value, array, object, Items, nil, cons, Members, empty, emplace}
use gem16gb.Json.Parse.{
  ParseLimits, is_space, parse_scalar, parse_value, parse_items, parse_members, skip_whitespace,
  next_is,
}

-- A text that begins with no white space.
abbrev pub IsSolid : List ℕ → Type 0
IsSolid w = (p : ℕ) → skip_whitespace (cursor p w) ≡ cursor p w

pub IsSolid-cons : (x : ℕ) (t : List ℕ) → is_space x ≡ false → IsSolid (x ∷ t)
unfolding skip_whitespace
IsSolid-cons x t h p = rw h

module _ (strtod : List ℕ → Option ℕ) (limits : ParseLimits) (fuel depth seen : ℕ) where
  module _ (deep : ltb limits.max_depth depth ≡ false)
      (many : ltb limits.max_values (suc seen) ≡ false) where
    pub scalar_step :
        (p first : ℕ) (t : List ℕ) {v : Value} {c : Cursor}
        → (first == b'[') ≡ false
        → (first == b'{') ≡ false
        → parse_scalar strtod limits first (cursor p (first ∷ t)) ≡ parsed v c
        → parse_value strtod limits (suc fuel) depth seen (cursor p (first ∷ t))
          ≡ parsed (v, suc seen) c
    unfolding parse_value
    scalar_step p first t no_array no_object h = rw (deep, many, no_array, no_object, h)

    pub array_empty :
        (p : ℕ) (rest : List ℕ)
        → parse_value strtod limits (suc fuel) depth seen (cursor p (b'[' ∷ b']' ∷ rest))
          ≡ parsed (array nil, suc seen) (cursor (suc (suc p)) rest)
    unfolding parse_value
    array_empty p rest = rw (deep, many)

    pub array_step :
        (p : ℕ) (w : List ℕ) {items : Items} {s : ℕ} {c : Cursor}
        → IsSolid w
        → next_is (λ b. b == b']') w ≡ false
        → parse_items strtod limits fuel (suc depth) (suc seen) (cursor (suc p) w)
          ≡ parsed (items, s) c
        → parse_value strtod limits (suc fuel) depth seen (cursor p (b'[' ∷ w))
          ≡ parsed (array items, s) c
    unfolding parse_value
    array_step p w black no_end h = rw (deep, many, black (suc p), no_end, h)

    pub object_empty :
        (p : ℕ) (rest : List ℕ)
        → parse_value strtod limits (suc fuel) depth seen (cursor p (b'{' ∷ b'}' ∷ rest))
          ≡ parsed (object empty, suc seen) (cursor (suc (suc p)) rest)
    unfolding parse_value
    object_empty p rest = rw (deep, many)

    pub object_step :
        (p : ℕ) (t : List ℕ) {members : Members} {s : ℕ} {c : Cursor}
        → parse_members strtod limits fuel (suc depth) (suc seen) empty (cursor (suc p) (0x22 ∷ t))
          ≡ parsed (members, s) c
        → parse_value strtod limits (suc fuel) depth seen (cursor p (b'{' ∷ 0x22 ∷ t))
          ≡ parsed (object members, s) c
    unfolding parse_value
    object_step p t h = rw (deep, many, h)

  pub items_last :
      (c : Cursor) {v : Value} {s q : ℕ} (rest : List ℕ)
      → parse_value strtod limits fuel depth seen c ≡ parsed (v, s) (cursor q (b']' ∷ rest))
      → parse_items strtod limits (suc fuel) depth seen c
        ≡ parsed (cons v nil, s) (cursor (suc q) rest)
  unfolding parse_value
  items_last c rest h = rw h

  pub items_more :
      (c : Cursor) {v : Value} {s q : ℕ} (w : List ℕ) {items : Items} {s' : ℕ} {c' : Cursor}
      → parse_value strtod limits fuel depth seen c ≡ parsed (v, s) (cursor q (b',' ∷ w))
      → IsSolid w
      → parse_items strtod limits fuel depth s (cursor (suc q) w) ≡ parsed (items, s') c'
      → parse_items strtod limits (suc fuel) depth seen c ≡ parsed (cons v items, s') c'
  unfolding parse_value
  items_more c {q} w h black k = rw (h, black (suc q), k)

  pub members_last :
      (p : ℕ) (t key rest : List ℕ) (acc : Members) {q : ℕ} (w : List ℕ) {v : Value} {s q' : ℕ}
      {grown : Members}
      → parse_string limits.max_string_bytes (cursor p (0x22 ∷ t))
        ≡ parsed key (cursor q (b':' ∷ w))
      → IsSolid w
      → parse_value strtod limits fuel depth seen (cursor (suc q) w)
        ≡ parsed (v, s) (cursor q' (b'}' ∷ rest))
      → emplace key v acc ≡ some grown
      → parse_members strtod limits (suc fuel) depth seen acc (cursor p (0x22 ∷ t))
        ≡ parsed (grown, s) (cursor (suc q') rest)
  unfolding parse_value
  members_last p t key rest acc {q} w h black k fresh = rw (h, black (suc q), k) (rw (fresh, ◌>>=◌))

  pub members_more :
      (p : ℕ) (t key t' : List ℕ) (acc : Members) {q : ℕ} (w : List ℕ) {v : Value} {s q' : ℕ}
      {grown members : Members} {s' : ℕ} {c' : Cursor}
      → parse_string limits.max_string_bytes (cursor p (0x22 ∷ t))
        ≡ parsed key (cursor q (b':' ∷ w))
      → IsSolid w
      → parse_value strtod limits fuel depth seen (cursor (suc q) w)
        ≡ parsed (v, s) (cursor q' (b',' ∷ 0x22 ∷ t'))
      → emplace key v acc ≡ some grown
      → parse_members strtod limits fuel depth s grown (cursor (suc q') (0x22 ∷ t'))
        ≡ parsed (members, s') c'
      → parse_members strtod limits (suc fuel) depth seen acc (cursor p (0x22 ∷ t))
        ≡ parsed (members, s') c'
  unfolding parse_value
  members_more p t key t' acc {q} w h black k fresh more =
      rw (h, black (suc q), k) (rw (fresh, ◌>>=◌) (rw more))
