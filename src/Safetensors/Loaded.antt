-- ===== src/Safetensors/Loaded.antt =====
-- What LoadFile of src/model/safetensors.cpp promises of the tensors that it returns.
use gem16gb.Prelude
use gem16gb.Prelude.{
  ℕ, zero, suc, ◌+◌, ◌-◌, ◌*◌, ◌≤◌, ◌<◌, ◌≡◌, refl, ap, sym, subst, ◌∙◌, ◌⊎◌, inl, inr, Bool, true,
  false, not, ◌||◌, Option, none, some, List, [], ◌∷◌, ltb, ◌==◌, if◌then◌else◌, drop, take,
  Bool-cases, arith,
}
use gem16gb.Status.{ok, Ensures, returned, refused, Ensures-ok, Ensures-step, Ensures-check}
use gem16gb.Json.Value.{Value, Items, nil, cons, Members, empty, entry, find}
use gem16gb.Json.Parse.{parse}
use gem16gb.Memory.Checked.{product}
use gem16gb.Safetensors.{
  StoredTensor, max_header_bytes, read_little_endian64, dtype_bytes, tensor_bytes, alignment_of,
  non_negative, string_of, array_of, object_of, require, read_shape, read_offsets, store_tensor,
  load_tensor, add_interval, load_entries, sort, overlaps, header_limits, parsed_value, load_file,
  codes, bytes_eq,
}
use gem16gb.Safetensors.Sizes.{tensor_bytes-ok}
use gem16gb.Safetensors.Overlap.{AreApart, AreClear, AreDisjoint, AreSome, overlaps-sort_iff}

-- A tensor that was stored for the range from `begin` to `end` of the payload.
record IsPlaced (data_base payload_size : ℕ) (t : StoredTensor) (begin end : ℕ) : Type 0 where
  ordered : begin ≤ end
  within : end ≤ payload_size
  placed : t.absolute_offset ≡ data_base + begin
  long : t.length ≡ end - begin
  sized :
      (element_bytes : ℕ) × (dtype_bytes t.dtype ≡ ok element_bytes)
      × (t.length ≡ product t.shape * element_bytes)
  aligned : t.alignment ≡ alignment_of t.absolute_offset

read_offsets-Ensures :
    (items : Items) → Ensures (λ (offsets : ℕ × ℕ). offsets.0 ≤ offsets.1) (read_offsets items)
unfolding read_offsets
read_offsets-Ensures nil = refused
read_offsets-Ensures (cons a nil) = refused
read_offsets-Ensures (cons a (cons b nil)) = Ensures-step (require (non_negative a) _) λ begin p.
    Ensures-step (require (non_negative b) _)
      λ end q. Ensures-check (ltb end begin) _ _ (λ later. returned (ground arith))
read_offsets-Ensures (cons a (cons b (cons c rest))) = refused

store_tensor-Ensures :
    (data_base payload_size : ℕ) (shard name dtype shape : List ℕ) (begin end : ℕ)
    → begin ≤ end
    → Ensures
        (λ t. IsPlaced data_base payload_size t begin end)
        (store_tensor data_base payload_size shard name dtype shape begin end)
unfolding store_tensor
store_tensor-Ensures data_base payload_size shard name dtype shape begin end h =
    Ensures-check (ltb payload_size end) _ _ λ inside.
      Ensures-step (dtype_bytes dtype) λ element_bytes p.
        Ensures-step (tensor_bytes shape element_bytes) λ expected q.
          Ensures-check (not (end - begin == expected)) _ _ λ same.
            let count = (tensor_bytes-ok shape element_bytes expected q).0 in
            let long : end - begin ≡ expected = ground arith in
            returned (record {
              ordered = h;
              within = ground arith;
              placed = refl;
              long = refl;
              sized = (element_bytes, p, long ∙ count);
              aligned = refl;
            })

load_tensor-Ensures :
    (data_base payload_size : ℕ) (shard name : List ℕ) (metadata : Value)
    → Ensures
        (λ (r : StoredTensor × (ℕ × ℕ)). IsPlaced data_base payload_size r.0 r.1.0 r.1.1)
        (load_tensor data_base payload_size shard name metadata)
unfolding load_tensor
load_tensor-Ensures data_base payload_size shard name metadata =
    Ensures-step (require (object_of metadata) _) λ fields p0.
      Ensures-step (require (string_of (find (codes "dtype") metadata)) _) λ dtype p1.
        Ensures-step (require (array_of (find (codes "shape") metadata)) _) λ shape_items p2.
          Ensures-step (require (array_of (find (codes "data_offsets") metadata)) _)
            λ offset_items p3. Ensures-step (read_shape shape_items) λ shape p4.
              Ensures-step (read_offsets offset_items) λ offsets p5.
                Ensures-step
                  (store_tensor data_base payload_size shard name dtype shape offsets.0 offsets.1)
                  λ t p6. returned (
                    Ensures-ok
                      (store_tensor-Ensures data_base payload_size shard name dtype shape offsets.0
                        offsets.1 (Ensures-ok (read_offsets-Ensures offset_items) p5))
                      p6)

-- The tensors and the ranges that the loop over the entries has collected.
data Loads (data_base payload_size : ℕ) : List StoredTensor → List (ℕ × ℕ) → Type 0 where
  nothing : Loads data_base payload_size [] []
  further :
      {t : StoredTensor} {ts : List StoredTensor} {offsets : ℕ × ℕ} {intervals all : List (ℕ × ℕ)}
      → IsPlaced data_base payload_size t offsets.0 offsets.1
      → Loads data_base payload_size ts intervals
      → all ≡ add_interval offsets intervals
      → Loads data_base payload_size (t ∷ ts) all

load_entries-Ensures :
    (data_base payload_size : ℕ) (shard : List ℕ) (entries : Members)
    → Ensures
        (λ (r : List StoredTensor × List (ℕ × ℕ)). Loads data_base payload_size r.0 r.1)
        (load_entries data_base payload_size shard entries)
unfolding load_entries
load_entries-Ensures data_base payload_size shard empty = returned nothing
load_entries-Ensures data_base payload_size shard (entry name metadata rest) =
    let rest_loads = load_entries-Ensures data_base payload_size shard rest in
    elim (Bool-cases (bytes_eq name (codes "__metadata__"))) [
      | inl skipped ↦
          rw skipped (Ensures-step (require (object_of metadata) _) (λ checked p. rest_loads))
      | inr kept ↦ rw kept (
          Ensures-step (load_tensor data_base payload_size shard name metadata) λ loaded p.
            Ensures-step (load_entries data_base payload_size shard rest) λ more q. returned (
              further
                (Ensures-ok (load_tensor-Ensures data_base payload_size shard name metadata) p)
                (Ensures-ok rest_loads q) refl))
    ]

-- The bytes of the file that a tensor takes.
abbrev pub range : StoredTensor → ℕ × ℕ
range t = (t.absolute_offset, t.absolute_offset + t.length)

-- Two tensors share no byte; one that is empty shares none with any.
abbrev pub ShareNothing : StoredTensor → StoredTensor → Type 0
ShareNothing t u = (t.length ≡ 0) ⊎ ((u.length ≡ 0) ⊎ AreApart (range t) (range u))

abbrev pub AreAway : StoredTensor → List StoredTensor → Type 0
AreAway t [] = Unit {0}
AreAway t (u ∷ us) = ShareNothing t u × AreAway t us

-- No two tensors of the list share a byte.
abbrev pub AreSeparate : List StoredTensor → Type 0
AreSeparate [] = Unit {0}
AreSeparate (t ∷ ts) = AreAway t ts × AreSeparate ts

-- A tensor lies behind the header and inside the file, takes the bytes of its shape and type, and
-- has the alignment of its place.
pub record IsStored (file : List ℕ) (t : StoredTensor) : Type 0 where
  pub behind : 8 + read_little_endian64 file ≤ t.absolute_offset
  pub inside : t.absolute_offset + t.length ≤ Prelude.length file
  pub sized :
      (element_bytes : ℕ) × (dtype_bytes t.dtype ≡ ok element_bytes)
      × (t.length ≡ product t.shape * element_bytes)
  pub aligned : t.alignment ≡ alignment_of t.absolute_offset

abbrev pub AreStored : List ℕ → List StoredTensor → Type 0
AreStored file [] = Unit {0}
AreStored file (t ∷ ts) = IsStored file t × AreStored file ts

add-AreSome :
    (offsets : ℕ × ℕ) (intervals : List (ℕ × ℕ))
    → AreSome intervals
    → AreSome (add_interval offsets intervals)
add-AreSome offsets intervals h = elim (Bool-cases (ltb offsets.0 offsets.1)) [
  | inl some_bytes ↦ rw some_bytes (ground arith, h)
  | inr no_bytes ↦ rw no_bytes h
]

empty_away : (t : StoredTensor) (us : List StoredTensor) → t.length ≡ 0 → AreAway t us
empty_away t [] h = tt
empty_away t (u ∷ us) h = (inl h, empty_away t us h)

module _ {data_base payload_size : ℕ} where
  Loads-AreSome :
      {ts : List StoredTensor} {intervals : List (ℕ × ℕ)}
      → Loads data_base payload_size ts intervals
      → AreSome intervals
  Loads-AreSome nothing = tt
  Loads-AreSome (further {offsets} {intervals} placed rest e) =
      subst AreSome (sym e) (add-AreSome offsets intervals (Loads-AreSome rest))

  share_nothing :
      (t u : StoredTensor) (x y : ℕ × ℕ)
      → IsPlaced data_base payload_size t x.0 x.1
      → IsPlaced data_base payload_size u y.0 y.1
      → AreApart x y
      → AreApart (range t) (range u)
  share_nothing t u x y p q (inl h) = inl (omega arith)
  share_nothing t u x y p q (inr h) = inr (omega arith)

  away :
      (t : StoredTensor) (x : ℕ × ℕ) {us : List StoredTensor} {intervals : List (ℕ × ℕ)}
      → IsPlaced data_base payload_size t x.0 x.1
      → Loads data_base payload_size us intervals
      → AreClear x intervals
      → AreAway t us
  away t x p nothing h = tt
  away t x p (further {t = u} {offsets} {intervals} q rest e) h =
      elim (Bool-cases (ltb offsets.0 offsets.1)) [
        | inl some_bytes ↦
            let h' = rw some_bytes at (subst (AreClear x) e h) in
            (inr (inr (share_nothing t u x offsets p q (h'.0))), away t x p rest (h'.1))
        | inr no_bytes ↦
            let h' = rw no_bytes at (subst (AreClear x) e h) in
            let empty_one : u.length ≡ 0 = q.long ∙ ground arith in
            (inr (inl empty_one), away t x p rest h')
      ]

  Loads-AreSeparate :
      {ts : List StoredTensor} {intervals : List (ℕ × ℕ)}
      → Loads data_base payload_size ts intervals
      → AreDisjoint intervals
      → AreSeparate ts
  Loads-AreSeparate nothing h = tt
  Loads-AreSeparate (further {t} {ts} {offsets} {intervals} placed rest e) h =
      elim (Bool-cases (ltb offsets.0 offsets.1)) [
        | inl some_bytes ↦
            let h' = rw some_bytes at (subst AreDisjoint e h) in
            (away t offsets placed rest (h'.0), Loads-AreSeparate rest (h'.1))
        | inr no_bytes ↦
            let h' = rw no_bytes at (subst AreDisjoint e h) in
            let empty_one : t.length ≡ 0 = placed.long ∙ ground arith in
            (empty_away t ts empty_one, Loads-AreSeparate rest h')
      ]

header_fits :
    (n size : ℕ) → ltb n 2 || (ltb max_header_bytes n || ltb (size - 8) n) ≡ false → n ≤ size - 8
header_fits n size h = ground arith

not_short : (size : ℕ) → ltb size 8 ≡ false → 8 ≤ size
not_short size h = ground arith

-- The payload is what the header leaves.
Loads-AreStored :
    (file : List ℕ) {ts : List StoredTensor} {intervals : List (ℕ × ℕ)}
    → read_little_endian64 file ≤ Prelude.length file - 8
    → 8 ≤ Prelude.length file
    → Loads
        (8 + read_little_endian64 file)
        (Prelude.length file - (8 + read_little_endian64 file))
        ts
        intervals
    → AreStored file ts
Loads-AreStored file h g nothing = tt
Loads-AreStored file h g (further placed rest e) = (
  record {
    behind = omega (arith, placed.placed);
    inside = omega (arith, placed.placed, placed.long, placed.ordered, placed.within, h, g);
    sized = placed.sized;
    aligned = placed.aligned;
  },
  Loads-AreStored file h g rest,
)

load_file-Ensures :
    (strtod : List ℕ → Option ℕ) (shard file : List ℕ)
    → Ensures (λ ts. AreStored file ts × AreSeparate ts) (load_file strtod shard file)
unfolding load_file
load_file-Ensures strtod shard file =
    let header_length = read_little_endian64 file in
    let data_base = 8 + header_length in
    let payload_size = Prelude.length file - data_base in
    Ensures-check (ltb (Prelude.length file) 8) _ _ λ long_enough.
      Ensures-check
        (ltb header_length 2
          || (ltb max_header_bytes header_length || ltb (Prelude.length file - 8) header_length))
        _ _
        λ good.
          Ensures-step
            (parsed_value (parse strtod header_limits (take header_length (drop 8 file))))
            λ root p. Ensures-step (require (object_of root) _) λ entries q.
              Ensures-step (load_entries data_base payload_size shard entries) λ loaded r.
                Ensures-check (overlaps (sort loaded.1)) _ _ λ clear.
                  let loads =
                    Ensures-ok (load_entries-Ensures data_base payload_size shard entries) r in
                  returned (
                    Loads-AreStored file (header_fits header_length (Prelude.length file) good)
                        (not_short (Prelude.length file) long_enough) loads,
                    Loads-AreSeparate loads
                        ((overlaps-sort_iff loaded.1 (Loads-AreSome loads)).0 clear),
                  )

-- Whatever tensors LoadFile returns, for a file of any bytes: each lies behind the header and inside
-- the file, its length is the number of elements of its shape times the size of its type with no wrap,
-- its alignment is that of its place, and no two of them share a byte.
pub load_file-AreStored :
    (strtod : List ℕ → Option ℕ) (shard file : List ℕ) (tensors : List StoredTensor)
    → load_file strtod shard file ≡ ok tensors
    → AreStored file tensors × AreSeparate tensors
load_file-AreStored strtod shard file tensors e = Ensures-ok (load_file-Ensures strtod shard file) e
