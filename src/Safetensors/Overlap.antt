-- ===== src/Safetensors/Overlap.antt =====
-- The overlap check of src/model/safetensors.cpp: the intervals are sorted, and each is compared with
-- the one in front of it.
use gem16gb.Prelude.{
  ℕ, ◌≤◌, ◌<◌, ◌≡◌, refl, sym, ◌∙◌, ◌↔◌, ◌⊎◌, inl, inr, true, false, List, [], ◌∷◌, ltb, Bool-cases,
  arith,
}
use gem16gb.Safetensors.{pair_less, insert_sorted, sort, overlaps_from, overlaps}

-- Two ranges have no byte in common.
abbrev pub AreApart : ℕ × ℕ → ℕ × ℕ → Type 0
AreApart left right = (left.1 ≤ right.0) ⊎ (right.1 ≤ left.0)

abbrev pub AreClear : ℕ × ℕ → List (ℕ × ℕ) → Type 0
AreClear interval [] = Unit {0}
AreClear interval (head ∷ rest) = AreApart interval head × AreClear interval rest

-- No two ranges of the list have a byte in common.
abbrev pub AreDisjoint : List (ℕ × ℕ) → Type 0
AreDisjoint [] = Unit {0}
AreDisjoint (interval ∷ rest) = AreClear interval rest × AreDisjoint rest

-- Every range has a byte.
abbrev pub AreSome : List (ℕ × ℕ) → Type 0
AreSome [] = Unit {0}
AreSome (interval ∷ rest) = (interval.0 < interval.1) × AreSome rest

-- Every range begins at `bound` or after it.
abbrev AreFrom : ℕ → List (ℕ × ℕ) → Type 0
AreFrom bound [] = Unit {0}
AreFrom bound (interval ∷ rest) = (bound ≤ interval.0) × AreFrom bound rest

abbrev AreSorted : List (ℕ × ℕ) → Type 0
AreSorted [] = Unit {0}
AreSorted (interval ∷ rest) = AreFrom interval.0 rest × AreSorted rest

apart_sym : {a b : ℕ × ℕ} → AreApart a b → AreApart b a
apart_sym (inl h) = inr h
apart_sym (inr h) = inl h

-- Insertion keeps each of these, both ways.
clear_insert :
    (x y : ℕ × ℕ) (ys : List (ℕ × ℕ))
    → AreApart x y
    → AreClear x ys
    → AreClear x (insert_sorted y ys)
unfolding insert_sorted
clear_insert x y [] h k = (h, tt)
clear_insert x y (z ∷ zs) h k = elim (Bool-cases (pair_less z y)) [
  | inl before ↦ rw before (k.0, clear_insert x y zs h (k.1))
  | inr after ↦ rw after (h, k)
]

clear_from_insert :
    (x y : ℕ × ℕ) (ys : List (ℕ × ℕ))
    → AreClear x (insert_sorted y ys)
    → AreApart x y × AreClear x ys
unfolding insert_sorted
clear_from_insert x y [] k = (k.0, tt)
clear_from_insert x y (z ∷ zs) k = elim (Bool-cases (pair_less z y)) [
  | inl before ↦
      let k' = rw before at k in
      let found = clear_from_insert x y zs (k'.1) in (found.0, (k'.0, found.1))
  | inr after ↦ rw after at k
]

disjoint_insert :
    (y : ℕ × ℕ) (ys : List (ℕ × ℕ))
    → AreClear y ys
    → AreDisjoint ys
    → AreDisjoint (insert_sorted y ys)
unfolding insert_sorted
disjoint_insert y [] h k = (tt, tt)
disjoint_insert y (z ∷ zs) h k = elim (Bool-cases (pair_less z y)) [
  | inl before ↦
      rw before (clear_insert z y zs (apart_sym (h.0)) (k.0), disjoint_insert y zs (h.1) (k.1))
  | inr after ↦ rw after (h, k)
]

disjoint_from_insert :
    (y : ℕ × ℕ) (ys : List (ℕ × ℕ))
    → AreDisjoint (insert_sorted y ys)
    → AreClear y ys × AreDisjoint ys
unfolding insert_sorted
disjoint_from_insert y [] k = (tt, tt)
disjoint_from_insert y (z ∷ zs) k = elim (Bool-cases (pair_less z y)) [
  | inl before ↦
      let k' = rw before at k in
      let head = clear_from_insert z y zs (k'.0) in
      let tail = disjoint_from_insert y zs (k'.1) in
      ((apart_sym (head.0), tail.0), (head.1, tail.1))
  | inr after ↦ rw after at k
]

disjoint-sort : (xs : List (ℕ × ℕ)) → AreDisjoint xs ↔ AreDisjoint (sort xs)
unfolding sort
disjoint-sort [] = (λ h. h, λ h. h)
disjoint-sort (x ∷ xs) = (
  λ h. disjoint_insert x (sort xs) (clear_sort x xs (h.0)) ((disjoint-sort xs).0 (h.1)),
  λ h.
      let found = disjoint_from_insert x (sort xs) h in
      (clear_unsort x xs (found.0), (disjoint-sort xs).1 (found.1)),
)
  where
    clear_sort : (x : ℕ × ℕ) (ys : List (ℕ × ℕ)) → AreClear x ys → AreClear x (sort ys)
    clear_sort x [] h = tt
    clear_sort x (y ∷ ys) h = clear_insert x y (sort ys) (h.0) (clear_sort x ys (h.1))

    clear_unsort : (x : ℕ × ℕ) (ys : List (ℕ × ℕ)) → AreClear x (sort ys) → AreClear x ys
    clear_unsort x [] h = tt
    clear_unsort x (y ∷ ys) h =
        let found = clear_from_insert x y (sort ys) h in (found.0, clear_unsort x ys (found.1))

some_insert :
    (y : ℕ × ℕ) (ys : List (ℕ × ℕ)) → y.0 < y.1 → AreSome ys → AreSome (insert_sorted y ys)
unfolding insert_sorted
some_insert y [] h k = (h, tt)
some_insert y (z ∷ zs) h k = elim (Bool-cases (pair_less z y)) [
  | inl before ↦ rw before (k.0, some_insert y zs h (k.1))
  | inr after ↦ rw after (h, k)
]

some_sort : (xs : List (ℕ × ℕ)) → AreSome xs → AreSome (sort xs)
unfolding sort
some_sort [] h = tt
some_sort (x ∷ xs) h = some_insert x (sort xs) (h.0) (some_sort xs (h.1))

from_mono : (a b : ℕ) (xs : List (ℕ × ℕ)) → a ≤ b → AreFrom b xs → AreFrom a xs
from_mono a b [] h k = tt
from_mono a b (x ∷ xs) h k = (omega (arith, h, k.0), from_mono a b xs h (k.1))

from_insert :
    (a : ℕ) (y : ℕ × ℕ) (ys : List (ℕ × ℕ))
    → a ≤ y.0
    → AreFrom a ys
    → AreFrom a (insert_sorted y ys)
unfolding insert_sorted
from_insert a y [] h k = (h, tt)
from_insert a y (z ∷ zs) h k = elim (Bool-cases (pair_less z y)) [
  | inl before ↦ rw before (k.0, from_insert a y zs h (k.1))
  | inr after ↦ rw after (h, k)
]

less_le : (z y : ℕ × ℕ) → pair_less z y ≡ true → z.0 ≤ y.0
less_le z y h = ground arith

not_less_le : (z y : ℕ × ℕ) → pair_less z y ≡ false → y.0 ≤ z.0
not_less_le z y h = ground arith

sorted_insert : (y : ℕ × ℕ) (ys : List (ℕ × ℕ)) → AreSorted ys → AreSorted (insert_sorted y ys)
unfolding insert_sorted
sorted_insert y [] k = (tt, tt)
sorted_insert y (z ∷ zs) k = elim (Bool-cases (pair_less z y)) [
  | inl before ↦
      rw before (from_insert z.0 y zs (less_le z y before) (k.0), sorted_insert y zs (k.1))
  | inr after ↦ let le = not_less_le z y after in rw after ((le, from_mono y.0 z.0 zs le (k.0)), k)
]

sorted_sort : (xs : List (ℕ × ℕ)) → AreSorted (sort xs)
unfolding sort
sorted_sort [] = tt
sorted_sort (x ∷ xs) = sorted_insert x (sort xs) (sorted_sort xs)

-- A scan that finds nothing: every range begins at the end of the first one or after it.
scan_from :
    (end : ℕ) (xs : List (ℕ × ℕ))
    → AreSome xs
    → overlaps_from end xs ≡ false
    → AreFrom end xs × AreDisjoint xs
unfolding overlaps_from
scan_from end [] some_bytes e = (tt, tt)
scan_from end (x ∷ xs) some_bytes e = elim (Bool-cases (ltb x.0 end)) [
  | inl early ↦ let found = rw early at e in cc
  | inr late ↦
      let rest = scan_from x.1 xs (some_bytes.1) (rw late at e) in
      let le : end ≤ x.0 = ground arith in
      let le' : end ≤ x.1 = omega (arith, le, some_bytes.0) in
      ((le, from_mono end x.1 xs le' (rest.0)), (clear_of_from x xs (rest.0), rest.1))
]
  where
    clear_of_from : (x : ℕ × ℕ) (ys : List (ℕ × ℕ)) → AreFrom x.1 ys → AreClear x ys
    clear_of_from x [] h = tt
    clear_of_from x (y ∷ ys) h = (inl (h.0), clear_of_from x ys (h.1))

from_of_clear :
    (x : ℕ × ℕ) (ys : List (ℕ × ℕ)) → AreSome ys → AreFrom x.0 ys → AreClear x ys → AreFrom x.1 ys
from_of_clear x [] some_bytes h k = tt
from_of_clear x (y ∷ ys) some_bytes h k =
    (first (k.0), from_of_clear x ys (some_bytes.1) (h.1) (k.1))
  where
    first : AreApart x y → x.1 ≤ y.0
    first (inl le) = le
    first (inr le) = absurd (omega (arith, le, h.0, some_bytes.0))

finds_nothing :
    (end : ℕ) (xs : List (ℕ × ℕ))
    → AreSome xs
    → AreSorted xs
    → AreDisjoint xs
    → AreFrom end xs
    → overlaps_from end xs ≡ false
unfolding overlaps_from
finds_nothing end [] some_bytes sorted apart h = refl
finds_nothing end (x ∷ xs) some_bytes sorted apart h =
    let late : ltb x.0 end ≡ false = ground (arith, h.0) in
    rw late (
      finds_nothing x.1 xs (some_bytes.1) (sorted.1) (apart.1)
        (from_of_clear x xs (some_bytes.1) (sorted.0) (apart.0)))

zero_from : (xs : List (ℕ × ℕ)) → AreFrom 0 xs
zero_from [] = tt
zero_from (x ∷ xs) = (omega arith, zero_from xs)

overlaps-from_zero : (xs : List (ℕ × ℕ)) → overlaps xs ≡ overlaps_from 0 xs
unfolding overlaps
overlaps-from_zero [] = refl
overlaps-from_zero (x ∷ xs) = ground arith

-- The scan of the sorted ranges finds no overlap exactly when no two ranges, of those that were put
-- in, have a byte in common; every range put in has a byte.
pub overlaps-sort_iff :
    (intervals : List (ℕ × ℕ))
    → AreSome intervals
    → (overlaps (sort intervals) ≡ false) ↔ AreDisjoint intervals
overlaps-sort_iff intervals some_bytes = (
  λ e. (disjoint-sort intervals).1 (
      (scan_from 0 (sort intervals) (some_sort intervals some_bytes)
        (sym (overlaps-from_zero (sort intervals)) ∙ e)).1),
  λ h.
      overlaps-from_zero (sort intervals)
      ∙ finds_nothing 0 (sort intervals) (some_sort intervals some_bytes) (sorted_sort intervals)
          ((disjoint-sort intervals).0 h) (zero_from (sort intervals)),
)
