-- ===== src/Safetensors/Directory/Agreement.antt =====
-- What LoadSafetensorsDirectory of src/model/safetensors.cpp promises: the tensors that it returns are
-- those of the index. That no entry of the index is left without a tensor follows by counting.
use gem16gb.Prelude.{
  ℕ, suc, ◌≤◌, ◌≡◌, refl, ap, sym, subst, ◌∙◌, ◌⊎◌, inl, inr, Bool, true, false, not, Option, none,
  some, List, [], ◌∷◌, ◌==◌, map, length, length-map, Bool-cases, arith,
}
use gem16gb.Status.{ok, Ensures, returned, Ensures-ok, Ensures-step, Ensures-check}
use gem16gb.Json.Value.{key_less}
use gem16gb.Safetensors.{StoredTensor, bytes_eq}
use gem16gb.Safetensors.Directory.{
  FileSystem, find_files, has_name, assignment_of, differs, disagrees, take_files, insert_by_name,
  sort_by_name, counts_differ, load_safetensors_directory,
}
use gem16gb.Safetensors.Directory.Merge.{
  bytes_eq-eq, bytes_eq_self, AreTaken, take_files-AreTaken, AreAscending,
  sort_by_name-AreAscending,
}

-- `a` stands in the list.
pub data IsIn {A : Type 0} (a : A) : List A → Type 0 where
  here : {b : A} {l : List A} → b ≡ a → IsIn a (b ∷ l)
  there : {b : A} {l : List A} → IsIn a l → IsIn a (b ∷ l)

module _ {A : Type 0} where
  abbrev Distinct : List A → Type 0
  Distinct [] = Unit {0}
  Distinct (x ∷ l) = (IsIn x l → ⊥) × Distinct l

  -- A list without one place where `a` stands.
  without : {a : A} (l : List A) → IsIn a l → List A
  without [] i = elim i [ ]
  without (b ∷ l) (here e) = l
  without (b ∷ l) (there i) = b ∷ without l i

  length-without : {a : A} (l : List A) (i : IsIn a l) → length l ≡ suc (length (without l i))
  unfolding without
  length-without [] i = elim i [ ]
  length-without (b ∷ l) (here e) = refl
  length-without (b ∷ l) (there i) = ap suc (length-without l i)

  IsIn-without :
      {a : A} (l : List A) (i : IsIn a l) (c : A) → IsIn c l → (a ≡ c) ⊎ IsIn c (without l i)
  unfolding without
  IsIn-without [] i c k = elim i [ ]
  IsIn-without (b ∷ l) (here e) c (here e') = inl (sym e ∙ e')
  IsIn-without (b ∷ l) (here e) c (there k) = inr k
  IsIn-without (b ∷ l) (there i) c (here e') = inr (here e')
  IsIn-without (b ∷ l) (there i) c (there k) = elim (IsIn-without l i c k) [
    | inl e ↦ inl e
    | inr k' ↦ inr (there k')
  ]

  -- As many different elements as the other list has places take every place.
  covers :
      (xs ys : List A)
      → Distinct xs
      → ((x : A) → IsIn x xs → IsIn x ys)
      → length ys ≤ length xs
      → (y : A) → IsIn y ys
      → IsIn y xs
  covers [] [] d s h y i = i
  covers [] (b ∷ ys) d s h y i = absurd (omega (arith, h))
  covers (x ∷ xs) ys d s h y i =
      let place = s x (here refl) in
      elim (IsIn-without ys place y i) [
        | inl e ↦ here e
        | inr k ↦ there (
            covers xs (without ys place) (d.1) inside (omega (arith, h, length-without ys place)) y
              k)
      ]
    where
      inside : (z : A) → IsIn z xs → IsIn z (without ys (s x (here refl)))
      inside z k = elim (IsIn-without ys (s x (here refl)) z (s z (there k))) [
        | inl e ↦ absurd ((d.0) (subst (λ w. IsIn w xs) (sym e) k))
        | inr k' ↦ k'
      ]

abbrev pair_of : StoredTensor → List ℕ × List ℕ
pair_of t = (t.name, t.shard)

assignment-IsIn :
    (name : List ℕ) (index : List (List ℕ × List ℕ)) (shard : List ℕ)
    → assignment_of name index ≡ some shard
    → IsIn (name, shard) index
unfolding assignment_of
assignment-IsIn name [] shard e = cc
assignment-IsIn name ((tensor, file) ∷ index) shard e = elim (Bool-cases (bytes_eq tensor name)) [
  | inl same ↦
      let found = rw same at e in
      let same_file : file ≡ shard = cc in here (λ i. (bytes_eq-eq tensor name same i, same_file i))
  | inr other ↦ there (assignment-IsIn name index shard (rw other at e))
]

not-not : (b : Bool) → not b ≡ false → b ≡ true
not-not true h = refl
not-not false h = cc

differs-eq :
    (assigned : Option (List ℕ)) (shard : List ℕ)
    → differs assigned shard ≡ false
    → assigned ≡ some shard
unfolding differs
differs-eq none shard e = cc
differs-eq (some found) shard e =
    ap some (bytes_eq-eq found shard (not-not (bytes_eq found shard) e))

agrees :
    (first : List ℕ × List ℕ) (index : List (List ℕ × List ℕ)) (t : StoredTensor)
    → disagrees (first ∷ index) t ≡ false
    → assignment_of t.name (first ∷ index) ≡ some t.shard
unfolding disagrees
agrees first index t e = differs-eq (assignment_of t.name (first ∷ index)) t.shard e

taken-agrees :
    (first : List ℕ × List ℕ) (index : List (List ℕ × List ℕ)) (ts : List StoredTensor)
    (t : StoredTensor)
    → AreTaken (first ∷ index) ts
    → IsIn t ts
    → assignment_of t.name (first ∷ index) ≡ some t.shard
taken-agrees first index [] t h i = elim i [ ]
taken-agrees first index (u ∷ ts) t h (here e) =
    subst (λ w. assignment_of w.name (first ∷ index) ≡ some w.shard) e (agrees first index u (h.1))
taken-agrees first index (u ∷ ts) t h (there i) = taken-agrees first index ts t (h.2) i

tensor_of :
    (ts : List StoredTensor) (pair : List ℕ × List ℕ)
    → IsIn pair (map pair_of ts)
    → (t : StoredTensor) × IsIn t ts × (pair_of t ≡ pair)
tensor_of [] pair i = elim i [ ]
tensor_of (t ∷ ts) pair (here e) = (t, here refl, e)
tensor_of (t ∷ ts) pair (there i) =
    let found = tensor_of ts pair i in (found.0, there (found.1), found.2)

name_taken :
    (ts : List StoredTensor) (pair : List ℕ × List ℕ)
    → IsIn pair (map pair_of ts)
    → has_name pair.0 ts ≡ true
name_taken [] pair i = elim i [ ]
name_taken (t ∷ ts) pair (here e) =
    let same : bytes_eq t.name pair.0 ≡ true =
      ap (λ p. bytes_eq t.name p.0) (sym e) ∙ bytes_eq_self t.name in
    rw same refl
name_taken (t ∷ ts) pair (there i) = let found = name_taken ts pair i in ground arith

taken-Distinct :
    (index : List (List ℕ × List ℕ)) (ts : List StoredTensor)
    → AreTaken index ts
    → Distinct (map pair_of ts)
taken-Distinct index [] h = tt
taken-Distinct index (t ∷ ts) h = (
  λ i. let wrong = name_taken ts (pair_of t) i in let right = h.0 in cc,
  taken-Distinct index ts (h.2),
)

swap_first :
    {t u v : StoredTensor} {ts : List StoredTensor} → IsIn t (u ∷ (v ∷ ts)) → IsIn t (v ∷ (u ∷ ts))
swap_first (here e) = there (here e)
swap_first (there (here e)) = here e
swap_first (there (there i)) = there (there i)

under_head :
    {t v : StoredTensor} {xs ys : List StoredTensor}
    → (IsIn t xs → IsIn t ys)
    → IsIn t (v ∷ xs)
    → IsIn t (v ∷ ys)
under_head f (here e) = here e
under_head f (there i) = there (f i)

-- The sort moves tensors only.
IsIn-insert :
    (t u : StoredTensor) (ts : List StoredTensor) → IsIn t (u ∷ ts) → IsIn t (insert_by_name u ts)
unfolding insert_by_name
IsIn-insert t u [] i = i
IsIn-insert t u (head ∷ rest) i = elim (Bool-cases (key_less head.name u.name)) [
  | inl before ↦ rw before (under_head (IsIn-insert t u rest) (swap_first i))
  | inr not_before ↦ rw not_before i
]

from_insert :
    (t u : StoredTensor) (ts : List StoredTensor) → IsIn t (insert_by_name u ts) → IsIn t (u ∷ ts)
unfolding insert_by_name
from_insert t u [] i = i
from_insert t u (head ∷ rest) i = elim (Bool-cases (key_less head.name u.name)) [
  | inl before ↦ swap_first (under_head (from_insert t u rest) (rw before at i))
  | inr not_before ↦ rw not_before at i
]

IsIn-sort : (t : StoredTensor) (ts : List StoredTensor) → IsIn t ts → IsIn t (sort_by_name ts)
unfolding sort_by_name
IsIn-sort t [] i = i
IsIn-sort t (u ∷ ts) i = IsIn-insert t u (sort_by_name ts) (under_head (IsIn-sort t ts) i)

from_sort : (t : StoredTensor) (ts : List StoredTensor) → IsIn t (sort_by_name ts) → IsIn t ts
unfolding sort_by_name
from_sort t [] i = i
from_sort t (u ∷ ts) i = under_head (from_sort t ts) (from_insert t u (sort_by_name ts) i)

-- The tensors are those of the index: each has its shard there, and each entry has its tensor.
pub record Agrees (index : List (List ℕ × List ℕ)) (tensors : List StoredTensor) : Type 0 where
  pub assigned : (t : StoredTensor) → IsIn t tensors → assignment_of t.name index ≡ some t.shard
  pub complete :
      (name shard : List ℕ)
      → IsIn (name, shard) index
      → (t : StoredTensor) × IsIn t tensors × (t.name ≡ name) × (t.shard ≡ shard)

Agrees-sort :
    (first : List ℕ × List ℕ) (index : List (List ℕ × List ℕ)) (result : List StoredTensor)
    → AreTaken (first ∷ index) result
    → length result ≡ length (first ∷ index)
    → Agrees (first ∷ index) (sort_by_name result)
Agrees-sort first index result h count = record {
  assigned = λ t i. taken-agrees first index result t h (from_sort t result i);
  complete = λ name shard i.
      let found =
        tensor_of result (name, shard)
          (covers (map pair_of result) (first ∷ index) (taken-Distinct (first ∷ index) result h)
            inside (omega (arith, count, length-map result pair_of)) (name, shard) i) in
      (
        found.0,
        IsIn-sort (found.0) result (found.1),
        ap (λ p. p.0) (found.2),
        ap (λ p. p.1) (found.2),
      );
}
  where
    inside : (pair : List ℕ × List ℕ) → IsIn pair (map pair_of result) → IsIn pair (first ∷ index)
    inside pair i =
        let found = tensor_of result pair i in
        subst (λ p. IsIn p (first ∷ index)) (found.2)
          (assignment-IsIn (found.0).name (first ∷ index) (found.0).shard
            (taken-agrees first index result (found.0) h (found.1)))

same_count : (a b : ℕ) → not (a == b) ≡ false → a ≡ b
same_count a b h = ground arith

-- What the directory is promised to hold, for the index that was read, if there was one.
abbrev pub Matches : List (List ℕ × List ℕ) → List StoredTensor → Type 0
Matches [] tensors = Unit {0}
Matches (first ∷ index) tensors = Agrees (first ∷ index) tensors

Matches-sort :
    (index : List (List ℕ × List ℕ)) (result : List StoredTensor)
    → AreTaken index result
    → counts_differ index result ≡ false
    → Matches index (sort_by_name result)
Matches-sort [] result h count = tt
Matches-sort (first ∷ index) result h count =
    Agrees-sort first index result h (same_count _ _ count)

abbrev Promise : (List ℕ → Option ℕ) → FileSystem → List StoredTensor → Type 0
Promise strtod files tensors =
    AreAscending tensors
    × ((index : List (List ℕ × List ℕ)) × (names : List (List ℕ)) × (find_files strtod files
          ≡ ok (index, names))
        × Matches index tensors)

directory-Ensures :
    (strtod : List ℕ → Option ℕ) (files : FileSystem)
    → Ensures (Promise strtod files) (load_safetensors_directory strtod files)
unfolding load_safetensors_directory
directory-Ensures strtod files = Ensures-check (not files.resolves) _ _ λ resolves.
    Ensures-step (find_files strtod files) λ found p.
      Ensures-step (take_files strtod files found.0 [] found.1) λ result q.
        Ensures-check (counts_differ found.0 result) _ _ λ count.
          let taken = Ensures-ok (take_files-AreTaken found.0 strtod files [] found.1 tt) q in
          returned (
            sort_by_name-AreAscending found.0 result taken,
            (found.0, found.1, p, Matches-sort found.0 result taken count),
          )

-- Whatever tensors LoadSafetensorsDirectory returns, over any file system: their names ascend strictly,
-- so that none stands twice; and if a non-empty index was read, every tensor has in the index
-- the shard that it was read from, and every entry of the index has its tensor.
pub load_safetensors_directory-Matches :
    (strtod : List ℕ → Option ℕ) (files : FileSystem) (tensors : List StoredTensor)
    → load_safetensors_directory strtod files ≡ ok tensors
    → AreAscending tensors
      × ((index : List (List ℕ × List ℕ)) × (names : List (List ℕ)) × (find_files strtod files
            ≡ ok (index, names))
          × Matches index tensors)
load_safetensors_directory-Matches strtod files tensors e =
    Ensures-ok (directory-Ensures strtod files) e
