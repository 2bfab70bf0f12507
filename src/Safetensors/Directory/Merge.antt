-- ===== src/Safetensors/Directory/Merge.antt =====
-- How src/model/safetensors.cpp puts the tensors of the shards together: what the loop over the files
-- keeps of them, and the order in which they are returned.
use gem16gb.Prelude.{
  ℕ, ◌≡◌, refl, ap, sym, ◌∙◌, inl, inr, Bool, true, false, not, ◌||◌, Option, List, [], ◌∷◌,
  Bool-cases, arith,
}
use gem16gb.Status.{Ensures, returned, Ensures-ok, Ensures-step, Ensures-check}
use gem16gb.Json.Value.{key_less}
use gem16gb.Json.Value.Order.{key_less-tri, key_less_trans}
use gem16gb.Safetensors.{StoredTensor, bytes_eq, load_file}
use gem16gb.Safetensors.Directory.{
  FileSystem, has_name, disagrees, take_tensors, take_files, insert_by_name, sort_by_name,
}

pub bytes_eq-eq : (left right : List ℕ) → bytes_eq left right ≡ true → left ≡ right
unfolding bytes_eq
bytes_eq-eq [] [] h = refl
bytes_eq-eq [] (y ∷ right) h = cc
bytes_eq-eq (x ∷ left) [] h = cc
bytes_eq-eq (x ∷ left) (y ∷ right) h = ground (arith, bytes_eq-eq left right)

pub bytes_eq_self : (name : List ℕ) → bytes_eq name name ≡ true
unfolding bytes_eq
bytes_eq_self [] = refl
bytes_eq_self (x ∷ name) = ground (arith, bytes_eq_self name)

-- The tensors taken so far have different names and agree with the index.
abbrev pub AreTaken : List (List ℕ × List ℕ) → List StoredTensor → Type 0
AreTaken index [] = Unit {0}
AreTaken index (t ∷ ts) =
    (has_name t.name ts ≡ false) × (disagrees index t ≡ false) × AreTaken index ts

module _ (index : List (List ℕ × List ℕ)) where
  take_tensors-AreTaken :
      (result ts : List StoredTensor)
      → AreTaken index result
      → Ensures (AreTaken index) (take_tensors index result ts)
  unfolding take_tensors
  take_tensors-AreTaken result [] h = returned h
  take_tensors-AreTaken result (t ∷ ts) h = Ensures-check (has_name t.name result) _ _ λ new.
      Ensures-check (disagrees index t) _ _
        λ agrees. take_tensors-AreTaken (t ∷ result) ts (new, agrees, h)

  pub take_files-AreTaken :
      (strtod : List ℕ → Option ℕ) (files : FileSystem) (result : List StoredTensor)
      (names : List (List ℕ))
      → AreTaken index result
      → Ensures (AreTaken index) (take_files strtod files index result names)
  unfolding take_files
  take_files-AreTaken strtod files result [] h = returned h
  take_files-AreTaken strtod files result (file ∷ rest) h =
      Ensures-check (not (files.is_regular_file file)) _ _ λ there.
        Ensures-check (not (files.lies_inside file)) _ _ λ inside.
          Ensures-step (files.contents file) λ bytes p.
            Ensures-step (load_file strtod (files.canonical_name file) bytes) λ tensors q.
              Ensures-step (take_tensors index result tensors) λ taken r.
                take_files-AreTaken strtod files taken rest
                  (Ensures-ok (take_tensors-AreTaken result tensors h) r)

-- Every name of the list comes after `name`.
abbrev pub AreAfter : List ℕ → List StoredTensor → Type 0
AreAfter name [] = Unit {0}
AreAfter name (t ∷ ts) = (key_less name t.name ≡ true) × AreAfter name ts

-- The names ascend, so that none stands twice.
abbrev pub AreAscending : List StoredTensor → Type 0
AreAscending [] = Unit {0}
AreAscending (t ∷ ts) = AreAfter t.name ts × AreAscending ts

after_trans :
    (a b : List ℕ) (ts : List StoredTensor) → key_less a b ≡ true → AreAfter b ts → AreAfter a ts
after_trans a b [] h k = tt
after_trans a b (t ∷ ts) h k = (key_less_trans a b t.name h (k.0), after_trans a b ts h (k.1))

after_insert :
    (name : List ℕ) (t : StoredTensor) (ts : List StoredTensor)
    → key_less name t.name ≡ true
    → AreAfter name ts
    → AreAfter name (insert_by_name t ts)
unfolding insert_by_name
after_insert name t [] h k = (h, tt)
after_insert name t (head ∷ rest) h k = elim (Bool-cases (key_less head.name t.name)) [
  | inl before ↦ rw before (k.0, after_insert name t rest h (k.1))
  | inr not_before ↦ rw not_before (h, k)
]

-- A name that is not before another and differs from it comes after it.
comes_after : (a b : List ℕ) → key_less b a ≡ false → bytes_eq b a ≡ false → key_less a b ≡ true
comes_after a b h k = elim (Bool-cases (key_less a b)) [
  | inl e ↦ e
  | inr e ↦
      let same : b ≡ a = key_less-tri b a h e in
      let self : bytes_eq b a ≡ true = ap (bytes_eq b) (sym same) ∙ bytes_eq_self b in cc
]

or_false : (a b : Bool) → a || b ≡ false → (a ≡ false) × (b ≡ false)
or_false true b h = cc
or_false false b h = (refl, h)

ascending_insert :
    (t : StoredTensor) (ts : List StoredTensor)
    → has_name t.name ts ≡ false
    → AreAscending ts
    → AreAscending (insert_by_name t ts)
unfolding insert_by_name
ascending_insert t [] new k = (tt, tt)
ascending_insert t (head ∷ rest) new k =
    let (other, new_rest) = or_false (bytes_eq head.name t.name) (has_name t.name rest) new in
    elim (Bool-cases (key_less head.name t.name)) [
      | inl before ↦
          rw before
            (after_insert head.name t rest before (k.0), ascending_insert t rest new_rest (k.1))
      | inr not_before ↦
          let after = comes_after t.name head.name not_before other in
          rw not_before ((after, after_trans t.name head.name rest after (k.0)), k)
    ]

name_insert :
    (name : List ℕ) (t : StoredTensor) (ts : List StoredTensor)
    → bytes_eq t.name name ≡ false
    → has_name name ts ≡ false
    → has_name name (insert_by_name t ts) ≡ false
unfolding insert_by_name
name_insert name t [] h k = rw h refl
name_insert name t (head ∷ rest) h k =
    let (other, new_rest) = or_false (bytes_eq head.name name) (has_name name rest) k in
    elim (Bool-cases (key_less head.name t.name)) [
      | inl before ↦ rw before (rw other (name_insert name t rest h new_rest))
      | inr not_before ↦ rw not_before (rw h k)
    ]

name_sort :
    (name : List ℕ) (ts : List StoredTensor)
    → has_name name ts ≡ false
    → has_name name (sort_by_name ts) ≡ false
unfolding sort_by_name
name_sort name [] h = refl
name_sort name (t ∷ ts) h =
    let (other, new_rest) = or_false (bytes_eq t.name name) (has_name name ts) h in
    name_insert name t (sort_by_name ts) other (name_sort name ts new_rest)

pub sort_by_name-AreAscending :
    (index : List (List ℕ × List ℕ)) (ts : List StoredTensor)
    → AreTaken index ts
    → AreAscending (sort_by_name ts)
unfolding sort_by_name
sort_by_name-AreAscending index [] h = tt
sort_by_name-AreAscending index (t ∷ ts) h =
    ascending_insert t (sort_by_name ts) (name_sort t.name ts (h.0))
      (sort_by_name-AreAscending index ts (h.2))
