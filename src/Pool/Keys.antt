-- ===== src/Pool/Keys.antt =====
-- The containers of server/session_pool: `std::unordered_map` and `std::unordered_set` with string
-- keys, as lists in the order of iteration, which the program leaves open.
use gem16gb.Prelude.{
  suc, ◌≡◌, ◌≤◌, refl, ap, String, Bool, true, false, ◌||◌, Option, none, some, List, [], ◌∷◌, map,
  if◌then◌else◌, arith, length, str_eq, eq_iff,
}

-- unordered_set

unfoldable pub has : String → List String → Bool
has k [] = false
has k (j ∷ js) = str_eq j k || has k js

unfoldable pub erase : String → List String → List String
erase k [] = []
erase k (j ∷ js) = let rest = erase k js in if str_eq j k then rest else j ∷ rest

abbrev pub Distinct : List String → Type 0
Distinct [] = Unit {0}
Distinct (j ∷ js) = (has j js ≡ false) × Distinct js

pub has-erase :
    (k j : String) (js : List String)
    → has k (erase j js) ≡ (if str_eq j k then false else has k js)
unfolding has erase
has-erase k j [] = ground arith
has-erase k j (i ∷ js) = ground (arith, eq_iff j k, eq_iff i j, eq_iff i k, has-erase k j js)

pub erase-Distinct : (k : String) (js : List String) → Distinct js → Distinct (erase k js)
unfolding erase
erase-Distinct k [] d = tt
erase-Distinct k (j ∷ js) d =
    ground (arith, has-erase j k js, erase-Distinct k js d.1, eq_iff j k, eq_iff k j)

pub erase_absent : (k : String) (js : List String) → has k js ≡ false → erase k js ≡ js
unfolding has erase
erase_absent k [] h = refl
erase_absent k (j ∷ js) h = ground (arith, erase_absent k js)

pub length-erase :
    (k : String) (js : List String)
    → Distinct js
    → has k js ≡ true
    → suc (length (erase k js)) ≡ length js
unfolding has erase
length-erase k [] d h = cc
length-erase k (j ∷ js) d h = ground (arith, eq_iff j k, length-erase k js d.1, erase_absent k js)

pub length-erase-le : (k : String) (js : List String) → length (erase k js) ≤ length js
unfolding erase
length-erase-le k [] = omega arith
length-erase-le k (j ∷ js) = ground (arith, length-erase-le k js)

-- unordered_map

module _ {ℓ} {A : Type ℓ} where
  unfoldable pub find : String → List (String × A) → Option A
  find k [] = none
  find k ((j, a) ∷ m) = if str_eq j k then some a else find k m

  unfoldable pub erase_key : String → List (String × A) → List (String × A)
  erase_key k [] = []
  erase_key k ((j, a) ∷ m) = let rest = erase_key k m in if str_eq j k then rest else (j, a) ∷ rest

  -- `map[k] = a`
  unfoldable pub assign : String → A → List (String × A) → List (String × A)
  assign k a [] = (k, a) ∷ []
  assign k a ((j, b) ∷ m) = if str_eq j k then (j, a) ∷ m else (j, b) ∷ assign k a m

  abbrev pub keys : List (String × A) → List String
  keys = map (λ e. e.0)

  abbrev pub values : List (String × A) → List A
  values = map (λ e. e.1)

  pub find-erase_key :
      (k j : String) (m : List (String × A))
      → find k (erase_key j m) ≡ (if str_eq j k then none else find k m)
  unfolding find erase_key
  find-erase_key k j [] = ground arith
  find-erase_key k j ((i, a) ∷ m) =
      ground (arith, eq_iff j k, eq_iff i j, eq_iff i k, find-erase_key k j m)

  pub find-assign :
      (k j : String) (a : A) (m : List (String × A))
      → find k (assign j a m) ≡ (if str_eq j k then some a else find k m)
  unfolding find assign
  find-assign k j a [] = refl
  find-assign k j a ((i, b) ∷ m) =
      ground (arith, eq_iff j k, eq_iff i j, eq_iff i k, find-assign k j a m)

  pub keys-erase_key :
      (k : String) (m : List (String × A)) → keys (erase_key k m) ≡ erase k (keys m)
  unfolding erase_key erase
  keys-erase_key k [] = refl
  keys-erase_key k ((j, a) ∷ m) = ground (arith, keys-erase_key k m)

  pub has-find :
      (k : String) (m : List (String × A)) (a : A) → find k m ≡ some a → has k (keys m) ≡ true
  unfolding find has
  has-find k [] a h = cc
  has-find k ((j, b) ∷ m) a h = ground (arith, has-find k m a)

  pub find-none : (k : String) (m : List (String × A)) → find k m ≡ none → has k (keys m) ≡ false
  unfolding find has
  find-none k [] h = refl
  find-none k ((j, b) ∷ m) h = ground (arith, find-none k m)

  pub length-keys : (m : List (String × A)) → length (keys m) ≡ length m
  length-keys [] = refl
  length-keys (e ∷ m) = ap suc (length-keys m)

  pub length-erase_key :
      (k : String) (m : List (String × A)) (a : A)
      → Distinct (keys m)
      → find k m ≡ some a
      → suc (length (erase_key k m)) ≡ length m
  length-erase_key k m a d h = omega (
    arith,
    length-erase k (keys m) d (has-find k m a h),
    length-keys m,
    length-keys (erase_key k m),
    ap length (keys-erase_key k m),
  )
