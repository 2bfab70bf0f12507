-- ===== src/Json/Value/Order.antt =====
-- Objects of src/util/json.h keep their entries in the order of their keys, each key once.
use gem16gb.Prelude.{ℕ, ◌≡◌, refl, ap, true, false, some, List, [], ◌∷◌, arith}
use gem16gb.Json.Value.{Value, Members, empty, entry, key_less, emplace}

-- Every key of the entries is above this one.
abbrev pub Above : List ℕ → Members → Type 0
Above key empty = Unit
Above key (entry key' value rest) = (key_less key key' ≡ true) × Above key rest

abbrev pub IsSorted : Members → Type 0
IsSorted empty = Unit
IsSorted (entry key value rest) = Above key rest × IsSorted rest

abbrev pub append_members : Members → Members → Members
append_members empty ys = ys
append_members (entry key value xs) ys = entry key value (append_members xs ys)

abbrev pub snoc : Members → List ℕ → Value → Members
snoc empty key value = entry key value empty
snoc (entry key' value' rest) key value = entry key' value' (snoc rest key value)

pub append_members-snoc :
    (xs ys : Members) (key : List ℕ) (value : Value)
    → append_members (snoc xs key value) ys ≡ append_members xs (entry key value ys)
append_members-snoc empty ys key value = refl
append_members-snoc (entry key' value' xs) ys key value =
    ap (entry key' value') (append_members-snoc xs ys key value)

pub snoc_lem :
    (xs : Members) (key : List ℕ) (value : Value)
    → snoc xs key value ≡ append_members xs (entry key value empty)
snoc_lem empty key value = refl
snoc_lem (entry key' value' xs) key value = ap (entry key' value') (snoc_lem xs key value)

Above-append :
    (low key : List ℕ) (value : Value) (xs ys : Members)
    → Above low (append_members xs (entry key value ys))
    → key_less low key ≡ true
Above-append low key value empty ys h = h.0
Above-append low key value (entry key' value' xs) ys h = Above-append low key value xs ys h.1

-- A key behind all others is put at the end.
pub emplace-snoc :
    (key : List ℕ) (value : Value) (xs ys : Members)
    → IsSorted (append_members xs (entry key value ys))
    → emplace key value xs ≡ some (snoc xs key value)
unfolding emplace
emplace-snoc key value empty ys h = refl
emplace-snoc key value (entry key' value' xs) ys h =
    rw (Above-append key' key value xs ys h.0, emplace-snoc key value xs ys h.1)

pub key_less_trans :
    (a b c : List ℕ) → key_less a b ≡ true → key_less b c ≡ true → key_less a c ≡ true
unfolding key_less
key_less_trans a [] c h k = cc
key_less_trans a (y ∷ b) [] h k = cc
key_less_trans [] (y ∷ b) (z ∷ c) h k = refl
key_less_trans (x ∷ a) (y ∷ b) (z ∷ c) h k = ground (arith, key_less_trans a b c)

pub key_less-tri : (a b : List ℕ) → key_less a b ≡ false → key_less b a ≡ false → a ≡ b
unfolding key_less
key_less-tri [] [] h k = refl
key_less-tri [] (y ∷ b) h k = cc
key_less-tri (x ∷ a) [] h k = cc
key_less-tri (x ∷ a) (y ∷ b) h k = ground (arith, key_less-tri a b)
