-- ===== src/Pool/Count.antt =====
-- Entries counted in a list of references.
use gem16gb.Prelude.{
  ℕ, suc, ◌+◌, ◌-◌, ◌<◌, ◌≡◌, refl, Bool, true, false, ◌||◌, List, [], ◌∷◌, ◌==◌, if◌then◌else◌,
  arith, length,
}

unfoldable pub member : ℕ → List ℕ → Bool
member a [] = false
member a (b ∷ bs) = b == a || member a bs

unfoldable pub count : ℕ → List ℕ → ℕ
count a [] = 0
count a (b ∷ bs) = (if b == a then 1 else 0) + count a bs

unfoldable pub remove_one : ℕ → List ℕ → List ℕ
remove_one a [] = []
remove_one a (b ∷ bs) = if b == a then bs else b ∷ remove_one a bs

pub count-cons : (a b : ℕ) (bs : List ℕ) → count a (b ∷ bs) ≡ (if b == a then 1 else 0) + count a bs
unfolding count
count-cons a b bs = refl

pub count-remove_one :
    (a b : ℕ) (bs : List ℕ)
    → count a (remove_one b bs) ≡ (if b == a then count a bs - 1 else count a bs)
unfolding count remove_one
count-remove_one a b [] = ground arith
count-remove_one a b (c ∷ bs) = ground (arith, count-remove_one a b bs)

pub length-remove_one :
    (a : ℕ) (bs : List ℕ) → 0 < count a bs → suc (length (remove_one a bs)) ≡ length bs
unfolding count remove_one
length-remove_one a [] h = absurd (omega arith)
length-remove_one a (b ∷ bs) h = ground (arith, length-remove_one a bs)

pub member-count : (a : ℕ) (bs : List ℕ) → 0 < count a bs → member a bs ≡ true
unfolding count member
member-count a [] h = absurd (omega arith)
member-count a (b ∷ bs) h = ground (arith, member-count a bs)

pub count-member : (a : ℕ) (bs : List ℕ) → member a bs ≡ true → 0 < count a bs
unfolding count member
count-member a [] h = cc
count-member a (b ∷ bs) h = ground (arith, count-member a bs)

pub count-remove_one_self : (a : ℕ) (bs : List ℕ) → count a (remove_one a bs) ≡ count a bs - 1
count-remove_one_self a bs = ground (arith, count-remove_one a a bs)
