-- ===== src/Json/Utf8/Tests.antt =====
-- The UTF-8 checker on the euro sign, on an overlong form and on a surrogate.
use gem16gb.Prelude.{◌≡◌, refl, false, [], ◌∷◌}
use gem16gb.Json.Utf8.{is_valid_utf8}

overlong_lem : is_valid_utf8 (0xc0 ∷ 0xaf ∷ []) ≡ false
unfolding is_valid_utf8
overlong_lem = refl

surrogate_lem : is_valid_utf8 (0xed ∷ 0xa0 ∷ 0x80 ∷ []) ≡ false
unfolding is_valid_utf8
surrogate_lem = refl
