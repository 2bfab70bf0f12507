-- ===== src/Json/Value/Numbers.antt =====
-- The range of the integers of src/util/json.h.
use gem16gb.Prelude.{◌<◌, ◌^◌}
use gem16gb.Json.Value.{ℤ, pos, negsuc}

-- int64_t.
unfoldable pub InRange : ℤ → Type 0
InRange (pos n) = n < 2 ^ 63
InRange (negsuc n) = n < 2 ^ 63
