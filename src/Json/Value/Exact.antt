-- ===== src/Json/Value/Exact.antt =====
-- Values of src/util/json.h that a text carries exactly, and their size as the parser counts it.
use gem16gb.Prelude.{ℕ, suc, ◌+◌, ◌≤◌, ◌≡◌, max, true, List, length}
use gem16gb.Json.Utf8.{is_valid_utf8}
use gem16gb.Json.Value.{
  Value, null, bool, integer, double, string, array, object, Items, nil, cons, Members, empty,
  entry,
}
use gem16gb.Json.Value.Numbers.{InRange}
use gem16gb.Json.Value.Order.{IsSorted}

-- How deep values stand in each other, and how many there are, as the parser counts.
unfoldable mutual
  pub height : Value → ℕ
  height null = 0
  height (bool b) = 0
  height (integer n) = 0
  height (double bits) = 0
  height (string text) = 0
  height (array items) = height_items items
  height (object members) = height_members members

  pub height_items : Items → ℕ
  height_items nil = 0
  height_items (cons v items) = max (suc (height v)) (height_items items)

  pub height_members : Members → ℕ
  height_members empty = 0
  height_members (entry key v members) = max (suc (height v)) (height_members members)

unfoldable mutual
  pub values : Value → ℕ
  values null = 1
  values (bool b) = 1
  values (integer n) = 1
  values (double bits) = 1
  values (string text) = 1
  values (array items) = suc (values_items items)
  values (object members) = suc (values_members members)

  pub values_items : Items → ℕ
  values_items nil = 0
  values_items (cons v items) = values v + values_items items

  pub values_members : Members → ℕ
  values_members empty = 0
  values_members (entry key v members) = values v + values_members members

-- Valid UTF-8 within the limit on string bytes.
abbrev pub TextFits : ℕ → List ℕ → Type 0
TextFits limit text = (is_valid_utf8 text ≡ true) × (length text ≤ limit)

-- Values that a text can carry exactly: no double (the stream may print one as an integer), integers
-- of 64 bits, valid texts, and objects with their keys in order.
unfoldable mutual
  pub IsExact : ℕ → Value → Type 0
  IsExact limit null = Unit
  IsExact limit (bool b) = Unit
  IsExact limit (integer n) = InRange n
  IsExact limit (double bits) = ⊥
  IsExact limit (string text) = TextFits limit text
  IsExact limit (array items) = AreExact limit items
  IsExact limit (object members) = IsSorted members × AreExactMembers limit members

  pub AreExact : ℕ → Items → Type 0
  AreExact limit nil = Unit
  AreExact limit (cons v items) = IsExact limit v × AreExact limit items

  pub AreExactMembers : ℕ → Members → Type 0
  AreExactMembers limit empty = Unit
  AreExactMembers limit (entry key v members) =
      TextFits limit key × IsExact limit v × AreExactMembers limit members
