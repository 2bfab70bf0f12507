-- ===== src/Json/Parse/RoundTrip.antt =====
-- Parse of src/util/json.cpp on what Stringify prints.
use gem16gb.Prelude.{
  ℕ, zero, suc, ◌+◌, ◌*◌, ◌%◌, ◌^◌, ◌≤◌, ◌<◌, ◌≡◌, refl, sym, ap, subst, ◌∙◌, Bool, true, false,
  ◌||◌, Option, some, List, [], ◌∷◌, ◌++◌, ltb, ◌==◌, length, arith, append_assoc, append-nil,
  length-append,
}
use gem16gb.Json.Escape.{quote}
use gem16gb.Json.Strings.{Cursor, Parsed, parsed, cursor, ◌>>=◌}
use gem16gb.Json.Strings.RoundTrip.{parse_string-quote}
use gem16gb.Json.Value.{
  ℤ, Value, null, bool, integer, double, string, array, object, Items, nil, cons, Members, empty,
  entry, int_chars, null_text, true_text, false_text, stringified, stringified_items,
  stringified_members,
}
use gem16gb.Json.Value.Exact.{
  height, height_items, height_members, values, values_items, values_members, TextFits, IsExact,
  AreExact, AreExactMembers,
}
use gem16gb.Json.Value.Order.{
  IsSorted, append_members, snoc, emplace-snoc, append_members-snoc, snoc_lem,
}
use gem16gb.Json.Parse.{
  ParseLimits, is_space, is_digit, next_is, parse_number, parse_scalar, parse_value, parse_items,
  parse_members, skip_whitespace, run, parse,
}
use gem16gb.Json.Value.Numbers.{InRange}
use gem16gb.Json.Parse.Numbers.{ends, int_head, parse_number-int_chars}
use gem16gb.Json.Parse.Steps.{
  IsSolid, IsSolid-cons, scalar_step, array_empty, array_step, object_empty, object_step,
  items_last, items_more, members_last, members_more,
}

lt_false : {m n : ℕ} → n ≤ m → ltb m n ≡ false
lt_false h = ground arith

number_not_space : (c : ℕ) → c == b'-' || is_digit c ≡ true → is_space c ≡ false
number_not_space c h = ground arith

number_not_end : (c : ℕ) → c == b'-' || is_digit c ≡ true → (c == b']') ≡ false
number_not_end c h = ground arith

number_not_array : (c : ℕ) → c == b'-' || is_digit c ≡ true → (c == b'[') ≡ false
number_not_array c h = ground arith

number_not_object : (c : ℕ) → c == b'-' || is_digit c ≡ true → (c == b'{') ≡ false
number_not_object c h = ground arith

not_letter : (k c : ℕ) → 57 < k → c == b'-' || is_digit c ≡ true → (c == k) ≡ false
not_letter k c far h = ground arith

not_quote : (c : ℕ) → c == b'-' || is_digit c ≡ true → (c == 0x22) ≡ false
not_quote c h = ground arith

-- A byte that begins a number leads to ParseNumber.
parse_scalar-number :
    (strtod : List ℕ → Option ℕ) (limits : ParseLimits) (first : ℕ) (c : Cursor)
    → first == b'-' || is_digit first ≡ true
    → parse_scalar strtod limits first c ≡ parse_number strtod c
unfolding parse_scalar
parse_scalar-number strtod limits first c h = simp (
  not_letter b'n' first (omega arith) h,
  not_letter b't' first (omega arith) h,
  not_letter b'f' first (omega arith) h,
  not_quote first h,
  h,
)

moved :
    {A : Type 0} {v : A} {s s' q q' : ℕ} {rest : List ℕ}
    → s ≡ s'
    → q ≡ q'
    → ◌≡◌ {A = Parsed (A × ℕ)} (parsed (v, s) (cursor q rest)) (parsed (v, s') (cursor q' rest))
moved {v} {rest} e e' i = parsed (v, e i) (cursor (e' i) rest)

module _ (strtod : List ℕ → Option ℕ) (format : ℕ → List ℕ) (limits : ParseLimits) where
  -- A printed value begins with no white space, and not as an array ends.
  Head : List ℕ → Type 0
  Head w =
      (first : ℕ) × (t : List ℕ) × (w ≡ first ∷ t)
      × (is_space first ≡ false)
      × ((first == b']') ≡ false)

  value-Head :
      (v : Value) (rest : List ℕ)
      → IsExact limits.max_string_bytes v
      → Head (stringified format v ++ rest)
  unfolding IsExact stringified Head
  value-Head null rest h = (b'n', _, refl, refl, refl)
  value-Head (bool true) rest h = (b't', _, refl, refl, refl)
  value-Head (bool false) rest h = (b'f', _, refl, refl, refl)
  value-Head (integer n) rest h =
      let (first, t, e, starts) = int_head n rest h in
      (first, t, e, number_not_space first starts, number_not_end first starts)
  value-Head (double bits) rest h = absurd h
  value-Head (string text) rest h = (0x22, _, refl, refl, refl)
  value-Head (array items) rest h = (b'[', _, refl, refl, refl)
  value-Head (object members) rest h = (b'{', _, refl, refl, refl)

  value-IsSolid :
      (v : Value) (rest : List ℕ)
      → IsExact limits.max_string_bytes v
      → IsSolid (stringified format v ++ rest)
  unfolding Head
  value-IsSolid v rest h =
      let (first, t, e, black, no_end) = value-Head v rest h in
      subst IsSolid (sym e) (IsSolid-cons first t black)

  null_lem :
      (fuel depth seen p : ℕ) (rest : List ℕ)
      → ltb limits.max_depth depth ≡ false
      → ltb limits.max_values (suc seen) ≡ false
      → parse_value strtod limits (suc fuel) depth seen (cursor p (null_text ++ rest))
        ≡ parsed (null, suc seen) (cursor (p + length null_text) rest)
  unfolding parse_scalar
  null_lem fuel depth seen p rest deep many =
      scalar_step strtod limits fuel depth seen deep many p b'n' (b'u' ∷ b'l' ∷ b'l' ∷ rest) refl
        refl refl

  true_lem :
      (fuel depth seen p : ℕ) (rest : List ℕ)
      → ltb limits.max_depth depth ≡ false
      → ltb limits.max_values (suc seen) ≡ false
      → parse_value strtod limits (suc fuel) depth seen (cursor p (true_text ++ rest))
        ≡ parsed (bool true, suc seen) (cursor (p + length true_text) rest)
  unfolding parse_scalar
  true_lem fuel depth seen p rest deep many =
      scalar_step strtod limits fuel depth seen deep many p b't' (b'r' ∷ b'u' ∷ b'e' ∷ rest) refl
        refl refl

  false_lem :
      (fuel depth seen p : ℕ) (rest : List ℕ)
      → ltb limits.max_depth depth ≡ false
      → ltb limits.max_values (suc seen) ≡ false
      → parse_value strtod limits (suc fuel) depth seen (cursor p (false_text ++ rest))
        ≡ parsed (bool false, suc seen) (cursor (p + length false_text) rest)
  unfolding parse_scalar
  false_lem fuel depth seen p rest deep many =
      scalar_step strtod limits fuel depth seen deep many p b'f' (b'a' ∷ b'l' ∷ b's' ∷ b'e' ∷ rest)
        refl refl refl

  integer_lem :
      (n : ℤ) (fuel depth seen p : ℕ) (rest : List ℕ)
      → InRange n
      → ltb limits.max_depth depth ≡ false
      → ltb limits.max_values (suc seen) ≡ false
      → ends rest ≡ true
      → parse_value strtod limits (suc fuel) depth seen (cursor p (int_chars n ++ rest))
        ≡ parsed (integer n, suc seen) (cursor (p + length (int_chars n)) rest)
  integer_lem n fuel depth seen p rest h deep many stop =
      let (first, t, e, starts) = int_head n rest h in
      let number =
        ap (λ w. parse_number strtod (cursor p w)) (sym e)
        ∙ parse_number-int_chars strtod n p rest h stop in
      ap (λ w. parse_value strtod limits (suc fuel) depth seen (cursor p w)) e
      ∙ scalar_step strtod limits fuel depth seen deep many p first t
          (number_not_array first starts) (number_not_object first starts)
          (parse_scalar-number strtod limits first (cursor p (first ∷ t)) starts ∙ number)

  string_lem :
      (text : List ℕ) (fuel depth seen p : ℕ) (rest : List ℕ)
      → TextFits limits.max_string_bytes text
      → ltb limits.max_depth depth ≡ false
      → ltb limits.max_values (suc seen) ≡ false
      → parse_value strtod limits (suc fuel) depth seen (cursor p (quote text ++ rest))
        ≡ parsed (string text, suc seen) (cursor (p + length (quote text)) rest)
  unfolding quote parse_scalar
  string_lem text fuel depth seen p rest h deep many =
      scalar_step strtod limits fuel depth seen deep many p 0x22 _ refl refl (
        ap (λ r. r >>= λ t c. parsed (string t) c)
          (parse_string-quote limits.max_string_bytes p text rest h.0 h.1))

  inner-IsSolid :
      (v : Value) (xs ys : List ℕ)
      → IsExact limits.max_string_bytes v
      → IsSolid ((stringified format v ++ xs) ++ ys)
  inner-IsSolid v xs ys h =
      subst IsSolid (sym (append_assoc (stringified format v) xs ys)) (value-IsSolid v (xs ++ ys) h)

  inner_open :
      (v : Value) (xs ys : List ℕ)
      → IsExact limits.max_string_bytes v
      → next_is (λ b. b == b']') ((stringified format v ++ xs) ++ ys) ≡ false
  unfolding Head
  inner_open v xs ys h =
      let (first, t, e, black, no_end) = value-Head v (xs ++ ys) h in
      ap (next_is (λ b. b == b']')) (append_assoc (stringified format v) xs ys ∙ e) ∙ no_end

  entry_split :
      (key text xs ys : List ℕ)
      → (quote key ++ b':' ∷ (text ++ xs)) ++ ys ≡ quote key ++ b':' ∷ (text ++ (xs ++ ys))
  entry_split key text xs ys =
      append_assoc (quote key) (b':' ∷ (text ++ xs)) ys
      ∙ ap (λ w. quote key ++ b':' ∷ w) (append_assoc text xs ys)

  -- A text with its closing byte, and the reading of it.
  ItemsRead : Items → ℕ → ℕ → ℕ → ℕ → List ℕ → Type 0
  ItemsRead items fuel depth seen p rest =
      parse_items strtod limits fuel (suc depth) seen
        (cursor p (stringified_items format true items ++ b']' ∷ rest))
      ≡ parsed (items, seen + values_items items)
          (cursor (suc (p + length (stringified_items format true items))) rest)

  MembersRead : Members → Members → ℕ → ℕ → ℕ → ℕ → List ℕ → Type 0
  MembersRead acc members fuel depth seen p rest =
      parse_members strtod limits fuel (suc depth) seen acc
        (cursor p (stringified_members format true members ++ b'}' ∷ rest))
      ≡ parsed (append_members acc members, seen + values_members members)
          (cursor (suc (p + length (stringified_members format true members))) rest)

  abbrev some_items : Items → Bool
  some_items nil = false
  some_items (cons v items) = true

  abbrev some_members : Members → Bool
  some_members empty = false
  some_members (entry key v members) = true

  mutual
    unfolding stringified quote IsExact height values ItemsRead MembersRead

    value_lem :
        (fuel : ℕ) (v : Value) (depth seen p : ℕ) (rest : List ℕ)
        → IsExact limits.max_string_bytes v
        → depth + height v ≤ limits.max_depth
        → seen + values v ≤ limits.max_values
        → 2 * length (stringified format v) < fuel
        → ends rest ≡ true
        → parse_value strtod limits fuel depth seen (cursor p (stringified format v ++ rest))
          ≡ parsed (v, seen + values v) (cursor (p + length (stringified format v)) rest)
    value_lem zero v depth seen p rest exact low few enough stop = absurd (omega (arith, enough))
    value_lem (suc fuel) null depth seen p rest exact low few enough stop =
        null_lem fuel depth seen p rest (lt_false (omega (arith, low)))
          (lt_false (omega (arith, few)))
        ∙ moved (omega arith) refl
    value_lem (suc fuel) (bool true) depth seen p rest exact low few enough stop =
        true_lem fuel depth seen p rest (lt_false (omega (arith, low)))
          (lt_false (omega (arith, few)))
        ∙ moved (omega arith) refl
    value_lem (suc fuel) (bool false) depth seen p rest exact low few enough stop =
        false_lem fuel depth seen p rest (lt_false (omega (arith, low)))
          (lt_false (omega (arith, few)))
        ∙ moved (omega arith) refl
    value_lem (suc fuel) (integer n) depth seen p rest exact low few enough stop =
        integer_lem n fuel depth seen p rest exact (lt_false (omega (arith, low)))
          (lt_false (omega (arith, few))) stop
        ∙ moved (omega arith) refl
    value_lem (suc fuel) (double bits) depth seen p rest exact low few enough stop = absurd exact
    value_lem (suc fuel) (string text) depth seen p rest exact low few enough stop =
        string_lem text fuel depth seen p rest exact (lt_false (omega (arith, low)))
          (lt_false (omega (arith, few)))
        ∙ moved (omega arith) refl
    value_lem (suc fuel) (array nil) depth seen p rest exact low few enough stop =
        array_empty strtod limits fuel depth seen (lt_false (omega (arith, low)))
          (lt_false (omega (arith, few))) p rest
        ∙ moved (omega arith) (omega arith)
    value_lem (suc fuel) (array (cons v items)) depth seen p rest exact low few enough stop =
        let inner = stringified_items format true (cons v items) in
        let size = length-append inner (b']' ∷ []) in
        ap (λ w. parse_value strtod limits (suc fuel) depth seen (cursor p (b'[' ∷ w)))
          (append_assoc inner (b']' ∷ []) rest)
        ∙ array_step strtod limits fuel depth seen (lt_false (omega (arith, low)))
            (lt_false (omega (arith, few))) p (inner ++ b']' ∷ rest)
            (inner-IsSolid v (stringified_items format false items) (b']' ∷ rest) exact.0)
            (inner_open v (stringified_items format false items) (b']' ∷ rest) exact.0)
            (items_lem fuel (cons v items) depth (suc seen) (suc p) rest exact low
              (omega (arith, few)) (omega (arith, enough, size)) refl)
        ∙ moved (omega arith) (omega (arith, size))
    value_lem (suc fuel) (object empty) depth seen p rest exact low few enough stop =
        object_empty strtod limits fuel depth seen (lt_false (omega (arith, low)))
          (lt_false (omega (arith, few))) p rest
        ∙ moved (omega arith) (omega arith)
    value_lem (suc fuel) (object (entry key v members)) depth seen p rest exact low few enough
          stop =
        let inner = stringified_members format true (entry key v members) in
        let size = length-append inner (b'}' ∷ []) in
        ap (λ w. parse_value strtod limits (suc fuel) depth seen (cursor p (b'{' ∷ w)))
          (append_assoc inner (b'}' ∷ []) rest)
        ∙ object_step strtod limits fuel depth seen (lt_false (omega (arith, low)))
            (lt_false (omega (arith, few))) p _
            (members_lem fuel (entry key v members) empty depth (suc seen) (suc p) rest exact.1
              exact.0 low (omega (arith, few)) (omega (arith, enough, size)) refl)
        ∙ moved (omega arith) (omega (arith, size))

    items_lem :
        (fuel : ℕ) (items : Items) (depth seen p : ℕ) (rest : List ℕ)
        → AreExact limits.max_string_bytes items
        → depth + height_items items ≤ limits.max_depth
        → seen + values_items items ≤ limits.max_values
        → 2 * length (stringified_items format true items) + 1 < fuel
        → some_items items ≡ true
        → ItemsRead items fuel depth seen p rest
    items_lem zero items depth seen p rest exact low few enough here =
        absurd (omega (arith, enough))
    items_lem (suc fuel) nil depth seen p rest exact low few enough here = absurd (cc)
    items_lem (suc fuel) (cons v nil) depth seen p rest exact low few enough here =
        let size = length-append (stringified format v) [] in
        ap (λ w. parse_items strtod limits (suc fuel) (suc depth) seen (cursor p w))
          (append_assoc (stringified format v) [] (b']' ∷ rest))
        ∙ items_last strtod limits fuel (suc depth) seen _ rest (
            value_lem fuel v (suc depth) seen p (b']' ∷ rest) exact.0 (omega (arith, low))
              (omega (arith, few)) (omega (arith, enough, size)) refl)
        ∙ moved (omega arith) (omega (arith, size))
    items_lem (suc fuel) (cons v (cons w items)) depth seen p rest exact low few enough here =
        let more = stringified_items format true (cons w items) in
        let size = length-append (stringified format v) (b',' ∷ more) in
        ap (λ u. parse_items strtod limits (suc fuel) (suc depth) seen (cursor p u))
          (append_assoc (stringified format v) (b',' ∷ more) (b']' ∷ rest))
        ∙ items_more strtod limits fuel (suc depth) seen _ (more ++ b']' ∷ rest)
            (value_lem fuel v (suc depth) seen p (b',' ∷ (more ++ b']' ∷ rest)) exact.0
              (omega (arith, low)) (omega (arith, few)) (omega (arith, enough, size)) refl)
            (inner-IsSolid w (stringified_items format false items) (b']' ∷ rest) exact.1.0)
            (items_lem fuel (cons w items) depth (seen + values v)
              (suc (p + length (stringified format v))) rest exact.1 (omega (arith, low))
              (omega (arith, few)) (omega (arith, enough, size)) refl)
        ∙ moved (omega arith) (omega (arith, size))

    members_lem :
        (fuel : ℕ) (members acc : Members) (depth seen p : ℕ) (rest : List ℕ)
        → AreExactMembers limits.max_string_bytes members
        → IsSorted (append_members acc members)
        → depth + height_members members ≤ limits.max_depth
        → seen + values_members members ≤ limits.max_values
        → 2 * length (stringified_members format true members) + 1 < fuel
        → some_members members ≡ true
        → MembersRead acc members fuel depth seen p rest
    members_lem zero members acc depth seen p rest exact sorted low few enough here =
        absurd (omega (arith, enough))
    members_lem (suc fuel) empty acc depth seen p rest exact sorted low few enough here =
        absurd (cc)
    members_lem (suc fuel) (entry key v empty) acc depth seen p rest exact sorted low few enough
          here =
        let size = length-append (quote key) (b':' ∷ (stringified format v ++ [])) in
        let size' = length-append (stringified format v) [] in
        ap (λ w. parse_members strtod limits (suc fuel) (suc depth) seen acc (cursor p w))
          (entry_split key (stringified format v) [] (b'}' ∷ rest))
        ∙ members_last strtod limits fuel (suc depth) seen p _ key rest acc
            (stringified format v ++ b'}' ∷ rest)
            (parse_string-quote limits.max_string_bytes p key _ exact.0.0 exact.0.1)
            (value-IsSolid v (b'}' ∷ rest) exact.1)
            (value_lem fuel v (suc depth) seen (suc (p + length (quote key))) (b'}' ∷ rest) exact.1
              (omega (arith, low)) (omega (arith, few)) (omega (arith, enough, size, size')) refl)
            (emplace-snoc key v acc empty sorted)
        ∙ ap
            (λ m.
              parsed (m, seen + values v)
                (cursor (suc (suc (p + length (quote key)) + length (stringified format v))) rest))
            (snoc_lem acc key v)
        ∙ moved (omega arith) (omega (arith, size, size'))
    members_lem (suc fuel) (entry key v (entry key' w members)) acc depth seen p rest exact sorted
          low few enough here =
        let more = stringified_members format true (entry key' w members) in
        let size = length-append (quote key) (b':' ∷ (stringified format v ++ b',' ∷ more)) in
        let size' = length-append (stringified format v) (b',' ∷ more) in
        let same = append_members-snoc acc (entry key' w members) key v in
        ap (λ u. parse_members strtod limits (suc fuel) (suc depth) seen acc (cursor p u))
          (entry_split key (stringified format v) (b',' ∷ more) (b'}' ∷ rest))
        ∙ members_more strtod limits fuel (suc depth) seen p _ key _ acc
            (stringified format v ++ (b',' ∷ (more ++ b'}' ∷ rest)))
            (parse_string-quote limits.max_string_bytes p key _ exact.0.0 exact.0.1)
            (value-IsSolid v (b',' ∷ (more ++ b'}' ∷ rest)) exact.1)
            (value_lem fuel v (suc depth) seen (suc (p + length (quote key)))
              (b',' ∷ (more ++ b'}' ∷ rest)) exact.1 (omega (arith, low)) (omega (arith, few))
              (omega (arith, enough, size, size')) refl)
            (emplace-snoc key v acc (entry key' w members) sorted)
            (members_lem fuel (entry key' w members) (snoc acc key v) depth (seen + values v)
              (suc (suc (p + length (quote key)) + length (stringified format v))) rest exact.2
              (subst IsSorted (sym same) sorted) (omega (arith, low)) (omega (arith, few))
              (omega (arith, enough, size, size')) refl)
        ∙ ap
            (λ m.
              parsed (m, seen + values v + values_members (entry key' w members))
                (cursor
                  (suc (
                    suc (suc (p + length (quote key)) + length (stringified format v))
                    + length more))
                  rest))
            same
        ∙ moved (omega arith) (omega (arith, size, size'))

run_lem :
    (strtod : List ℕ → Option ℕ) (limits : ParseLimits) (text : List ℕ) {v : Value} {s q : ℕ}
    → skip_whitespace (cursor 0 text) ≡ cursor 0 text
    → parse_value strtod limits (2 * length text + 2) 0 0 (cursor 0 text)
      ≡ parsed (v, s) (cursor q [])
    → run strtod limits text ≡ parsed v (cursor q [])
unfolding run
run_lem strtod limits text start read = rw (start, read)

-- Stringify and Parse are inverse where a text can carry the value: for a value without doubles whose
-- integers are int64, whose strings and keys are valid UTF-8 within the limits, whose objects are
-- sorted as a std::map is, and whose depth, count and text are within the limits of the parser,
-- Parse reads the value back from its text and stops at the end of the text.
pub parse-stringified :
    (strtod : List ℕ → Option ℕ) (format : ℕ → List ℕ) (limits : ParseLimits) (v : Value)
    → IsExact limits.max_string_bytes v
    → height v ≤ limits.max_depth
    → values v ≤ limits.max_values
    → length (stringified format v) ≤ limits.max_string_bytes * 2 % 2 ^ 64
    → parse strtod limits (stringified format v)
      ≡ some (parsed v (cursor (length (stringified format v)) []))
unfolding parse
parse-stringified strtod format limits v exact low few fits =
    let text = stringified format v in
    let whole : text ++ [] ≡ text = append-nil text in
    let start : skip_whitespace (cursor 0 text) ≡ cursor 0 text =
      ap (λ w. skip_whitespace (cursor 0 w)) (sym whole)
      ∙ value-IsSolid strtod format limits v [] exact 0
      ∙ ap (cursor 0) whole in
    let read =
      ap (λ w. parse_value strtod limits (2 * length text + 2) 0 0 (cursor 0 w)) (sym whole)
      ∙ value_lem strtod format limits (2 * length text + 2) v 0 0 0 [] exact (omega (arith, low))
          (omega (arith, few)) (omega arith) refl in
    rw (lt_false fits) (
      ap some (run_lem strtod limits text start read)
      ∙ ap (λ q. some (parsed v (cursor q []))) (omega arith))
