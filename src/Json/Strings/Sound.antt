-- ===== src/Json/Strings/Sound.antt =====
-- What ParseString of src/util/json.cpp lets through.
use gem16gb.Prelude.{
  ℕ, zero, suc, ◌≤◌, ◌≡◌, inl, inr, Bool, true, false, List, [], ◌∷◌, ◌++◌, ltb, ◌==◌,
  if◌then◌else◌, length, String, arith, Bool-cases,
}
use gem16gb.Json.Utf8.{is_valid_utf8}
use gem16gb.Json.Strings.{Cursor, Parsed, parsed, failed, string_piece, string_from, parse_string}

-- A refusal, or a text that is valid UTF-8 and within the limit.
pub data Accepted (limit : ℕ) : Parsed (List ℕ) → Type 0 where
  accepted :
      {text : List ℕ} {c : Cursor}
      → is_valid_utf8 text ≡ true
      → length text ≤ limit
      → Accepted limit (parsed text c)
  refused : {n : ℕ} {m : String} → Accepted limit (failed n m)

again-Accepted :
    (limit : ℕ) (output : List ℕ) (piece : Parsed (List ℕ))
    (next : List ℕ → Cursor → Parsed (List ℕ))
    → ((bytes : List ℕ) (c : Cursor)
        → length (output ++ bytes) ≤ limit
        → Accepted limit (next bytes c))
    → Accepted limit (elim piece [
      | failed n m ↦ failed n m
      | parsed bytes c ↦
          if ltb limit (length (output ++ bytes))
          then failed c.position "string byte limit exceeded"
          else next bytes c
    ])
again-Accepted limit output (failed n m) next h = refused
again-Accepted limit output (parsed bytes c) next h =
    elim (Bool-cases (ltb limit (length (output ++ bytes)))) [
      | inl e ↦ rw e refused
      | inr e ↦ rw e (h bytes c (ground arith))
    ]

closed-Accepted :
    (limit position : ℕ) (rest output : List ℕ)
    → length output ≤ limit
    → Accepted limit (
        if is_valid_utf8 output
        then parsed output (record { position = suc position; rest = rest })
        else failed (suc position) "string is not valid UTF-8")
closed-Accepted limit position rest output h = elim (Bool-cases (is_valid_utf8 output)) [
  | inl e ↦ rw e (accepted e h)
  | inr e ↦ rw e refused
]

branch-Accepted :
    (limit : ℕ) (b : Bool) {x y : Parsed (List ℕ)}
    → Accepted limit x
    → Accepted limit y
    → Accepted limit (if b then x else y)
branch-Accepted limit true h k = h
branch-Accepted limit false h k = k

string_from-Accepted :
    (fuel limit position : ℕ) (rest output : List ℕ)
    → length output ≤ limit
    → Accepted limit (string_from fuel limit position rest output)
unfolding string_from
string_from-Accepted fuel limit position [] output h = refused
string_from-Accepted zero limit position (byte ∷ rest) output h = refused
string_from-Accepted (suc fuel) limit position (byte ∷ rest) output h =
    branch-Accepted limit (byte == 0x22) (closed-Accepted limit position rest output h) (
      branch-Accepted limit (ltb byte 0x20) refused (
        again-Accepted limit output (string_piece byte (suc position) rest) _ (λ bytes c fits.
          string_from-Accepted fuel limit c.position c.rest (output ++ bytes) fits)))

opened-Accepted :
    (limit position : ℕ) (text : List ℕ)
    → Accepted limit (elim text [
      | [] ↦ failed (suc position) "unterminated string"
      | quote ∷ rest ↦ string_from (length rest) limit (suc position) rest []
    ])
opened-Accepted limit position [] = refused
opened-Accepted limit position (quote ∷ rest) =
    string_from-Accepted (length rest) limit (suc position) rest [] (omega arith)

-- The scan of a string refuses, or gives a text that is valid UTF-8 and no longer than the limit on
-- string bytes, whatever the input is.
pub parse_string-Accepted : (limit : ℕ) (c : Cursor) → Accepted limit (parse_string limit c)
unfolding parse_string
parse_string-Accepted limit c = opened-Accepted limit c.position c.rest
