-- ===== src/Sse/Frame.antt =====
-- Reset and Finish of src/server/sse_chunk.h.
use gem16gb.Prelude.{
  ℕ, zero, suc, ◌+◌, ◌-◌, ◌*◌, ◌/◌, ◌%◌, ◌^◌, ◌≤◌, ◌<◌, ◌≡◌, refl, sym, ap, subst, ◌∙◌, false,
  Option, some, none, List, [], ◌∷◌, ◌++◌, ltb, length, take, drop, arith, append_assoc, append-nil,
  length-append, length-take, length-drop, take-append-drop, Bool-cases, inl, inr,
}
use native.Mathlib.Nat.{pow-suc}
use gem16gb.Json.Escape.{hex_digit}
use gem16gb.Json.Strings.{hex_value}
use gem16gb.Json.Strings.RoundTrip.{hex_value-hex_digit}
use gem16gb.Sse.{SseChunkBuilder, write, append, reset, data_field, hex_chars, put_header, finish}
use gem16gb.Sse.Laws.{Framed, append-Framed, write-append}

drop-append : (xs ys : List ℕ) (n : ℕ) → n ≡ length xs → drop n (xs ++ ys) ≡ ys
drop-append [] ys zero e = refl
drop-append [] ys (suc n) e = absurd (omega (arith, e))
drop-append (x ∷ xs) ys zero e = absurd (omega (arith, e))
drop-append (x ∷ xs) ys (suc n) e = drop-append xs ys n (omega (arith, e))

take-append : (xs ys : List ℕ) (n : ℕ) → n ≡ length xs → take n (xs ++ ys) ≡ xs
take-append [] ys zero e = refl
take-append [] ys (suc n) e = absurd (omega (arith, e))
take-append (x ∷ xs) ys zero e = absurd (omega (arith, e))
take-append (x ∷ xs) ys (suc n) e = ap (λ t. x ∷ t) (take-append xs ys n (omega (arith, e)))

six : (n : ℕ) → n - 18 - 6 ≡ n - 24
six n = omega arith

-- From any state, Reset leaves a payload that is the field's name.
pub reset-Framed :
    (b : SseChunkBuilder)
    → 24 ≤ length b.storage
    → Framed (reset b) data_field (length b.storage - 24)
unfolding reset
reset-Framed b wide =
    let front = length-take 18 b.storage in
    let back = length-drop 18 b.storage in
    let whole = take-append-drop 18 b.storage in
    let empty : Framed (record b { size = 18; failed = false }) [] (length b.storage - 18) =
      record {
        lead = take 18 b.storage;
        rest = drop 18 b.storage;
        stored = sym (ap (λ t. t ++ drop 18 b.storage) (append-nil (take 18 b.storage)) ∙ whole);
        lead-length = omega (arith, front, wide);
        rest-length = back;
        at = omega (arith, front, wide, length-append (take 18 b.storage) []);
        live = refl;
      } in
    subst (Framed _ data_field) (six (length b.storage))
      (append-Framed _ data_field empty (omega (arith, wide)))

-- What a client of the HTTP connection reads a chunk size from.
unfoldable pub read_hex : ℕ → List ℕ → Option ℕ
read_hex value [] = some value
read_hex value (c ∷ digits) = elim (hex_value c) [
  | none ↦ none
  | some d ↦ read_hex (value * 16 + d) digits
]

read_hex-step :
    (value c : ℕ) (digits : List ℕ) {d : ℕ}
    → hex_value c ≡ some d
    → read_hex value (c ∷ digits) ≡ read_hex (value * 16 + d) digits
unfolding read_hex
read_hex-step value c digits h = rw (h, read_hex)

read_hex-hex_chars :
    (fuel value : ℕ) (digits : List ℕ)
    → value < 16 ^ fuel
    → read_hex 0 (hex_chars fuel value digits) ≡ read_hex value digits
unfolding hex_chars
read_hex-hex_chars zero value digits h = ap (λ n. read_hex n digits) (omega (arith, h))
read_hex-hex_chars (suc fuel) value digits h =
    let power : 16 ^ suc fuel ≡ 16 ^ fuel * 16 = pow-suc 16 fuel in
    elim (Bool-cases (ltb value 16)) [
      | inl e ↦ rw e (
          read_hex-step 0 (hex_digit value) digits (hex_value-hex_digit value (ground arith))
          ∙ ap (λ n. read_hex n digits) (omega arith))
      | inr e ↦ rw e (
          read_hex-hex_chars fuel (value / 16) (hex_digit (value % 16) ∷ digits)
            (omega (arith, h, power))
          ∙ read_hex-step (value / 16) (hex_digit (value % 16)) digits
              (hex_value-hex_digit (value % 16) (omega arith))
          ∙ ap (λ n. read_hex n digits) (omega arith))
    ]

length-hex_chars :
    (fuel value : ℕ) (digits : List ℕ) → length (hex_chars fuel value digits) ≤ fuel + length digits
unfolding hex_chars
length-hex_chars zero value digits = omega arith
length-hex_chars (suc fuel) value digits =
    let more = length-hex_chars fuel (value / 16) (hex_digit (value % 16) ∷ digits) in ground arith

-- Bytes written so that they end where the tail begins.
drop-write :
    (lead bytes tail : List ℕ) (begin : ℕ)
    → begin + length bytes ≡ length lead
    → drop begin (write (lead ++ tail) begin bytes) ≡ bytes ++ tail
drop-write lead bytes tail begin e =
    let front = length-take begin lead in
    let back = length-drop begin lead in
    let start : begin ≡ length (take begin lead) = omega (arith, front, e) in
    let parts : lead ++ tail ≡ take begin lead ++ (drop begin lead ++ tail) =
      ap (λ t. t ++ tail) (sym (take-append-drop begin lead))
      ∙ append_assoc (take begin lead) (drop begin lead) tail in
    let cut : drop (length bytes) (drop begin lead ++ tail) ≡ tail =
      drop-append (drop begin lead) tail (length bytes) (omega (arith, back, e)) in
    let size = length-append (drop begin lead) tail in
    ap (drop begin) (
      ap (λ t. write t begin bytes) parts
      ∙ ap (λ n. write (take begin lead ++ (drop begin lead ++ tail)) n bytes) start
      ∙ write-append (take begin lead) bytes (drop begin lead ++ tail)
          (omega (arith, size, back, e))
      ∙ ap (λ t. take begin lead ++ (bytes ++ t)) cut)
    ∙ drop-append (take begin lead) (bytes ++ tail) begin start

put_header_lem :
    (b : SseChunkBuilder) {body : List ℕ} {room : ℕ} (hexadecimal : List ℕ)
    → Framed b body room
    → length hexadecimal ≤ 16
    → (put_header b hexadecimal).1 ≡ (hexadecimal ++ 0x0d ∷ 0x0a ∷ []) ++ body
unfolding put_header
put_header_lem b {body} hexadecimal f short =
    let header = hexadecimal ++ 0x0d ∷ 0x0a ∷ [] in
    let begin = 18 - (length hexadecimal + 2) in
    let long = length-append hexadecimal (0x0d ∷ 0x0a ∷ []) in
    let whole = length-append f.lead body in
    let line = length-append header body in
    ap (λ s. take (b.size - begin) (drop begin (write s begin header)))
      (f.stored ∙ append_assoc f.lead body f.rest)
    ∙ ap (take (b.size - begin)) (
        drop-write f.lead header (body ++ f.rest) begin (omega (arith, long, f.lead-length, short)))
    ∙ ap (take (b.size - begin)) (sym (append_assoc header body f.rest))
    ∙ take-append (header ++ body) f.rest (b.size - begin)
        (omega (arith, line, long, whole, f.at, f.lead-length, short))

size_lem :
    (b : SseChunkBuilder) {body : List ℕ} {room : ℕ}
    → Framed b body room
    → b.size - 18 ≡ length body
size_lem b {body} f = omega (arith, f.at, length-append f.lead body, f.lead-length)

finish_lem :
    (b ended closed : SseChunkBuilder)
    → append b (0x0a ∷ 0x0a ∷ []) ≡ ended
    → append ended (0x0d ∷ 0x0a ∷ []) ≡ closed
    → ended.failed ≡ false
    → closed.failed ≡ false
    → finish b ≡ put_header closed (hex_chars 16 (ended.size - 18) [])
unfolding finish
finish_lem b ended closed e e' live live' = simp (e, e', live, live')

-- What `finish` returns for a payload `body`: the size line in hexadecimal, which reads back as the
-- number of payload bytes, the payload with its blank line, and the end of the chunk.
pub record IsChunk (body bytes : List ℕ) : Type 0 where
  pub digits : List ℕ
  pub announced : read_hex 0 digits ≡ some (length body + 2)
  pub framed :
      bytes ≡ (digits ++ 0x0d ∷ 0x0a ∷ []) ++ ((body ++ 0x0a ∷ 0x0a ∷ []) ++ 0x0d ∷ 0x0a ∷ [])

-- Finish on a builder with payload `body` and at least four bytes of room (the payload shorter than
-- 2 ^ 63 bytes) returns one HTTP chunk: hexadecimal digits that read back as the number of
-- payload bytes with the blank line, CR LF, the payload, the blank line, CR LF.
pub finish-IsChunk :
    (b : SseChunkBuilder) {body : List ℕ} {room : ℕ}
    → Framed b body room
    → 4 ≤ room
    → length body < 2 ^ 63
    → IsChunk body (finish b).1
unfolding read_hex
finish-IsChunk b {body} f wide small =
    let f1 = append-Framed b (0x0a ∷ 0x0a ∷ []) f (omega (arith, wide)) in
    let ended = append b (0x0a ∷ 0x0a ∷ []) in
    let f2 = append-Framed ended (0x0d ∷ 0x0a ∷ []) f1 (omega (arith, wide)) in
    let hexadecimal = hex_chars 16 (ended.size - 18) [] in
    let long = length-append body (0x0a ∷ 0x0a ∷ []) in
    let sized : ended.size - 18 ≡ length body + 2 = size_lem ended f1 ∙ long in
    record {
      digits = hexadecimal;
      announced =
          read_hex-hex_chars 16 (ended.size - 18) [] (omega (arith, sized, small)) ∙ ap some sized;
      framed =
          ap (λ r. r.1) (finish_lem b ended _ refl refl f1.live f2.live)
          ∙ put_header_lem _ hexadecimal f2
              (omega (arith, length-hex_chars 16 (ended.size - 18) []));
    }
