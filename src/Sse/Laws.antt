-- ===== src/Sse/Laws.antt =====
-- What the builder of src/server/sse_chunk.h holds after each write.
use gem16gb.Prelude.{
  ℕ, suc, ◌+◌, ◌-◌, ◌≤◌, ◌<◌, ◌≡◌, refl, sym, ap, ◌∙◌, true, false, ◌||◌, List, [], ◌∷◌, ◌++◌, ltb,
  ◌==◌, length, set, drop, arith, append_assoc, length-append, length-drop, lt→ltb,
}
use gem16gb.Json.Escape.{escape_byte}
use gem16gb.Sse.{SseChunkBuilder, write, append, append_char, append_json_byte}

lt_false : {m n : ℕ} → n ≤ m → ltb m n ≡ false
lt_false h = ground arith

ap2 : {A B C : Type 0} (f : A → B → C) {x x' : A} {y y' : B} → x ≡ x' → y ≡ y' → f x y ≡ f x' y'
ap2 f {x} {x'} {y} {y'} e e' = ap (λ x. f x y) e ∙ ap (f x') e'

set-append : (xs ys : List ℕ) (x y : ℕ) → set (xs ++ y ∷ ys) (length xs) x ≡ xs ++ x ∷ ys
set-append [] ys x y = refl
set-append (z ∷ xs) ys x y = ap (λ t. z ∷ t) (set-append xs ys x y)

pub write-append :
    (xs value ys : List ℕ)
    → length value ≤ length ys
    → write (xs ++ ys) (length xs) value ≡ xs ++ (value ++ drop (length value) ys)
unfolding write
write-append xs [] ys h = refl
write-append xs (v ∷ value) [] h = absurd (omega (arith, h))
write-append xs (v ∷ value) (y ∷ ys) h =
    let grown : length (xs ++ v ∷ []) ≡ suc (length xs) = length-append xs (v ∷ []) ∙ omega arith in
    ap (λ s. write s (suc (length xs)) value)
      (set-append xs ys v y ∙ sym (append_assoc xs (v ∷ []) ys))
    ∙ ap (λ n. write ((xs ++ v ∷ []) ++ ys) n value) (sym grown)
    ∙ write-append (xs ++ v ∷ []) value ys (omega (arith, h))
    ∙ append_assoc xs (v ∷ []) (value ++ drop (length value) ys)

-- The payload so far is `body`, with `room` bytes behind it.
pub record Framed (b : SseChunkBuilder) (body : List ℕ) (room : ℕ) : Type 0 where
  pub lead : List ℕ
  pub rest : List ℕ
  pub stored : b.storage ≡ (lead ++ body) ++ rest
  pub lead-length : length lead ≡ 18
  pub rest-length : length rest ≡ room
  pub at : b.size ≡ length (lead ++ body)
  pub live : b.failed ≡ false

room_lem :
    {b : SseChunkBuilder} {body : List ℕ} {room : ℕ}
    → Framed b body room
    → length b.storage - b.size ≡ room
room_lem {body} f =
    let long = length-append (f.lead ++ body) f.rest in
    omega (arith, ap length f.stored, long, f.at, f.rest-length)

-- The guard of both appends.
open_lem :
    {b : SseChunkBuilder} {body : List ℕ} {room n : ℕ}
    → Framed b body room
    → n ≤ room
    → b.failed || ltb (length b.storage - b.size) n ≡ false
open_lem {n} f fits = rw (f.live, room_lem f) (lt_false fits)

shut_lem :
    {b : SseChunkBuilder} {body : List ℕ} {room n : ℕ}
    → Framed b body room
    → room < n
    → b.failed || ltb (length b.storage - b.size) n ≡ true
shut_lem {n} f full = rw (f.live, room_lem f) (lt→ltb _ _ full)

written :
    {b : SseChunkBuilder} {body : List ℕ} {room : ℕ} (value : List ℕ)
    → (f : Framed b body room) → length value ≤ room
    → write b.storage b.size value ≡ (f.lead ++ (body ++ value)) ++ drop (length value) f.rest
written {body} value f fits =
    ap2 (λ s n. write s n value) f.stored f.at
    ∙ write-append (f.lead ++ body) value f.rest (omega (arith, fits, f.rest-length))
    ∙ sym (append_assoc (f.lead ++ body) value (drop (length value) f.rest))
    ∙ ap (λ t. t ++ drop (length value) f.rest) (append_assoc f.lead body value)

pub append-Framed :
    (b : SseChunkBuilder) {body : List ℕ} {room : ℕ} (value : List ℕ)
    → Framed b body room
    → length value ≤ room
    → Framed (append b value) (body ++ value) (room - length value)
unfolding append
append-Framed b {body} {room} value f fits =
    let whole = length-append (f.lead ++ body) value in
    let same = ap length (append_assoc f.lead body value) in
    rw (open_lem f fits) (record {
      lead = f.lead;
      rest = drop (length value) f.rest;
      stored = written value f fits;
      lead-length = f.lead-length;
      rest-length = length-drop (length value) f.rest ∙ ap (λ n. n - length value) f.rest-length;
      at = omega (arith, f.at, whole, same);
      live = f.live;
    })

pub append-full :
    (b : SseChunkBuilder) {body : List ℕ} {room : ℕ} (value : List ℕ)
    → Framed b body room
    → room < length value
    → (append b value).failed ≡ true
unfolding append
append-full b value f full = rw (shut_lem f full)

same_guard : (m n r : ℕ) → m ≡ n + r → (n == m) ≡ ltb (m - n) 1
same_guard m n r h = ground arith

plus_one : (n : ℕ) → n + 1 ≡ suc n
plus_one n = omega arith

pub append_char_lem :
    (b : SseChunkBuilder) {body : List ℕ} {room : ℕ} (value : ℕ)
    → Framed b body room
    → append_char b value ≡ append b (value ∷ [])
unfolding append append_char write
append_char_lem b value f =
    let wide = length-append (f.lead ++ _) f.rest in
    let guard : b.failed || b.size == length b.storage
        ≡ b.failed || ltb (length b.storage - b.size) 1 =
      rw (f.live, f.stored, f.at) (same_guard _ _ _ wide) in
    rw (guard, plus_one b.size)

pub append_json_byte_lem :
    (b : SseChunkBuilder) {body : List ℕ} {room : ℕ} (byte : ℕ)
    → Framed b body room
    → append_json_byte b byte ≡ append b (escape_byte byte)
unfolding append_json_byte escape_byte
append_json_byte_lem b byte f = let plain = append_char_lem b byte f in ground arith
