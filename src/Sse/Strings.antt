-- ===== src/Sse/Strings.antt =====
-- The JSON strings that the builder of src/server/sse_chunk.h writes.
use gem16gb.Prelude.{
  ℕ, ◌-◌, ◌≤◌, ◌<◌, ◌≡◌, ◌⊎◌, inl, inr, sym, subst, true, List, [], ◌∷◌, ◌++◌, ltb, length, arith,
  append_assoc, append-nil, length-append, Bool-cases,
}
use gem16gb.Json.Escape.{escape_byte, escape, quote}
use gem16gb.Sse.{
  SseChunkBuilder, append, append_char, append_json_byte, append_json_escaped, append_json_string,
  and_then,
}
use gem16gb.Sse.Laws.{Framed, append-Framed, append-full, append_char_lem, append_json_byte_lem}

-- A write of `value` behind `body`: the bytes stand there if there is room, else the builder failed.
pub data Wrote (body : List ℕ) (room : ℕ) (value : List ℕ) (b : SseChunkBuilder) : Type 0 where
  fits :
      length value ≤ room → Framed b (body ++ value) (room - length value) → Wrote body room value b
  full : room < length value → b.failed ≡ true → Wrote body room value b

subst2 : (P : List ℕ → ℕ → Type 0) {xs ys : List ℕ} {m n : ℕ} → xs ≡ ys → m ≡ n → P xs m → P ys n
subst2 P {xs} {ys} {m} {n} e e' h = subst (P ys) e' (subst (λ t. P t m) e h)

minus_zero : (n : ℕ) → n ≡ n - 0
minus_zero n = omega arith

le_or_lt : (m n : ℕ) → (m ≤ n) ⊎ (n < m)
le_or_lt m n = elim (Bool-cases (ltb n m)) [
  | inl h ↦ inr (ground arith)
  | inr h ↦ inl (ground arith)
]

pub append-Wrote :
    (b : SseChunkBuilder) {body : List ℕ} {room : ℕ} (value : List ℕ)
    → Framed b body room
    → Wrote body room value (append b value)
append-Wrote b {room} value f = elim (le_or_lt (length value) room) [
  | inl h ↦ fits h (append-Framed b value f h)
  | inr h ↦ full h (append-full b value f h)
]

joined :
    {body : List ℕ} {room : ℕ} (v w : List ℕ) (b : SseChunkBuilder)
    → length v ≤ room
    → Wrote (body ++ v) (room - length v) w b
    → Wrote body room (v ++ w) b
joined {body} {room} v w b h (full k stuck) =
    let long = length-append v w in full (omega (arith, h, k, long)) stuck
joined {body} {room} v w b h (fits k f) =
    let long = length-append v w in
    fits (omega (arith, h, k, long))
      (subst2 (Framed b) (append_assoc body v w) (omega (arith, long)) f)

-- One write behind another.
and_then-Wrote :
    {body : List ℕ} {room : ℕ} (v w : List ℕ) (b : SseChunkBuilder)
    (next : SseChunkBuilder → SseChunkBuilder)
    → Wrote body room v b
    → (Framed b (body ++ v) (room - length v) → Wrote (body ++ v) (room - length v) w (next b))
    → Wrote body room (v ++ w) (and_then b next)
and_then-Wrote {body} {room} v w b next (full h stuck) k =
    let long = length-append v w in simp stuck (full (omega (arith, h, long)) stuck)
and_then-Wrote {body} {room} v w b next (fits h f) k =
    simp f.live (joined {body = body} {room = room} v w (next b) h (k f))

append_json_escaped-Wrote :
    (b : SseChunkBuilder) {body : List ℕ} {room : ℕ} (value : List ℕ)
    → Framed b body room
    → Wrote body room (escape value) (append_json_escaped b value)
unfolding escape append_json_escaped
append_json_escaped-Wrote b {body} {room} [] f =
    fits (omega arith) (subst2 (Framed b) (sym (append-nil body)) (minus_zero room) f)
append_json_escaped-Wrote b {body} {room} (byte ∷ value) f =
    and_then-Wrote (escape_byte byte) (escape value) (append_json_byte b byte)
      (λ b. append_json_escaped b value)
      (subst (Wrote body room (escape_byte byte)) (sym (append_json_byte_lem b byte f))
        (append-Wrote b (escape_byte byte) f))
      (λ f'. append_json_escaped-Wrote (append_json_byte b byte) value f')

char-Wrote :
    (b : SseChunkBuilder) {body : List ℕ} {room : ℕ} (c : ℕ)
    → Framed b body room
    → Wrote body room (c ∷ []) (append_char b c)
char-Wrote b {body} {room} c f =
    subst (Wrote body room (c ∷ [])) (sym (append_char_lem b c f)) (append-Wrote b (c ∷ []) f)

-- A builder whose payload is `body` with `room` bytes left writes exactly the JSON string that
-- Quote prints for the value behind it, if there is room for all of it; if there is not, the builder
-- has failed.
pub append_json_string-Wrote :
    (b : SseChunkBuilder) {body : List ℕ} {room : ℕ} (value : List ℕ)
    → Framed b body room
    → Wrote body room (quote value) (append_json_string b value)
unfolding append_json_string quote
append_json_string-Wrote b {body} {room} value f =
    and_then-Wrote (0x22 ∷ escape value) (0x22 ∷ [])
      (and_then (append_char b 0x22) (λ b. append_json_escaped b value)) (λ b. append_char b 0x22)
      (and_then-Wrote (0x22 ∷ []) (escape value) (append_char b 0x22)
        (λ b. append_json_escaped b value) (char-Wrote b 0x22 f)
        (append_json_escaped-Wrote (append_char b 0x22) value))
      (char-Wrote _ 0x22)
