-- ===== src/ToolCalls/Stream/Search.antt =====
-- The search for a marker in src/runtime/tool_call_parser.cpp when text arrives behind what was searched.
use gem16gb.Prelude.{
  ℕ, ◌+◌, ◌≤◌, ◌<◌, ◌≡◌, refl, ap, sym, ◌∙◌, inl, inr, true, false, Option, none, some, List, [],
  ◌∷◌, ◌++◌, ◌==◌, length, Bool-cases, Option-cases, append_assoc, arith,
}
use gem16gb.Json.Parse.{strip_prefix}
use gem16gb.Json.Parse.Shrink.{strip_prefix-le}
use gem16gb.ToolCalls.Arguments.{split_at, behind_text, found_here}
use gem16gb.ToolCalls.Stream.{begins, hold_back}

pub strip_prefix-append :
    (marker text rest q : List ℕ)
    → strip_prefix marker text ≡ some rest
    → strip_prefix marker (text ++ q) ≡ some (rest ++ q)
unfolding strip_prefix
strip_prefix-append [] text rest q e = let same : text ≡ rest = cc in ap (λ t. some (t ++ q)) same
strip_prefix-append (m ∷ marker) [] rest q e = cc
strip_prefix-append (m ∷ marker) (c ∷ text) rest q e = elim (Bool-cases (m == c)) [
  | inl same ↦ rw same (strip_prefix-append marker text rest q (rw same at e))
  | inr other ↦ let wrong = rw other at e in cc
]

pub strip_prefix-none :
    (marker text q : List ℕ)
    → strip_prefix marker text ≡ none
    → begins text marker ≡ false
    → strip_prefix marker (text ++ q) ≡ none
unfolding strip_prefix begins
strip_prefix-none [] text q e b = cc
strip_prefix-none (m ∷ marker) [] q e b = cc
strip_prefix-none (m ∷ marker) (c ∷ text) q e b = ground (arith, strip_prefix-none marker text q)

begins-lt : (text marker : List ℕ) → begins text marker ≡ true → length text < length marker
unfolding begins
begins-lt text [] e = cc
begins-lt [] (m ∷ marker) e = omega arith
begins-lt (c ∷ text) (m ∷ marker) e = ground (arith, begins-lt text marker)

pub not-begins : (text marker : List ℕ) → length marker ≤ length text → begins text marker ≡ false
not-begins text marker h = elim (Bool-cases (begins text marker)) [
  | inr other ↦ other
  | inl begun ↦ absurd (omega (arith, begins-lt text marker begun, h))
]

pub begins-append :
    (text marker q : List ℕ) → begins text marker ≡ false → begins (text ++ q) marker ≡ false
unfolding begins
begins-append text [] q e = refl
begins-append [] (m ∷ marker) q e = cc
begins-append (c ∷ text) (m ∷ marker) q e = ground (arith, begins-append text marker q)

behind_text-eq :
    (text : List ℕ) (o : Option (List ℕ × List ℕ)) (before behind : List ℕ)
    → behind_text text o ≡ some (before, behind)
    → (rest : List ℕ) × (o ≡ some (rest, behind)) × (before ≡ text ++ rest)
unfolding behind_text
behind_text-eq text none before behind e = cc
behind_text-eq text (some (rest, b)) before behind e = (rest, cc, cc)

behind_text_nil : (o : Option (List ℕ × List ℕ)) → behind_text [] o ≡ o
unfolding behind_text
behind_text_nil none = refl
behind_text_nil (some pair) = refl

behind_text-append :
    (t u : List ℕ) (o : Option (List ℕ × List ℕ))
    → behind_text t (behind_text u o) ≡ behind_text (t ++ u) o
unfolding behind_text
behind_text-append t u none = refl
behind_text-append t u (some (before, behind)) =
    ap (λ w. some (w, behind)) (sym (append_assoc t u before))

pub split_at-length :
    (marker text before behind : List ℕ)
    → split_at marker text ≡ some (before, behind)
    → length before + length marker + length behind ≡ length text
unfolding split_at found_here
split_at-length marker [] before behind e = cc
split_at-length marker (c ∷ text) before behind e =
    elim (Option-cases (strip_prefix marker (c ∷ text))) [
      | inr (rest, here) ↦
          let found = rw here at e in
          let first : [] ≡ before = cc in
          let second : rest ≡ behind = cc in
          omega
            (arith, ap length first, ap length second, strip_prefix-le marker (c ∷ text) rest here)
      | inl not_here ↦
          let (later, found, same) =
            behind_text-eq (c ∷ []) (split_at marker text) before behind (rw not_here at e) in
          omega (arith, ap length same, split_at-length marker text later behind found)
    ]

-- What was found stays where it is.
pub split_at-append :
    (marker text q before behind : List ℕ)
    → split_at marker text ≡ some (before, behind)
    → split_at marker (text ++ q) ≡ some (before, behind ++ q)
unfolding split_at found_here
split_at-append marker [] q before behind e = cc
split_at-append marker (c ∷ text) q before behind e =
    elim (Option-cases (strip_prefix marker (c ∷ text))) [
      | inr (rest, here) ↦
          let found = rw here at e in
          let first : [] ≡ before = cc in
          let second : rest ≡ behind = cc in
          rw (strip_prefix-append marker (c ∷ text) rest q here)
            (λ i. some (first i, second i ++ q))
      | inl not_here ↦
          let (later, found, same) =
            behind_text-eq (c ∷ []) (split_at marker text) before behind (rw not_here at e) in
          let short : begins (c ∷ text) marker ≡ false =
            not-begins (c ∷ text) marker
              (omega (arith, split_at-length marker text later behind found)) in
          rw (strip_prefix-none marker (c ∷ text) q not_here short) (
            ap (behind_text (c ∷ [])) (split_at-append marker text q later behind found)
            ∙ prepended c later (behind ++ q) before (sym same))
    ]
  where
    prepended :
        (c : ℕ) (later b before : List ℕ)
        → c ∷ later ≡ before
        → behind_text (c ∷ []) (some (later, b)) ≡ some (before, b)
    prepended c later b before e = unfold behind_text in ap (λ w. some (w, b)) e

split_at-none :
    (marker : List ℕ) (c : ℕ) (text : List ℕ)
    → split_at marker (c ∷ text) ≡ none
    → (strip_prefix marker (c ∷ text) ≡ none) × (split_at marker text ≡ none)
unfolding split_at found_here behind_text
split_at-none marker c text e = elim (Option-cases (strip_prefix marker (c ∷ text))) [
  | inr (rest, here) ↦ let wrong = rw here at e in cc
  | inl not_here ↦ (
    not_here,
    elim (Option-cases (split_at marker text)) [
      | inl nothing ↦ nothing
      | inr ((before, behind), found) ↦ let wrong = rw found at (rw not_here at e) in cc
    ],
  )
]

-- Where nothing was found, the part that was let go stays let go, and the search goes on in the part
-- that was held back.
pub split_at-hold_back :
    (marker text q : List ℕ)
    → split_at marker text ≡ none
    → split_at marker (text ++ q)
      ≡ behind_text (hold_back marker text).0 (split_at marker ((hold_back marker text).1 ++ q))
unfolding hold_back split_at found_here
split_at-hold_back marker [] q e = sym (behind_text_nil (split_at marker q))
split_at-hold_back marker (c ∷ text) q e = elim (Bool-cases (begins (c ∷ text) marker)) [
  | inl held ↦ rw held (sym (behind_text_nil (split_at marker (c ∷ (text ++ q)))))
  | inr gone ↦
      let (not_here, nothing) = split_at-none marker c text e in
      rw gone (
        rw (strip_prefix-none marker (c ∷ text) q not_here gone) (
          ap (behind_text (c ∷ [])) (split_at-hold_back marker text q nothing)
          ∙ behind_text-append (c ∷ []) (hold_back marker text).0
              (split_at marker ((hold_back marker text).1 ++ q))))
]

pub hold_back-append :
    (marker text q : List ℕ)
    → hold_back marker (text ++ q) ≡ (
      (hold_back marker text).0 ++ (hold_back marker ((hold_back marker text).1 ++ q)).0,
      (hold_back marker ((hold_back marker text).1 ++ q)).1,
    )
unfolding hold_back
hold_back-append marker [] q = refl
hold_back-append marker (c ∷ text) q = elim (Bool-cases (begins (c ∷ text) marker)) [
  | inl held ↦ rw held refl
  | inr gone ↦
      let rest = hold_back-append marker text q in
      rw gone (rw (begins-append (c ∷ text) marker q gone) (λ i. (c ∷ (rest i).0, (rest i).1)))
]

pub hold_back_whole :
    (marker text : List ℕ) → (hold_back marker text).0 ++ (hold_back marker text).1 ≡ text
unfolding hold_back
hold_back_whole marker [] = refl
hold_back_whole marker (c ∷ text) = elim (Bool-cases (begins (c ∷ text) marker)) [
  | inl held ↦ rw held refl
  | inr gone ↦ rw gone (ap (λ t. c ∷ t) (hold_back_whole marker text))
]
