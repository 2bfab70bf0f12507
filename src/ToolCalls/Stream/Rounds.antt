-- ===== src/ToolCalls/Stream/Rounds.antt =====
-- A round of Consume of src/runtime/tool_call_parser.cpp, in any state: what it takes, and what it does when
-- more text has come.
use gem16gb.Prelude.{
  ℕ, ◌≤◌, ◌<◌, ◌≡◌, refl, ap, sym, subst, ◌∙◌, inl, inr, Bool, false, Option, none, some, List, [],
  ◌∷◌, ◌++◌, ltb, length, Bool-cases, arith,
}
use gem16gb.Status.{Result, ok, err}
use gem16gb.Json.Parse.{is_nil, strip_prefix}
use gem16gb.ToolCalls.Arguments.{split_at, parse_arguments}
use gem16gb.ToolCalls.Stream.{
  State, in_text, in_name, in_arguments, GenerationEvent, GemmaToolCallParser, Step, next, stop,
  refused, tool_open, tool_close, call_prefix, begins, text_found, all_name_bytes, name_found,
  prefix_found, read_name, close_call, arguments_found, step_in, step,
}
use gem16gb.Json.Parse.Shrink.{strip_prefix-le}
use gem16gb.ToolCalls.Stream.Search.{split_at-length}
use gem16gb.ToolCalls.Stream.View.{seen, shown, after, more, Extends}
use gem16gb.ToolCalls.Stream.Steps.{text-Extends, read_name-Extends, arguments-Extends}

-- A round that goes on takes a byte.
abbrev pub IsShorter : GemmaToolCallParser → Step (List GenerationEvent) → Type 0
IsShorter p (next p' events) = length p'.pending < length p.pending
IsShorter p (stop p' events) = Unit {0}
IsShorter p (refused status) = Unit {0}

module _ (is_number : List ℕ → Bool) (final : Bool) (p : GemmaToolCallParser) where
  text-IsShorter :
      (o : Option (List ℕ × List ℕ))
      → split_at tool_open p.pending ≡ o
      → IsShorter p (text_found p final o)
  unfolding text_found
  text-IsShorter none e = tt
  text-IsShorter (some (before, behind)) e =
      omega (arith, split_at-length tool_open p.pending before behind e)

  name-IsShorter :
      (text : List ℕ) (o : Option (List ℕ × List ℕ))
      → split_at (b'{' ∷ []) text ≡ o
      → length text ≤ length p.pending
      → IsShorter p (name_found p o)
  unfolding name_found
  name-IsShorter text none e h = tt
  name-IsShorter text (some (name, behind)) e h = elim (Bool-cases (is_nil name)) [
    | inl nothing ↦ rw nothing tt
    | inr some_name ↦ elim (Bool-cases (all_name_bytes name)) [
      | inl good ↦
          rw some_name (rw good (omega (arith, h, split_at-length (b'{' ∷ []) text name behind e)))
      | inr bad ↦ rw some_name (rw bad tt)
    ]
  ]

  prefix-IsShorter :
      (o : Option (List ℕ))
      → strip_prefix call_prefix p.pending ≡ o
      → IsShorter p (prefix_found p o)
  unfolding prefix_found
  prefix-IsShorter none e = tt
  prefix-IsShorter (some behind) e =
      name-IsShorter behind (split_at (b'{' ∷ []) behind) refl
        (omega (arith, strip_prefix-le call_prefix p.pending behind e))

  read_name-IsShorter : IsShorter p (read_name p)
  unfolding read_name
  read_name-IsShorter = elim (Bool-cases (ltb (length p.pending) 5)) [
    | inl short ↦ elim (Bool-cases (begins p.pending call_prefix)) [
      | inl begun ↦ rw short (rw begun tt)
      | inr other ↦ rw short (rw other tt)
    ]
    | inr long ↦ rw long (prefix-IsShorter (strip_prefix call_prefix p.pending) refl)
  ]

  close_call-IsShorter :
      (behind : List ℕ) (r : Result (List ℕ))
      → length behind < length p.pending
      → IsShorter p (close_call p behind r)
  unfolding close_call
  close_call-IsShorter behind (ok text) h = h
  close_call-IsShorter behind (err status) h = tt

  arguments-IsShorter :
      (o : Option (List ℕ × List ℕ))
      → split_at tool_close p.pending ≡ o
      → IsShorter p (arguments_found is_number p o)
  unfolding arguments_found
  arguments-IsShorter none e = tt
  arguments-IsShorter (some (before, behind)) e =
      close_call-IsShorter behind (parse_arguments is_number (p.current_arguments ++ before))
        (omega (arith, split_at-length tool_close p.pending before behind e))

  step_in-IsShorter : (s : State) → IsShorter p (step_in is_number s final p)
  unfolding step_in
  step_in-IsShorter in_text = text-IsShorter (split_at tool_open p.pending) refl
  step_in-IsShorter in_name = read_name-IsShorter
  step_in-IsShorter in_arguments = arguments-IsShorter (split_at tool_close p.pending) refl

module _ (is_number : List ℕ → Bool) where
  pub step-IsShorter :
      (final : Bool) (p : GemmaToolCallParser) → IsShorter p (step is_number final p)
  unfolding step
  step-IsShorter final p = step_in-IsShorter is_number final p p.state

  pub step-Extends :
      (final : Bool) (q : List ℕ) (p : GemmaToolCallParser)
      → Extends (step is_number final) q p (step is_number false p)
  unfolding step
  step-Extends final q p = in_state p.state refl
    where
      from_state :
          (s : State)
          → p.state ≡ s
          → (r : Step (List GenerationEvent)) → Extends (step_in is_number s final) q p r
          → Extends (step is_number final) q p r
      from_state s e (next p' events) h = ap (λ w. step_in is_number w final (more q p)) e ∙ h
      from_state s e (refused status) h = ap (λ w. step_in is_number w final (more q p)) e ∙ h
      from_state s e (stop p' events) h = (
        h.0,
        ap (λ w. shown (step_in is_number w final (more q p))) e
            ∙ h.1
            ∙ ap (λ w. after (seen events) (shown (step_in is_number w final (more q p'))))
                (sym (h.0 ∙ e)),
      )

      at_state : (s : State) → Extends (step_in is_number s final) q p (step_in is_number s false p)
      at_state in_text =
          unfold step_in in text-Extends is_number final q p (split_at tool_open p.pending) refl
      at_state in_name = unfold step_in in read_name-Extends is_number final q p
      at_state in_arguments =
          unfold step_in in
          arguments-Extends is_number final q p (split_at tool_close p.pending) refl

      in_state :
          (s : State) → p.state ≡ s → Extends (step is_number final) q p (step is_number false p)
      in_state s e = from_state s e (step_in is_number p.state false p) (
          subst (λ w. Extends (step_in is_number s final) q p (step_in is_number w false p)) (sym e)
            (at_state s))
