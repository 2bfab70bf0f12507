-- ===== src/ToolCalls/Stream/Reports.antt =====
-- What GemmaToolCallParser of src/runtime/tool_call_parser.cpp reports is what it keeps.
use gem16gb.Prelude.{
  ℕ, zero, suc, ◌≡◌, refl, ap, sym, ◌∙◌, inl, inr, Bool, true, false, ◌&&◌, Option, none, some,
  List, [], ◌∷◌, ◌++◌, append_assoc, append-nil, ltb, if◌then◌else◌, length, Bool-cases,
}
use gem16gb.Status.{
  Result, ok, err, Ensures, returned, refused as not_returned, Ensures-ok, Ensures-step,
  Ensures-check,
}
use gem16gb.Json.Parse.{is_nil, strip_prefix}
use gem16gb.ToolCalls.Arguments.{split_at, parse_arguments}
use gem16gb.ToolCalls.Stream.{
  State, in_text, in_name, in_arguments, StreamedCall, GenerationEvent, text_delta, tool_call_start,
  tool_call_arguments_delta, tool_call_end, GemmaToolCallParser, new_parser, Step, next, stop,
  refused, tool_open, tool_close, call_prefix, begins, hold_back, delta, text_found, all_name_bytes,
  name_found, prefix_found, read_name, close_call, arguments_found, step_in, step, go_on, consume,
  is_inside, push, push_all,
}

-- The visible text of the events, and the calls that they complete.
unfoldable pub text_of : List GenerationEvent → List ℕ
text_of [] = []
text_of (text_delta text ∷ events) = text ++ text_of events
text_of (tool_call_start id name ∷ events) = text_of events
text_of (tool_call_arguments_delta id name text ∷ events) = text_of events
text_of (tool_call_end id name ∷ events) = text_of events

unfoldable pub calls_of : List GenerationEvent → List StreamedCall
calls_of [] = []
calls_of (text_delta text ∷ events) = calls_of events
calls_of (tool_call_start id name ∷ events) = calls_of events
calls_of (tool_call_arguments_delta id name text ∷ events) =
    record { id = id; name = name; arguments_json = text } ∷ calls_of events
calls_of (tool_call_end id name ∷ events) = calls_of events

text_of-append : (xs ys : List GenerationEvent) → text_of (xs ++ ys) ≡ text_of xs ++ text_of ys
unfolding text_of
text_of-append [] ys = refl
text_of-append (text_delta text ∷ xs) ys =
    ap (λ t. text ++ t) (text_of-append xs ys) ∙ sym (append_assoc text (text_of xs) (text_of ys))
text_of-append (tool_call_start id name ∷ xs) ys = text_of-append xs ys
text_of-append (tool_call_arguments_delta id name text ∷ xs) ys = text_of-append xs ys
text_of-append (tool_call_end id name ∷ xs) ys = text_of-append xs ys

calls_of-append : (xs ys : List GenerationEvent) → calls_of (xs ++ ys) ≡ calls_of xs ++ calls_of ys
unfolding calls_of
calls_of-append [] ys = refl
calls_of-append (text_delta text ∷ xs) ys = calls_of-append xs ys
calls_of-append (tool_call_start id name ∷ xs) ys = calls_of-append xs ys
calls_of-append (tool_call_arguments_delta id name text ∷ xs) ys =
    ap (λ t. record { id = id; name = name; arguments_json = text } ∷ t) (calls_of-append xs ys)
calls_of-append (tool_call_end id name ∷ xs) ys = calls_of-append xs ys

text_of-delta : (text : List ℕ) → text_of (delta text) ≡ text
unfolding text_of
text_of-delta [] = refl
text_of-delta (c ∷ text) = append-nil (c ∷ text)

calls_of-delta : (text : List ℕ) → calls_of (delta text) ≡ []
unfolding calls_of
calls_of-delta [] = refl
calls_of-delta (c ∷ text) = refl

-- From `p` to `p'` the events report what was added.
pub record Reports (p p' : GemmaToolCallParser) (events : List GenerationEvent) : Type 0 where
  pub text : p'.visible_text ≡ p.visible_text ++ text_of events
  pub calls : p'.tool_calls ≡ p.tool_calls ++ calls_of events

Reports_trans :
    {p q r : GemmaToolCallParser} (xs ys : List GenerationEvent)
    → Reports p q xs
    → Reports q r ys
    → Reports p r (xs ++ ys)
Reports_trans {p} {q} {r} xs ys h k = record {
  text =
      k.text
      ∙ ap (λ t. t ++ text_of ys) h.text
      ∙ append_assoc p.visible_text (text_of xs) (text_of ys)
      ∙ ap (λ t. p.visible_text ++ t) (sym (text_of-append xs ys));
  calls =
      k.calls
      ∙ ap (λ t. t ++ calls_of ys) h.calls
      ∙ append_assoc p.tool_calls (calls_of xs) (calls_of ys)
      ∙ ap (λ t. p.tool_calls ++ t) (sym (calls_of-append xs ys));
}

abbrev StepReports : GemmaToolCallParser → Step (List GenerationEvent) → Type 0
StepReports p (next p' events) = Reports p p' events
StepReports p (stop p' events) = Reports p p' events
StepReports p (refused status) = Unit {0}

module _ (is_number : List ℕ → Bool) (final : Bool) (p : GemmaToolCallParser) where
  text_found-StepReports : (o : Option (List ℕ × List ℕ)) → StepReports p (text_found p final o)
  unfolding text_found
  text_found-StepReports (some (before, behind)) = record {
    text = ap (λ t. p.visible_text ++ t) (sym (text_of-delta before));
    calls =
        sym (append-nil p.tool_calls) ∙ ap (λ t. p.tool_calls ++ t) (sym (calls_of-delta before));
  }
  text_found-StepReports none =
      let held = if final then (p.pending, []) else hold_back tool_open p.pending in
      record {
        text = ap (λ t. p.visible_text ++ t) (sym (text_of-delta held.0));
        calls =
            sym (append-nil p.tool_calls)
            ∙ ap (λ t. p.tool_calls ++ t) (sym (calls_of-delta held.0));
      }

  idle :
      (p' : GemmaToolCallParser) (events : List GenerationEvent)
      → p'.visible_text ≡ p.visible_text
      → p'.tool_calls ≡ p.tool_calls
      → text_of events ≡ []
      → calls_of events ≡ []
      → Reports p p' events
  idle p' events e f g h = record {
    text = e ∙ sym (append-nil p.visible_text) ∙ ap (λ t. p.visible_text ++ t) (sym g);
    calls = f ∙ sym (append-nil p.tool_calls) ∙ ap (λ t. p.tool_calls ++ t) (sym h);
  }

  name_found-StepReports : (o : Option (List ℕ × List ℕ)) → StepReports p (name_found p o)
  unfolding name_found text_of calls_of
  name_found-StepReports none = idle p [] refl refl refl refl
  name_found-StepReports (some (name, behind)) = elim (Bool-cases (is_nil name)) [
    | inl nothing ↦ rw nothing tt
    | inr some_name ↦ elim (Bool-cases (all_name_bytes name)) [
      | inl good ↦ rw some_name (rw good (idle _ _ refl refl refl refl))
      | inr bad ↦ rw some_name (rw bad tt)
    ]
  ]

  prefix_found-StepReports : (o : Option (List ℕ)) → StepReports p (prefix_found p o)
  unfolding prefix_found
  prefix_found-StepReports none = tt
  prefix_found-StepReports (some behind) = name_found-StepReports (split_at (b'{' ∷ []) behind)

  read_name-StepReports : StepReports p (read_name p)
  unfolding read_name text_of calls_of
  read_name-StepReports = elim (Bool-cases (ltb (length p.pending) 5)) [
    | inl short ↦ elim (Bool-cases (begins p.pending call_prefix)) [
      | inl begun ↦ rw short (rw begun (idle p [] refl refl refl refl))
      | inr other ↦ rw short (rw other tt)
    ]
    | inr long ↦ rw long (prefix_found-StepReports (strip_prefix call_prefix p.pending))
  ]

  close_call-StepReports :
      (behind : List ℕ) (r : Result (List ℕ)) → StepReports p (close_call p behind r)
  unfolding close_call text_of calls_of
  close_call-StepReports behind (ok text) = record {
    text = sym (append-nil p.visible_text);
    calls = refl;
  }
  close_call-StepReports behind (err status) = tt

  arguments_found-StepReports :
      (o : Option (List ℕ × List ℕ)) → StepReports p (arguments_found is_number p o)
  unfolding arguments_found text_of calls_of
  arguments_found-StepReports none = idle _ [] refl refl refl refl
  arguments_found-StepReports (some (before, behind)) =
      close_call-StepReports behind (parse_arguments is_number (p.current_arguments ++ before))

  step_in-StepReports : (s : State) → StepReports p (step_in is_number s final p)
  unfolding step_in
  step_in-StepReports in_text = text_found-StepReports (split_at tool_open p.pending)
  step_in-StepReports in_name = read_name-StepReports
  step_in-StepReports in_arguments = arguments_found-StepReports (split_at tool_close p.pending)

module _ (is_number : List ℕ → Bool) where
  go_on-Reports :
      (p : GemmaToolCallParser) (r : Step (List GenerationEvent))
      (rest : GemmaToolCallParser → Result (GemmaToolCallParser × List GenerationEvent))
      → StepReports p r
      → ((p' : GemmaToolCallParser)
          → Ensures
              (λ (x : GemmaToolCallParser × List GenerationEvent). Reports p' x.0 x.1)
              (rest p'))
      → Ensures
          (λ (x : GemmaToolCallParser × List GenerationEvent). Reports p x.0 x.1)
          (go_on r rest)
  unfolding go_on
  go_on-Reports p (refused status) rest h k = not_returned
  go_on-Reports p (stop p' events) rest h k = returned h
  go_on-Reports p (next p' events) rest h k =
      Ensures-step (rest p') (λ x e. returned (Reports_trans events x.1 h (Ensures-ok (k p') e)))

  consume-Reports :
      (fuel : ℕ) (final : Bool) (p : GemmaToolCallParser)
      → Ensures
          (λ (x : GemmaToolCallParser × List GenerationEvent). Reports p x.0 x.1)
          (consume is_number fuel final p)
  unfolding consume
  consume-Reports zero final p = not_returned
  consume-Reports (suc fuel) final p =
      go_on-Reports p (step is_number final p) (λ p'. consume is_number fuel final p')
        (unfold step in step_in-StepReports is_number final p p.state)
        (λ p'. consume-Reports fuel final p')

  push-Reports :
      (p : GemmaToolCallParser) (text : List ℕ) (final : Bool)
      → Ensures
          (λ (x : GemmaToolCallParser × List GenerationEvent). Reports p x.0 x.1)
          (push is_number p text final)
  unfolding push
  push-Reports p text final =
      Ensures-step
        (consume is_number (suc (length (p.pending ++ text))) final
          (record p { pending = p.pending ++ text }))
        λ r e. Ensures-check (final && is_inside r.0) _ _ λ outside.
          let h =
            Ensures-ok
              (consume-Reports (suc (length (p.pending ++ text))) final
                (record p { pending = p.pending ++ text }))
              e in
          returned (record { text = h.text; calls = h.calls })

  push_all-Ensures :
      (p : GemmaToolCallParser) (chunks : List (List ℕ)) (last : List ℕ)
      → Ensures
          (λ (x : GemmaToolCallParser × List GenerationEvent). Reports p x.0 x.1)
          (push_all is_number p chunks last)
  unfolding push_all
  push_all-Ensures p [] last = push-Reports p last true
  push_all-Ensures p (chunk ∷ chunks) last = Ensures-step (push is_number p chunk false) λ r e.
      Ensures-step (push_all is_number r.0 chunks last) λ r' e'. returned (
        Reports_trans r.1 r'.1 (Ensures-ok (push-Reports p chunk false) e)
          (Ensures-ok (push_all-Ensures r.0 chunks last) e'))

-- A response that a new parser has taken to its end, in whatever chunks: the visible text is the text
-- deltas of all the events put together, and the tool calls are those of the argument events, in
-- order, with the same ids, names and arguments.
pub push_all-Reports :
    (is_number : List ℕ → Bool) (chunks : List (List ℕ)) (last : List ℕ) (p : GemmaToolCallParser)
    (events : List GenerationEvent)
    → push_all is_number new_parser chunks last ≡ ok (p, events)
    → (p.visible_text ≡ text_of events) × (p.tool_calls ≡ calls_of events)
push_all-Reports is_number chunks last p events e =
    let h = Ensures-ok (push_all-Ensures is_number new_parser chunks last) e in (h.text, h.calls)
