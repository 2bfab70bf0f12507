-- ===== src/ToolCalls/Stream/Steps.antt =====
-- One round of Consume of src/runtime/tool_call_parser.cpp, before and after more text has arrived.
use gem16gb.Prelude.{
  ℕ, ◌≡◌, refl, ap, sym, ◌∙◌, inl, inr, Bool, true, false, Option, none, some, List, [], ◌∷◌, ◌++◌,
  append_assoc, ltb, if◌then◌else◌, length, length-append, Bool-cases, arith,
}
use gem16gb.Status.{Result, ok, err}
use gem16gb.Json.Parse.{is_nil, strip_prefix}
use gem16gb.ToolCalls.Arguments.{split_at, behind_text, parse_arguments}
use gem16gb.ToolCalls.Stream.{
  in_text, in_name, in_arguments, GemmaToolCallParser, next, stop, tool_open, tool_close,
  call_prefix, begins, hold_back, delta, text_found, all_name_bytes, name_found, no_prefix,
  prefix_found, read_name, close_call, arguments_found, step_in,
}
use gem16gb.Json.Parse.Shrink.{strip_prefix-le}
use gem16gb.ToolCalls.Stream.Search.{
  strip_prefix-append, strip_prefix-none, not-begins, begins-append, split_at-append,
  split_at-hold_back, hold_back-append, hold_back_whole,
}
use gem16gb.ToolCalls.Stream.View.{seen, seen-delta-append, shown, after, after_nil, more, Extends}

-- What the break of the text state lets go and keeps.
abbrev let_go : Bool → List ℕ → List ℕ × List ℕ
let_go final text = if final then (text, []) else hold_back tool_open text

let_go-behind :
    (final : Bool) (text q : List ℕ)
    → let_go final (text ++ q) ≡ (
      (hold_back tool_open text).0 ++ (let_go final ((hold_back tool_open text).1 ++ q)).0,
      (let_go final ((hold_back tool_open text).1 ++ q)).1,
    )
let_go-behind true text q = λ i. (
  (ap (λ t. t ++ q) (sym (hold_back_whole tool_open text))
        ∙ append_assoc (hold_back tool_open text).0 (hold_back tool_open text).1 q)
      i,
  [],
)
let_go-behind false text q = hold_back-append tool_open text q

module _ (is_number : List ℕ → Bool) (final : Bool) (q : List ℕ) (p : GemmaToolCallParser) where
  abbrev open_hold : List ℕ × List ℕ
  open_hold = hold_back tool_open p.pending

  -- The text that was let go, and what is found behind it.
  text_found-behind :
      (o : Option (List ℕ × List ℕ))
      → shown (text_found (more q p) final (behind_text open_hold.0 o))
        ≡ after (seen (delta open_hold.0)) (
            shown (
              text_found
                (record p {
                  visible_text = p.visible_text ++ open_hold.0;
                  pending = open_hold.1 ++ q;
                })
                final
                o))
  unfolding text_found behind_text shown after
  text_found-behind (some (before, behind)) = λ i.
      next
        (record p {
          visible_text = sym (append_assoc p.visible_text open_hold.0 before) i;
          pending = behind;
          state = in_name;
        })
        (seen-delta-append open_hold.0 before i)
  text_found-behind none =
      let rest = let_go final (open_hold.1 ++ q) in
      ap
        (λ w.
          stop (record p { visible_text = p.visible_text ++ w.0; pending = w.1 })
            (seen (delta w.0)))
        (let_go-behind final p.pending q)
      ∙ (λ i.
          stop
            (record p {
              visible_text = sym (append_assoc p.visible_text open_hold.0 rest.0) i;
              pending = rest.1;
            })
            (seen-delta-append open_hold.0 rest.0 i))

  pub text-Extends :
      (o : Option (List ℕ × List ℕ))
      → split_at tool_open p.pending ≡ o
      → Extends (step_in is_number in_text final) q p (text_found p false o)
  unfolding step_in text_found
  text-Extends (some (before, behind)) e =
      ap (text_found (more q p) final) (split_at-append tool_open p.pending q before behind e)
  text-Extends none e = (
    refl,
    ap (λ o. shown (text_found (more q p) final o)) (split_at-hold_back tool_open p.pending q e)
        ∙ text_found-behind (split_at tool_open (open_hold.1 ++ q)),
  )

  name_found-Extends :
      (o o' : Option (List ℕ × List ℕ))
      → ((name behind : List ℕ) → o ≡ some (name, behind) → o' ≡ some (name, behind ++ q))
      → read_name (more q p) ≡ name_found (more q p) o'
      → Extends (step_in is_number in_name final) q p (name_found p o)
  unfolding step_in name_found
  name_found-Extends none o' later e =
      (refl, unfold seen in sym (after_nil (shown (read_name (more q p)))))
  name_found-Extends (some (name, behind)) o' later e =
      let e' : read_name (more q p) ≡ name_found (more q p) (some (name, behind ++ q)) =
        e ∙ ap (name_found (more q p)) (later name behind refl) in
      elim (Bool-cases (is_nil name)) [
        | inl nothing ↦ rw nothing (e' ∙ rw nothing refl)
        | inr some_name ↦ elim (Bool-cases (all_name_bytes name)) [
          | inl good ↦ rw some_name (rw good (e' ∙ rw some_name (rw good refl)))
          | inr bad ↦ rw some_name (rw bad (e' ∙ rw some_name (rw bad refl)))
        ]
      ]

  close_call-Extends :
      (behind : List ℕ) (r : Result (List ℕ))
      → arguments_found is_number (more q p) (split_at tool_close (p.pending ++ q))
        ≡ close_call (more q p) (behind ++ q) r
      → Extends (step_in is_number in_arguments final) q p (close_call p behind r)
  unfolding step_in close_call
  close_call-Extends behind (ok arguments) e = e
  close_call-Extends behind (err status) e = e

  abbrev close_hold : List ℕ × List ℕ
  close_hold = hold_back tool_close p.pending

  close_same :
      (behind arguments pending : List ℕ) (r : Result (List ℕ))
      → shown (close_call (more q p) behind r)
        ≡ shown
            (close_call (record p { current_arguments = arguments; pending = pending }) behind r)
  unfolding close_call
  close_same behind arguments pending (ok text) = refl
  close_same behind arguments pending (err status) = refl

  arguments_found-behind :
      (o : Option (List ℕ × List ℕ))
      → shown (arguments_found is_number (more q p) (behind_text close_hold.0 o))
        ≡ shown (
            arguments_found is_number
              (record p {
                current_arguments = p.current_arguments ++ close_hold.0;
                pending = close_hold.1 ++ q;
              })
              o)
  unfolding arguments_found behind_text close_call
  arguments_found-behind (some (before, behind)) =
      ap (λ t. shown (close_call (more q p) behind (parse_arguments is_number t)))
        (sym (append_assoc p.current_arguments close_hold.0 before))
      ∙ close_same behind (p.current_arguments ++ close_hold.0) (close_hold.1 ++ q)
          (parse_arguments is_number ((p.current_arguments ++ close_hold.0) ++ before))
  arguments_found-behind none =
      ap
        (λ w.
          shown
            (stop (record p { current_arguments = p.current_arguments ++ w.0; pending = w.1 }) []))
        (hold_back-append tool_close p.pending q)
      ∙ (λ i. shown (
          stop
            (record p {
              current_arguments =
                  sym
                    (append_assoc p.current_arguments close_hold.0
                      (hold_back tool_close (close_hold.1 ++ q)).0)
                    i;
              pending = (hold_back tool_close (close_hold.1 ++ q)).1;
            })
            []))

  pub arguments-Extends :
      (o : Option (List ℕ × List ℕ))
      → split_at tool_close p.pending ≡ o
      → Extends (step_in is_number in_arguments final) q p (arguments_found is_number p o)
  unfolding step_in arguments_found
  arguments-Extends (some (before, behind)) e =
      close_call-Extends behind (parse_arguments is_number (p.current_arguments ++ before)) (
        ap (arguments_found is_number (more q p))
          (split_at-append tool_close p.pending q before behind e))
  arguments-Extends none e = (
    refl,
    ap (λ o. shown (arguments_found is_number (more q p) o))
          (split_at-hold_back tool_close p.pending q e)
        ∙ arguments_found-behind (split_at tool_close (close_hold.1 ++ q))
        ∙ (unfold seen in sym (after_nil _)),
  )

  -- Behind the prefix the search for the brace goes on.
  prefix_found-Extends :
      (o : Option (List ℕ))
      → o ≡ strip_prefix call_prefix p.pending
      → ltb (length p.pending) 5 ≡ false
      → Extends (step_in is_number in_name final) q p (prefix_found p o)
  unfolding step_in prefix_found read_name
  prefix_found-Extends none e long =
      let longer : ltb (length (p.pending ++ q)) 5 ≡ false =
        ground (arith, length-append p.pending q) in
      let whole : begins p.pending call_prefix ≡ false =
        not-begins p.pending call_prefix (ground arith) in
      rw longer
        (ap (prefix_found (more q p)) (strip_prefix-none call_prefix p.pending q (sym e) whole))
  prefix_found-Extends (some behind) e long =
      let longer : ltb (length (p.pending ++ q)) 5 ≡ false =
        ground (arith, length-append p.pending q) in
      name_found-Extends (split_at (b'{' ∷ []) behind) (split_at (b'{' ∷ []) (behind ++ q))
        (λ name rest found. split_at-append (b'{' ∷ []) behind q name rest found)
        (rw longer (
          ap (prefix_found (more q p))
            (strip_prefix-append call_prefix p.pending behind q (sym e))))

  -- What is too short to hold the prefix and does not begin it never becomes the prefix.
  short_refused :
      begins p.pending call_prefix ≡ false
      → ltb (length p.pending) 5 ≡ true
      → read_name (more q p) ≡ no_prefix
  unfolding read_name prefix_found
  short_refused other short = elim (Bool-cases (ltb (length (p.pending ++ q)) 5)) [
    | inl still ↦ rw still (rw (begins-append p.pending call_prefix q other) refl)
    | inr longer ↦ rw longer (
        ap (prefix_found (more q p)) (
          strip_prefix-none call_prefix p.pending q
            (too_short (strip_prefix call_prefix p.pending) refl) other))
  ]
    where
      too_short :
          (o : Option (List ℕ))
          → strip_prefix call_prefix p.pending ≡ o
          → strip_prefix call_prefix p.pending ≡ none
      too_short none e = e
      too_short (some rest) e =
          absurd (ground (arith, strip_prefix-le call_prefix p.pending rest e))

  pub read_name-Extends : Extends (step_in is_number in_name final) q p (read_name p)
  unfolding read_name step_in
  read_name-Extends = elim (Bool-cases (ltb (length p.pending) 5)) [
    | inl short ↦ elim (Bool-cases (begins p.pending call_prefix)) [
      | inl begun ↦
          rw short (rw begun (refl, unfold seen in sym (after_nil (shown (read_name (more q p))))))
      | inr other ↦ rw short (rw other (short_refused other short))
    ]
    | inr long ↦ rw long (prefix_found-Extends (strip_prefix call_prefix p.pending) refl long)
  ]
