-- ===== src/ToolCalls/Stream/Chunks.antt =====
-- GemmaToolCallParser of src/runtime/tool_call_parser.cpp on a text that arrives in chunks.
use gem16gb.Prelude.{
  ℕ, suc, ◌≡◌, refl, ap, sym, subst, ◌∙◌, inl, inr, Bool, true, false, ◌&&◌, List, [], ◌∷◌, ◌++◌,
  append_assoc, if◌then◌else◌, length, Bool-cases, arith,
}
use gem16gb.Status.{Status, Result, ok, err, refuse_if, ◌>>=◌, ◌>>◌, data_loss}
use gem16gb.ToolCalls.Stream.{
  GenerationEvent, GemmaToolCallParser, consume, is_inside, push, push_all,
}
use gem16gb.ToolCalls.Stream.View.{Symbol, seen, more}
use gem16gb.ToolCalls.Stream.Runs.{
  viewed, behind, Runs, Runs-unique, consume-Runs, viewed-next, joined_Runs, refused_Runs,
}

-- All the text of the chunks.
abbrev pub all_text : List (List ℕ) → List ℕ → List ℕ
all_text [] last = last
all_text (chunk ∷ chunks) last = chunk ++ all_text chunks last

module _ (is_number : List ℕ → Bool) where
  -- The check behind the loop, on what is seen.
  checked :
      Bool → Result (GemmaToolCallParser × List Symbol) → Result (GemmaToolCallParser × List Symbol)
  checked final (err status) = err status
  checked final (ok r) =
      if final && is_inside r.0
      then err (record {
        code = data_loss;
        message = "model response ends inside a Gemma tool call marker";
      })
      else ok r

  viewed-push :
      (p : GemmaToolCallParser) (text : List ℕ) (final : Bool)
      → viewed (push is_number p text final)
        ≡ checked final
            (viewed (consume is_number (suc (length (p.pending ++ text))) final (more text p)))
  unfolding push
  viewed-push p text final =
      check (consume is_number (suc (length (p.pending ++ text))) final (more text p))
    where
      check :
          (m : Result (GemmaToolCallParser × List GenerationEvent))
          → viewed (
              m >>= λ r.
              refuse_if
                (final && is_inside r.0)
                data_loss
                "model response ends inside a Gemma tool call marker"
              >> ok r)
            ≡ checked final (viewed m)
      check (err status) = unfold viewed in unfold checked in refl
      check (ok r) = elim (Bool-cases (final && is_inside r.0)) [
        | inl inside ↦ unfold viewed in unfold checked in rw inside refl
        | inr outside ↦ unfold viewed in unfold checked in rw outside refl
      ]

  checked-behind :
      (final : Bool) (s : List Symbol) (o : Result (GemmaToolCallParser × List Symbol))
      → checked final (behind s o) ≡ behind s (checked final o)
  unfolding checked behind
  checked-behind final s (err status) = refl
  checked-behind final s (ok r) = elim (Bool-cases (final && is_inside r.0)) [
    | inl inside ↦ rw inside refl
    | inr outside ↦ rw outside refl
  ]

  more-append : (p : GemmaToolCallParser) (c t : List ℕ) → more t (more c p) ≡ more (c ++ t) p
  more-append p c t = λ i. record p { pending = append_assoc p.pending c t i }

  -- What the loop gives on a text, from its runs.
  consume-eq :
      (final : Bool) (p : GemmaToolCallParser) (o : Result (GemmaToolCallParser × List Symbol))
      → Runs is_number final p o
      → viewed (consume is_number (suc (length p.pending)) final p) ≡ o
  consume-eq final p o r =
      Runs-unique is_number (consume-Runs is_number (suc (length p.pending)) final p (omega arith))
        r

  checked-false : (o : Result (GemmaToolCallParser × List Symbol)) → checked false o ≡ o
  unfolding checked
  checked-false (ok r) = refl
  checked-false (err status) = refl

  -- The run behind a push that is not final.
  push-Runs :
      (p : GemmaToolCallParser) (c : List ℕ) (o : Result (GemmaToolCallParser × List Symbol))
      → viewed (push is_number p c false) ≡ o
      → Runs is_number false (more c p) o
  push-Runs p c o e =
      subst (Runs is_number false (more c p))
        (sym (
            checked-false
              (viewed (consume is_number (suc (length (p.pending ++ c))) false (more c p))))
          ∙ sym (viewed-push p c false)
          ∙ e)
        (consume-Runs is_number (suc (length (p.pending ++ c))) false (more c p) (omega arith))

  -- A chunk, and then a text, are one text.
  push_behind :
      (p : GemmaToolCallParser) (c t : List ℕ) (final : Bool) (p' : GemmaToolCallParser)
      (s : List Symbol)
      → viewed (push is_number p c false) ≡ ok (p', s)
      → viewed (push is_number p (c ++ t) final) ≡ behind s (viewed (push is_number p' t final))
  push_behind p c t final p' s e =
      let later = viewed (consume is_number (suc (length (p'.pending ++ t))) final (more t p')) in
      let whole =
        joined_Runs is_number final t p' s later (push-Runs p c (ok (p', s)) e) refl (
          consume-Runs is_number (suc (length (p'.pending ++ t))) final (more t p')
            (omega arith)) in
      viewed-push p (c ++ t) final
      ∙ ap (checked final) (
          consume-eq final (more (c ++ t) p) (behind s later)
            (subst (λ w. Runs is_number final w (behind s later)) (more-append p c t) whole))
      ∙ checked-behind final s later
      ∙ ap (behind s) (sym (viewed-push p' t final))

  push_err :
      (p : GemmaToolCallParser) (c t : List ℕ) (final : Bool) (status : Status)
      → viewed (push is_number p c false) ≡ err status
      → viewed (push is_number p (c ++ t) final) ≡ err status
  push_err p c t final status e =
      viewed-push p (c ++ t) final
      ∙ ap (checked final) (
          consume-eq final (more (c ++ t) p) (err status) (
            subst (λ w. Runs is_number final w (err status)) (more-append p c t)
              (refused_Runs is_number final t status (push-Runs p c (err status) e) refl)))
      ∙ (unfold checked in refl)

  viewed_ok : (x : GemmaToolCallParser × List GenerationEvent) → viewed (ok x) ≡ ok (x.0, seen x.1)
  unfolding viewed
  viewed_ok x = refl

  viewed_err : (status : Status) → viewed (err status) ≡ err status
  unfolding viewed
  viewed_err status = refl

  push_then :
      (p : GemmaToolCallParser) (c t : List ℕ)
      (r : Result (GemmaToolCallParser × List GenerationEvent))
      (rest : GemmaToolCallParser → Result (GemmaToolCallParser × List GenerationEvent))
      → push is_number p c false ≡ r
      → ((p' : GemmaToolCallParser) → viewed (rest p') ≡ viewed (push is_number p' t true))
      → viewed (r >>= λ x. rest x.0 >>= λ y. ok (y.0, x.1 ++ y.1))
        ≡ viewed (push is_number p (c ++ t) true)
  push_then p c t (ok x) rest e k =
      viewed-next is_number x.1 (rest x.0)
      ∙ ap (behind (seen x.1)) (k x.0)
      ∙ sym (push_behind p c t true x.0 (seen x.1) (ap viewed e ∙ viewed_ok x))
  push_then p c t (err status) rest e k =
      viewed_err status ∙ sym (push_err p c t true status (ap viewed e ∙ viewed_err status))

  push_all_round :
      (p : GemmaToolCallParser) (chunk : List ℕ) (chunks : List (List ℕ)) (last : List ℕ)
      → push_all is_number p (chunk ∷ chunks) last ≡ (
          push is_number p chunk false >>= λ x.
          push_all is_number x.0 chunks last >>= λ y. ok (y.0, x.1 ++ y.1))
  unfolding push_all
  push_all_round p chunk chunks last = refl

  push_all-eq :
      (p : GemmaToolCallParser) (chunks : List (List ℕ)) (last : List ℕ)
      → viewed (push_all is_number p chunks last)
        ≡ viewed (push is_number p (all_text chunks last) true)
  push_all-eq p [] last = unfold push_all in refl
  push_all-eq p (chunk ∷ chunks) last =
      ap viewed (push_all_round p chunk chunks last)
      ∙ push_then p chunk (all_text chunks last) (push is_number p chunk false)
          (λ p'. push_all is_number p' chunks last) refl (λ p'. push_all-eq p' chunks last)

-- However a response is cut into chunks, pushing them one by one, the last one as final, comes to the
-- same as pushing the whole text at once as final: the same error, or the same state of the parser,
-- its visible text and tool calls included, and the same events but for where text deltas are cut.
pub push_all-chunks :
    (is_number : List ℕ → Bool) (p : GemmaToolCallParser) (chunks : List (List ℕ)) (last : List ℕ)
    → viewed (push_all is_number p chunks last)
      ≡ viewed (push is_number p (all_text chunks last) true)
push_all-chunks is_number p chunks last = push_all-eq is_number p chunks last
