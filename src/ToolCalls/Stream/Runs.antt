-- ===== src/ToolCalls/Stream/Runs.antt =====
-- The runs of Consume of src/runtime/tool_call_parser.cpp, and how a run goes on when more text has come.
use gem16gb.Prelude.{
  ℕ, zero, suc, ◌<◌, ◌≡◌, refl, ap, sym, subst, ◌∙◌, Bool, false, List, ◌++◌, append_assoc, length,
  arith,
}
use gem16gb.Status.{Status, Result, ok, err, ◌>>=◌}
use gem16gb.ToolCalls.Stream.{
  GenerationEvent, GemmaToolCallParser, Step, next, stop, refused, step, go_on, consume,
}
use gem16gb.ToolCalls.Stream.View.{Symbol, seen, seen-append, shown, after, more, Extends}
use gem16gb.ToolCalls.Stream.Rounds.{IsShorter, step-IsShorter, step-Extends}

-- A result with its events as they are seen, and one behind what was seen before it.
unfoldable pub viewed :
    Result (GemmaToolCallParser × List GenerationEvent) → Result (GemmaToolCallParser × List Symbol)
viewed (ok r) = ok (r.0, seen r.1)
viewed (err status) = err status

unfoldable pub behind :
    List Symbol
    → Result (GemmaToolCallParser × List Symbol)
    → Result (GemmaToolCallParser × List Symbol)
behind symbols (ok r) = ok (r.0, symbols ++ r.1)
behind symbols (err status) = err status

-- The rounds of Consume, as they are seen.
pub data Runs (is_number : List ℕ → Bool) (final : Bool)
    : GemmaToolCallParser → Result (GemmaToolCallParser × List Symbol) → Type 0 where
  stopped :
      {p p' : GemmaToolCallParser} {s : List Symbol}
      {o : Result (GemmaToolCallParser × List Symbol)}
      → shown (step is_number final p) ≡ stop p' s
      → o ≡ ok (p', s)
      → Runs is_number final p o
  failed :
      {p : GemmaToolCallParser} {e : Status} {o : Result (GemmaToolCallParser × List Symbol)}
      → shown (step is_number final p) ≡ refused e
      → o ≡ err e
      → Runs is_number final p o
  went :
      {p p' : GemmaToolCallParser} {s : List Symbol}
      {o o' : Result (GemmaToolCallParser × List Symbol)}
      → shown (step is_number final p) ≡ next p' s
      → Runs is_number final p' o'
      → o ≡ behind s o'
      → Runs is_number final p o

module _ (is_number : List ℕ → Bool) where
  pub Runs-unique :
      {final : Bool} {p : GemmaToolCallParser} {o o' : Result (GemmaToolCallParser × List Symbol)}
      → Runs is_number final p o
      → Runs is_number final p o'
      → o ≡ o'
  Runs-unique (stopped a b) (stopped c d) = cc
  Runs-unique (stopped a b) (failed c d) = cc
  Runs-unique (stopped a b) (went c r d) = cc
  Runs-unique (failed a b) (stopped c d) = cc
  Runs-unique (failed a b) (failed c d) = cc
  Runs-unique (failed a b) (went c r d) = cc
  Runs-unique (went a r b) (stopped c d) = cc
  Runs-unique (went a r b) (failed c d) = cc
  Runs-unique {final} (went {p' = x} {o' = u} a r b) (went {p' = y} {o' = v} c r' d) =
      let same : x ≡ y = cc in
      let rest : u ≡ v = Runs-unique (subst (λ z. Runs is_number final z u) same r) r' in cc

  pub viewed-next :
      (events : List GenerationEvent) (r : Result (GemmaToolCallParser × List GenerationEvent))
      → viewed (r >>= (λ x. ok (x.0, events ++ x.1))) ≡ behind (seen events) (viewed r)
  unfolding viewed behind
  viewed-next events (ok x) = λ i. ok (x.0, seen-append events x.1 i)
  viewed-next events (err status) = refl

  go_on-Runs :
      (final : Bool) (p : GemmaToolCallParser) (r : Step (List GenerationEvent))
      (rest : GemmaToolCallParser → Result (GemmaToolCallParser × List GenerationEvent))
      → step is_number final p ≡ r
      → ((p' : GemmaToolCallParser) (events : List GenerationEvent)
          → r ≡ next p' events
          → Runs is_number final p' (viewed (rest p')))
      → Runs is_number final p (viewed (go_on r rest))
  unfolding go_on shown viewed
  go_on-Runs final p (refused status) rest e k = failed (ap shown e) refl
  go_on-Runs final p (stop p' events) rest e k = stopped (ap shown e) refl
  go_on-Runs final p (next p' events) rest e k =
      went (ap shown e) (k p' events refl) (viewed-next events (rest p'))

  consume_round :
      (fuel : ℕ) (final : Bool) (p : GemmaToolCallParser)
      → consume is_number (suc fuel) final p
        ≡ go_on (step is_number final p) (λ p'. consume is_number fuel final p')
  unfolding consume
  consume_round fuel final p = refl

  -- The loop runs through such rounds, given a unit of fuel for every byte and one more.
  pub consume-Runs :
      (fuel : ℕ) (final : Bool) (p : GemmaToolCallParser)
      → length p.pending < fuel
      → Runs is_number final p (viewed (consume is_number fuel final p))
  consume-Runs zero final p h = absurd (omega (arith, h))
  consume-Runs (suc fuel) final p h =
      subst (λ o. Runs is_number final p (viewed o)) (sym (consume_round fuel final p))
        (go_on-Runs final p (step is_number final p) (λ p'. consume is_number fuel final p') refl
          (λ p' events e. consume-Runs fuel final p' (
            let less = subst (IsShorter p) e (step-IsShorter is_number final p) in
            omega (arith, h, less))))

  behind-behind :
      (s t : List Symbol) (o : Result (GemmaToolCallParser × List Symbol))
      → behind s (behind t o) ≡ behind (s ++ t) o
  unfolding behind
  behind-behind s t (ok r) = λ i. ok (r.0, sym (append_assoc s t r.1) i)
  behind-behind s t (err status) = refl

  -- A run from behind what was seen.
  after-Runs :
      (final : Bool) (p p' : GemmaToolCallParser) (s : List Symbol)
      (o : Result (GemmaToolCallParser × List Symbol))
      → shown (step is_number final p) ≡ after s (shown (step is_number final p'))
      → Runs is_number final p' o
      → Runs is_number final p (behind s o)
  unfolding behind after
  after-Runs final p p' s o e (stopped a b) = stopped (e ∙ ap (after s) a) (ap (behind s) b)
  after-Runs final p p' s o e (failed a b) = failed (e ∙ ap (after s) a) (ap (behind s) b)
  after-Runs final p p' s o e (went {s = t} {o' = u} a r b) =
      went (e ∙ ap (after s) a) r (ap (behind s) b ∙ behind-behind s t u)

  module _ (final : Bool) (q : List ℕ) (p p' : GemmaToolCallParser) (s : List Symbol) where
    seen_stop :
        (r : Step (List GenerationEvent))
        → Extends (step is_number final) q p r
        → shown r ≡ stop p' s
        → shown (step is_number final (more q p))
          ≡ after s (shown (step is_number final (more q p')))
    unfolding shown
    seen_stop (next u events) h e = cc
    seen_stop (refused status) h e = cc
    seen_stop (stop u events) h e =
        let same : u ≡ p' = cc in
        let same_events : seen events ≡ s = cc in
        h.1 ∙ (λ i. after (same_events i) (shown (step is_number final (more q (same i)))))

    seen_next :
        (r : Step (List GenerationEvent))
        → Extends (step is_number final) q p r
        → shown r ≡ next p' s
        → shown (step is_number final (more q p)) ≡ next (more q p') s
    unfolding shown
    seen_next (stop u events) h e = cc
    seen_next (refused status) h e = cc
    seen_next (next u events) h e =
        let same : u ≡ p' = cc in
        let same_events : seen events ≡ s = cc in
        ap shown h ∙ (λ i. next (more q (same i)) (same_events i))

  seen_refused :
      (final : Bool) (q : List ℕ) (p : GemmaToolCallParser) (status : Status)
      (r : Step (List GenerationEvent))
      → Extends (step is_number final) q p r
      → shown r ≡ refused status
      → shown (step is_number final (more q p)) ≡ refused status
  unfolding shown
  seen_refused final q p status (stop u events) h e = cc
  seen_refused final q p status (next u events) h e = cc
  seen_refused final q p status (refused other) h e = ap shown h ∙ e

  ok_behind :
      (t : List Symbol) (o : Result (GemmaToolCallParser × List Symbol)) (p : GemmaToolCallParser)
      (s : List Symbol)
      → behind t o ≡ ok (p, s)
      → (u : List Symbol) × (o ≡ ok (p, u)) × (t ++ u ≡ s)
  unfolding behind
  ok_behind t (ok r) p s e = (r.1, cc, cc)
  ok_behind t (err status) p s e = cc

  err_behind :
      (t : List Symbol) (o : Result (GemmaToolCallParser × List Symbol)) (status : Status)
      → behind t o ≡ err status
      → o ≡ err status
  unfolding behind
  err_behind t (ok r) status e = cc
  err_behind t (err other) status e = e

  -- A run, and a run from where it stopped once more text has come, are one run over all the text.
  pub joined_Runs :
      (final : Bool) (q : List ℕ) {p : GemmaToolCallParser}
      {o : Result (GemmaToolCallParser × List Symbol)} (p' : GemmaToolCallParser) (s : List Symbol)
      (o' : Result (GemmaToolCallParser × List Symbol))
      → Runs is_number false p o
      → o ≡ ok (p', s)
      → Runs is_number final (more q p') o'
      → Runs is_number final (more q p) (behind s o')
  joined_Runs final q p' s o' (stopped {p} {p' = u} {s = t} a b) e r =
      let same : u ≡ p' = cc in
      let same_seen : t ≡ s = cc in
      after-Runs final (more q p) (more q p') s o'
        (seen_stop final q p p' s (step is_number false p) (step-Extends is_number final q p)
          (a ∙ (λ i. stop (same i) (same_seen i))))
        r
  joined_Runs final q p' s o' (failed a b) e r = cc
  joined_Runs final q p' s o' (went {p} {p' = u} {s = t} {o' = v} a r' b) e r =
      let (rest, found, whole) = ok_behind t v p' s (sym b ∙ e) in
      went (seen_next final q p u t (step is_number false p) (step-Extends is_number final q p) a)
        (joined_Runs final q p' rest o' r' found r)
        (ap (λ w. behind w o') (sym whole) ∙ sym (behind-behind t rest o'))

  behind_err : (t : List Symbol) (status : Status) → err status ≡ behind t (err status)
  unfolding behind
  behind_err t status = refl

  -- A run that is refused is refused with more text.
  pub refused_Runs :
      (final : Bool) (q : List ℕ) {p : GemmaToolCallParser}
      {o : Result (GemmaToolCallParser × List Symbol)} (status : Status)
      → Runs is_number false p o
      → o ≡ err status
      → Runs is_number final (more q p) (err status)
  refused_Runs final q status (stopped a b) e = cc
  refused_Runs final q status (failed {p} {e = other} a b) e =
      let same : other ≡ status = cc in
      failed
        (seen_refused final q p status (step is_number false p) (step-Extends is_number final q p)
          (a ∙ ap refused same))
        refl
  refused_Runs final q status (went {p} {p' = u} {s = t} {o' = v} a r' b) e =
      went (seen_next final q p u t (step is_number false p) (step-Extends is_number final q p) a)
        (refused_Runs final q status r' (err_behind t v status (sym b ∙ e))) (behind_err t status)
