-- ===== src/ToolCalls/Stream/View.antt =====
-- The events of src/runtime/tool_call_parser.cpp as a receiver sees them, and how one round of Consume goes on
-- from another.
use gem16gb.Prelude.{ℕ, ◌≡◌, refl, ap, sym, ◌∙◌, List, [], ◌∷◌, ◌++◌, map, append_assoc, append-nil}
use gem16gb.ToolCalls.Stream.{
  GenerationEvent, text_delta, tool_call_start, tool_call_arguments_delta, tool_call_end,
  GemmaToolCallParser, Step, next, stop, refused, delta,
}

-- What a receiver of the events sees, however the visible text is cut: its bytes one by one, and
-- the events of the calls.
pub data Symbol : Type 0 where
  byte : ℕ → Symbol
  started : List ℕ → List ℕ → Symbol
  argued : List ℕ → List ℕ → List ℕ → Symbol
  ended : List ℕ → List ℕ → Symbol

unfoldable pub seen_event : GenerationEvent → List Symbol
seen_event (text_delta text) = map byte text
seen_event (tool_call_start id name) = started id name ∷ []
seen_event (tool_call_arguments_delta id name text) = argued id name text ∷ []
seen_event (tool_call_end id name) = ended id name ∷ []

unfoldable pub seen : List GenerationEvent → List Symbol
unfolding seen_event
seen [] = []
seen (event ∷ events) = seen_event event ++ seen events

pub seen-append : (xs ys : List GenerationEvent) → seen (xs ++ ys) ≡ seen xs ++ seen ys
unfolding seen
seen-append [] ys = refl
seen-append (x ∷ xs) ys =
    ap (λ t. seen_event x ++ t) (seen-append xs ys)
    ∙ sym (append_assoc (seen_event x) (seen xs) (seen ys))

seen-delta : (text : List ℕ) → seen (delta text) ≡ map byte text
unfolding seen
seen-delta [] = refl
seen-delta (c ∷ text) = append-nil (map byte (c ∷ text))

map_byte-append : (xs ys : List ℕ) → map byte (xs ++ ys) ≡ map byte xs ++ map byte ys
map_byte-append [] ys = refl
map_byte-append (x ∷ xs) ys = ap (λ t. byte x ∷ t) (map_byte-append xs ys)

pub seen-delta-append :
    (xs ys : List ℕ) → seen (delta (xs ++ ys)) ≡ seen (delta xs) ++ seen (delta ys)
seen-delta-append xs ys =
    seen-delta (xs ++ ys)
    ∙ map_byte-append xs ys
    ∙ (λ i. sym (seen-delta xs) i ++ sym (seen-delta ys) i)

-- A round with its events as they are seen.
unfoldable pub shown : Step (List GenerationEvent) → Step (List Symbol)
shown (next p events) = next p (seen events)
shown (stop p events) = stop p (seen events)
shown (refused status) = refused status

-- A round behind what was seen before it.
unfoldable pub after : List Symbol → Step (List Symbol) → Step (List Symbol)
after symbols (next p more) = next p (symbols ++ more)
after symbols (stop p more) = stop p (symbols ++ more)
after symbols (refused status) = refused status

pub after_nil : (r : Step (List Symbol)) → after [] r ≡ r
unfolding after
after_nil (next p more) = refl
after_nil (stop p more) = refl
after_nil (refused status) = refl

abbrev pub more : List ℕ → GemmaToolCallParser → GemmaToolCallParser
more q p = record p { pending = p.pending ++ q }

-- How a round goes once `q` has arrived, from how it went without: it goes on alike, it is refused
-- alike, or it does what it had done already and then a round from there.
abbrev pub Extends :
    (GemmaToolCallParser → Step (List GenerationEvent))
    → List ℕ
    → GemmaToolCallParser
    → Step (List GenerationEvent)
    → Type 0
Extends round q p (next p' events) = round (more q p) ≡ next (more q p') events
Extends round q p (stop p' events) =
    (p'.state ≡ p.state)
    × (shown (round (more q p)) ≡ after (seen events) (shown (round (more q p'))))
Extends round q p (refused status) = round (more q p) ≡ refused status
