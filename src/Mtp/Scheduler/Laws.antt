-- ===== src/Mtp/Scheduler/Laws.antt =====
-- What the scheduler guarantees over whole runs.
use gem16gb.Prelude.{ℕ, ◌≤◌, ◌<◌, ◌≡◌, refl, ap, ◌∙◌, ◌⊎◌, Bool, false, List, [], ◌∷◌, arith}
use gem16gb.Mtp.Scheduler.{
  AdaptiveMtpScheduler, create, use_ordinary_fallback, consume_ordinary_fallback, adapt,
  count_group, close_window, observe,
}

-- What a decode loop does with the scheduler.
pub data Event : Type 0 where
  observes : ℕ → ℕ → Event
  consumes : Event

abbrev pub step : AdaptiveMtpScheduler → Event → AdaptiveMtpScheduler
step s (observes processed_position accepted_tokens) = observe s processed_position accepted_tokens
step s consumes = consume_ordinary_fallback s

abbrev pub run : AdaptiveMtpScheduler → List Event → AdaptiveMtpScheduler
run s [] = s
run s (e ∷ es) = run (step s e) es

-- The draft counts that the engine has kernels for.
abbrev pub IsDraftCount : ℕ → Type 0
IsDraftCount n = (n ≡ 1) ⊎ (n ≡ 2) ⊎ (n ≡ 4)

pub record IsValid (s : AdaptiveMtpScheduler) : Type 0 where
  pub known : IsDraftCount s.active_drafts
  pub within : s.active_drafts ≤ s.maximum_drafts
  pub open_window : s.window_groups < 16
  pub fallback : s.ordinary_fallback_remaining ≤ 16

create-IsValid :
    (n position : ℕ) (enabled : Bool) → IsDraftCount n → IsValid (create n position enabled)
unfolding create
create-IsValid n position enabled h = ground arith

-- Judging a window keeps the draft count known and within the maximum.
adapt-IsValid :
    (s : AdaptiveMtpScheduler) (position : ℕ)
    → IsDraftCount s.active_drafts
    → s.active_drafts ≤ s.maximum_drafts
    → s.ordinary_fallback_remaining ≤ 16
    → IsValid (close_window (adapt s position))
unfolding adapt
adapt-IsValid s position known within fallback = ground arith

observe-IsValid :
    (s : AdaptiveMtpScheduler) (position accepted : ℕ)
    → IsValid s
    → IsValid (observe s position accepted)
unfolding observe
observe-IsValid s position accepted v =
    ground (arith, adapt-IsValid (count_group s accepted) position v.known v.within v.fallback)

step-IsValid : (s : AdaptiveMtpScheduler) (e : Event) → IsValid s → IsValid (step s e)
unfolding consume_ordinary_fallback
step-IsValid s (observes position accepted) v = observe-IsValid s position accepted v
step-IsValid s consumes v = ground arith

run-IsValid : (s : AdaptiveMtpScheduler) (es : List Event) → IsValid s → IsValid (run s es)
run-IsValid s [] v = v
run-IsValid s (e ∷ es) v = run-IsValid (step s e) es (step-IsValid s e v)

-- Whatever a decode loop observes and consumes, a scheduler that was created for one, two or four
-- drafts keeps a draft count of one, two or four that is at most its maximum, never holds more than
-- fifteen groups in its window, and never owes more than sixteen ordinary steps.
pub run-create-IsValid :
    (n position : ℕ) (enabled : Bool) (es : List Event)
    → IsDraftCount n
    → IsValid (run (create n position enabled) es)
run-create-IsValid n position enabled es h = run-IsValid _ es (create-IsValid n position enabled h)

observe-disabled :
    (s : AdaptiveMtpScheduler) (e : Event)
    → s.enabled ≡ false
    → s.ordinary_fallback_remaining ≡ 0
    → step s e ≡ s
unfolding observe consume_ordinary_fallback
observe-disabled s (observes position accepted) off none_owed = rw off
observe-disabled s consumes off none_owed = rw none_owed

run-disabled :
    (s : AdaptiveMtpScheduler) (es : List Event)
    → s.enabled ≡ false
    → s.ordinary_fallback_remaining ≡ 0
    → run s es ≡ s
run-disabled s [] off none_owed = refl
run-disabled s (e ∷ es) off none_owed =
    ap (λ t. run t es) (observe-disabled s e off none_owed) ∙ run-disabled s es off none_owed

-- An explicit draft count bypasses every transition: a scheduler that is not enabled has the same
-- draft count after any run, at any position, and never asks for an ordinary step.
pub run-create-disabled :
    (n position : ℕ) (es : List Event)
    → ((run (create n position false) es).active_drafts ≡ n)
      × (use_ordinary_fallback (run (create n position false) es) ≡ false)
unfolding create use_ordinary_fallback
run-create-disabled n position es = (ap (λ s. s.active_drafts) same, ap use_ordinary_fallback same)
  where
    same : run (create n position false) es ≡ create n position false
    same = run-disabled (create n position false) es refl refl
