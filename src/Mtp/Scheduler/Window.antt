-- ===== src/Mtp/Scheduler/Window.antt =====
-- The judgement of a window, and the ordinary steps that a judgement may ask for.
use gem16gb.Prelude.{
  ℕ, zero, suc, ◌+◌, ◌-◌, ◌^◌, ◌≤◌, ◌<◌, ◌≡◌, refl, ap, ◌∙◌, ◌⊎◌, inl, inr, ◌↔◌, true, false, List,
  [], ◌∷◌, ◌++◌, arith, length,
}
use gem16gb.Mtp.Scheduler.{
  AdaptiveMtpScheduler, use_ordinary_fallback, consume_ordinary_fallback, adapt, count_group,
  close_window, mean_below, observe,
}

-- A group's position and the tokens that it accepted.
abbrev pub Group : Type 0
Group = ℕ × ℕ

abbrev pub observe_all : AdaptiveMtpScheduler → List Group → AdaptiveMtpScheduler
observe_all s [] = s
observe_all s ((position, accepted) ∷ gs) = observe_all (observe s position accepted) gs

abbrev pub accepted_sum : List Group → ℕ
accepted_sum [] = 0
accepted_sum ((position, accepted) ∷ gs) = accepted + accepted_sum gs

abbrev pub with_window : AdaptiveMtpScheduler → ℕ → ℕ → AdaptiveMtpScheduler
with_window s groups accepted = record s {
  window_groups = groups;
  window_accepted_tokens = accepted;
}

observe-open :
    (s : AdaptiveMtpScheduler) (position accepted : ℕ)
    → s.enabled ≡ true
    → s.window_groups + 1 < 16
    → s.window_accepted_tokens + accepted < 2 ^ 32
    → observe s position accepted
      ≡ with_window s (s.window_groups + 1) (s.window_accepted_tokens + accepted)
unfolding observe
observe-open s position accepted on room small = ground arith

count_group-full :
    (s : AdaptiveMtpScheduler) (accepted : ℕ)
    → s.window_groups ≡ 15
    → s.window_accepted_tokens + accepted < 2 ^ 32
    → count_group s accepted ≡ with_window s 16 (s.window_accepted_tokens + accepted)
count_group-full s accepted full small = ground arith

observe-full :
    (s : AdaptiveMtpScheduler) (position accepted : ℕ)
    → s.enabled ≡ true
    → s.window_groups ≡ 15
    → s.window_accepted_tokens + accepted < 2 ^ 32
    → observe s position accepted
      ≡ close_window (adapt (with_window s 16 (s.window_accepted_tokens + accepted)) position)
unfolding observe
observe-full s position accepted on full small =
    ground
      (arith, ap (λ t. close_window (adapt t position)) (count_group-full s accepted full small))

observe_all-open :
    (s : AdaptiveMtpScheduler) (gs : List Group)
    → s.enabled ≡ true
    → s.window_groups + length gs < 16
    → s.window_accepted_tokens + accepted_sum gs < 2 ^ 32
    → observe_all s gs
      ≡ with_window s (s.window_groups + length gs) (s.window_accepted_tokens + accepted_sum gs)
observe_all-open s [] on room small = ground arith
observe_all-open s ((position, accepted) ∷ gs) on room small =
    ap (λ t. observe_all t gs) (observe-open s position accepted on (omega arith) (omega arith))
    ∙ observe_all-open (with_window s (s.window_groups + 1) (s.window_accepted_tokens + accepted))
        gs on (omega arith) (omega arith)
    ∙ ground arith

observe_all-append :
    (s : AdaptiveMtpScheduler) (gs hs : List Group)
    → observe_all s (gs ++ hs) ≡ observe_all (observe_all s gs) hs
observe_all-append s [] hs = refl
observe_all-append s ((p, a) ∷ gs) hs = observe_all-append (observe s p a) gs hs

-- A window is judged once, on its total: an enabled scheduler whose window is empty, after fifteen
-- groups and a sixteenth at some position, is what the thresholds make of sixteen groups and the sum
-- of all accepted tokens at that position, with its window empty again. The thresholds do not run
-- before that. The sum of the accepted tokens is below 2 ^ 32.
pub observe_all-window :
    (s : AdaptiveMtpScheduler) (gs : List Group) (position accepted : ℕ)
    → s.enabled ≡ true
    → s.window_groups ≡ 0
    → s.window_accepted_tokens ≡ 0
    → length gs ≡ 15
    → accepted_sum gs + accepted < 2 ^ 32
    → (observe_all s gs ≡ with_window s 15 (accepted_sum gs))
      × (observe_all s (gs ++ (position, accepted) ∷ [])
          ≡ with_window (adapt (with_window s 16 (accepted_sum gs + accepted)) position) 0 0)
observe_all-window s gs position accepted on empty none_yet fifteen small = (
  counted,
  observe_all-append s gs ((position, accepted) ∷ [])
      ∙ ap (λ t. observe t position accepted) counted
      ∙ observe-full (with_window s 15 (accepted_sum gs)) position accepted on refl small,
)
  where
    counted : observe_all s gs ≡ with_window s 15 (accepted_sum gs)
    counted = observe_all-open s gs on (omega arith) (omega arith) ∙ ground arith

raised_cases :
    (s : AdaptiveMtpScheduler) (position : ℕ)
    → s.active_drafts < (adapt s position).active_drafts
    → ((mean_below 70 s ≡ false) × (adapt s position ≡ record s { active_drafts = 2 }))
      ⊎ ((mean_below 160 s ≡ false) × (adapt s position ≡ record s { active_drafts = 4 }))
unfolding adapt
raised_cases s position raised = ground arith

stays_two :
    (s : AdaptiveMtpScheduler) (later : ℕ)
    → mean_below 70 s ≡ false
    → 2 ≤ (adapt (record s { active_drafts = 2 }) later).active_drafts
unfolding adapt
stays_two s later enough = ground arith

stays_four :
    (s : AdaptiveMtpScheduler) (later : ℕ)
    → mean_below 160 s ≡ false
    → later ≤ 2048
    → 4 ≤ (adapt (record s { active_drafts = 4 }) later).active_drafts
unfolding adapt
stays_four s later enough near = ground arith

-- The thresholds leave a gap: if judging a window raises the draft count, then judging a window with
-- the same counters again, at any position that is not past 2048, does not lower it.
pub adapt_stable :
    (s : AdaptiveMtpScheduler) (position later : ℕ)
    → s.active_drafts < (adapt s position).active_drafts
    → later ≤ 2048
    → (adapt s position).active_drafts ≤ (adapt (adapt s position) later).active_drafts
adapt_stable s position later raised near = elim (raised_cases s position raised) [
  | inl (enough, e) ↦ rw e (stays_two s later enough)
  | inr (enough, e) ↦ rw e (stays_four s later enough near)
]

unfoldable pub consume_all : ℕ → AdaptiveMtpScheduler → AdaptiveMtpScheduler
consume_all zero s = s
consume_all (suc n) s = consume_all n (consume_ordinary_fallback s)

consume_all-remaining :
    (n : ℕ) (s : AdaptiveMtpScheduler)
    → consume_all n s ≡ record s { ordinary_fallback_remaining = s.ordinary_fallback_remaining - n }
unfolding consume_all consume_ordinary_fallback
consume_all-remaining zero s = ground arith
consume_all-remaining (suc n) s =
    consume_all-remaining n (consume_ordinary_fallback s) ∙ ground arith

low_window :
    (s : AdaptiveMtpScheduler) (position : ℕ)
    → s.active_drafts ≡ 1
    → mean_below 40 s ≡ true
    → adapt s position ≡ record s { ordinary_fallback_remaining = 16 }
unfolding adapt
low_window s position one low = ground arith

-- An enabled scheduler at one draft whose window falls below 0.40 keeps its one draft, and asks for
-- ordinary steps until exactly sixteen of them have been consumed.
pub fallback_lasts :
    (s : AdaptiveMtpScheduler) (position n : ℕ)
    → s.enabled ≡ true
    → s.active_drafts ≡ 1
    → mean_below 40 s ≡ true
    → ((adapt s position).active_drafts ≡ 1)
      × ((use_ordinary_fallback (consume_all n (close_window (adapt s position))) ≡ true)
          ↔ (n < 16))
unfolding use_ordinary_fallback
fallback_lasts s position n on one low = rw (low_window s position one low) (
    rw (consume_all-remaining n (close_window (record s { ordinary_fallback_remaining = 16 })))
      (one, ground arith))
