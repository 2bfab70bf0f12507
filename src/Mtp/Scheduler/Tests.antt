-- ===== src/Mtp/Scheduler/Tests.antt =====
-- The scheduler's theorems at concrete runs.
use gem16gb.Prelude.{◌≤◌, ◌<◌, ◌≡◌, ◌↔◌, refl, inr, true, [], ◌∷◌, arith, replicate, ◌++◌}
use gem16gb.Mtp.Scheduler.{
  AdaptiveMtpScheduler, create, adapt, close_window, observe, use_ordinary_fallback,
}
use gem16gb.Mtp.Scheduler.Laws.{observes, consumes, run, IsValid, run-create-IsValid}
use gem16gb.Mtp.Scheduler.Window.{
  with_window, observe_all, observe_all-window, adapt_stable, consume_all, fallback_lasts,
}

run-create-IsValid_example :
    IsValid (run (create 4 0 true) (observes 10 3 ∷ consumes ∷ observes 12 0 ∷ []))
run-create-IsValid_example =
    run-create-IsValid 4 0 true (observes 10 3 ∷ consumes ∷ observes 12 0 ∷ []) (inr (inr refl))

-- A scheduler for four drafts, at the start of a text.
abbrev four : AdaptiveMtpScheduler
four = record {
  maximum_drafts = 4;
  active_drafts = 4;
  window_groups = 0;
  window_accepted_tokens = 0;
  ordinary_fallback_remaining = 0;
  enabled = true;
}

-- Fifteen groups with one accepted token each, and one with four.
observe_all-window_example :
    (observe_all four (replicate 15 (100, 1)) ≡ with_window four 15 15)
    × (observe_all four (replicate 15 (100, 1) ++ (160, 4) ∷ [])
        ≡ with_window (adapt (with_window four 16 19) 160) 0 0)
observe_all-window_example =
    observe_all-window four (replicate 15 (100, 1)) 160 4 refl refl refl refl (omega arith)

lowered : (observe_all four (replicate 15 (100, 1) ++ (160, 4) ∷ [])).active_drafts ≡ 2
unfolding observe adapt
lowered = refl

abbrev one_draft : AdaptiveMtpScheduler
one_draft = record (with_window four 16 12) { active_drafts = 1 }

adapt_stable_example :
    (adapt one_draft 100).active_drafts ≤ (adapt (adapt one_draft 100) 200).active_drafts
unfolding adapt
adapt_stable_example = adapt_stable one_draft 100 200 (omega arith) (omega arith)

abbrev rejecting : AdaptiveMtpScheduler
rejecting = record (with_window four 16 6) { active_drafts = 1 }

fallback_lasts_example :
    ((adapt rejecting 100).active_drafts ≡ 1)
    × ((use_ordinary_fallback (consume_all 3 (close_window (adapt rejecting 100))) ≡ true)
        ↔ (3 < 16))
fallback_lasts_example = fallback_lasts rejecting 100 3 refl refl refl
