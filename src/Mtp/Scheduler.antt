-- ===== src/Mtp/Scheduler.antt =====
-- src/cuda/mtp/scheduler.h: the policy that adapts the number of draft tokens.
--
-- The mean acceptance of a window is `accepted / groups`, a float, and a window that is judged has
-- sixteen groups. A comparison with 1.25F, 0.65F, 0.40F, 0.70F or 1.60F is the comparison of
-- `100 * accepted` with `hundredths * groups`: no multiple of 1/16 lies between a threshold and its
-- float, nor rounds across one. Counters are uint32_t and wrap.
pub mod Laws
pub mod Window
pub mod Tests
use gem16gb.Prelude.{
  ℕ, suc, ◌+◌, ◌-◌, ◌*◌, ◌%◌, ◌^◌, Bool, true, false, not, ◌&&◌, ◌||◌, List, [], ◌∷◌, ltb, leb,
  ◌==◌, if◌then◌else◌,
}

pub record AdaptiveMtpScheduler : Type 0 where
  pub maximum_drafts : ℕ
  pub active_drafts : ℕ
  pub window_groups : ℕ
  pub window_accepted_tokens : ℕ
  pub ordinary_fallback_remaining : ℕ
  pub enabled : Bool

-- The constructor.
unfoldable pub create : ℕ → ℕ → Bool → AdaptiveMtpScheduler
create maximum_drafts processed_position enabled = record {
  maximum_drafts = maximum_drafts;
  active_drafts =
      if enabled && maximum_drafts == 4 && ltb 2048 processed_position then 2 else maximum_drafts;
  window_groups = 0;
  window_accepted_tokens = 0;
  ordinary_fallback_remaining = 0;
  enabled = enabled;
}

unfoldable pub use_ordinary_fallback : AdaptiveMtpScheduler → Bool
use_ordinary_fallback s = s.enabled && not (s.ordinary_fallback_remaining == 0)

unfoldable pub consume_ordinary_fallback : AdaptiveMtpScheduler → AdaptiveMtpScheduler
consume_ordinary_fallback s =
    if not (s.ordinary_fallback_remaining == 0)
    then record s { ordinary_fallback_remaining = s.ordinary_fallback_remaining - 1 }
    else s

-- `mean_acceptance < t`, for a threshold of `hundredths`.
abbrev pub mean_below : ℕ → AdaptiveMtpScheduler → Bool
mean_below hundredths s = ltb (100 * s.window_accepted_tokens) (hundredths * s.window_groups)

-- The if-else chain that judges a full window.
unfoldable pub adapt : AdaptiveMtpScheduler → ℕ → AdaptiveMtpScheduler
adapt s processed_position =
    if s.active_drafts == 4 && (ltb 2048 processed_position || mean_below 125 s)
    then record s { active_drafts = 2 }
    else if s.active_drafts == 2 && mean_below 65 s
    then record s { active_drafts = 1 }
    else if s.active_drafts == 1 && mean_below 40 s
    then record s { ordinary_fallback_remaining = 16 }
    else if s.active_drafts == 1 && (leb 2 s.maximum_drafts && not (mean_below 70 s))
    then record s { active_drafts = 2 }
    else if s.active_drafts == 2
        && (s.maximum_drafts == 4 && (leb processed_position 2048 && not (mean_below 160 s)))
    then record s { active_drafts = 4 }
    else s

-- The counters after one more group.
abbrev pub count_group : AdaptiveMtpScheduler → ℕ → AdaptiveMtpScheduler
count_group s accepted_tokens = record s {
  window_groups = (s.window_groups + 1) % 2 ^ 32;
  window_accepted_tokens = (s.window_accepted_tokens + accepted_tokens) % 2 ^ 32;
}

abbrev pub close_window : AdaptiveMtpScheduler → AdaptiveMtpScheduler
close_window s = record s { window_groups = 0; window_accepted_tokens = 0 }

unfoldable pub observe : AdaptiveMtpScheduler → ℕ → ℕ → AdaptiveMtpScheduler
observe s processed_position accepted_tokens =
    if not s.enabled
    then s
    else if ltb (count_group s accepted_tokens).window_groups 16
    then count_group s accepted_tokens
    else close_window (adapt (count_group s accepted_tokens) processed_position)
