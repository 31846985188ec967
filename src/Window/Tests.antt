-- ===== src/Window/Tests.antt =====
-- Runs of the scheduler, and its theorems at concrete inputs.
use asterion_one.Base.{
  ℕ, ◌+◌, ◌≡◌, refl, ◌↔◌, true, false, none, some, [], ◌∷◌, arith, if◌then◌else◌,
}
use asterion_one.Window.Locked.{Scheduler, returned, blocked, initial, asks_open}
use asterion_one.Window.Methods.{
  check_force_expiry, effective_open, is_open, time_until_next_open, time_until_close,
  current_window_info, force_closed, clear_force, tick, notify, react,
}
use asterion_one.Window.Progress.{Frees, methods-Frees, current_window_info-blocked_iff}
use asterion_one.Window.Pacing.{Phase, phase, after_log, IsPaced}
use asterion_one.Window.Cycle.{ticks, Reach, here, next, cycle-IsPaced}
use asterion_one.Window.Force.{value}

-- 10 units open, 80 closed, from time 0, with a callback that asks nothing.
abbrev fresh : Scheduler
fresh = initial 10 80 true (some (λ n b w. [])) 0

-- The same, with a callback that asks whether the window is open.
abbrev asking : Scheduler
asking = initial 10 80 true (some (λ n b w. asks_open 10 ∷ [])) 0

abbrev closed_at_10 : Scheduler
closed_at_10 = initial 10 80 false none 10

tick_early : value (tick 9 9 fresh) ≡ some false
unfolding tick notify react
tick_early = refl

abbrev after_tick : Scheduler → ℕ → Scheduler
unfolding tick notify react
after_tick s now = elim (tick now now s) [ returned b s' ↦ s' | blocked ↦ s ]

methods-Frees_example :
    Frees (is_open 10 asking)
    × Frees (time_until_next_open 10 10 asking)
    × Frees (time_until_close 10 10 asking)
    × Frees (force_closed (some 5) 10 10 asking)
    × Frees (clear_force 10 asking)
    × (tick 10 10 asking ≡ blocked)
methods-Frees_example = methods-Frees asking (some 5) 10 10 refl (λ n b w. (tt, tt))

current_window_info-blocked_iff_example :
    (current_window_info 20 20 20 20 closed_at_10 ≡ blocked)
    ↔ (effective_open (check_force_expiry 20 closed_at_10) ≡ false)
current_window_info-blocked_iff_example =
    current_window_info-blocked_iff closed_at_10 20 20 20 20 refl

-- Open until 10, then closed; a tick at 90 opens window 1.
abbrev second : Scheduler
second = after_tick (after_tick fresh 10) 90

second-Reach : Reach fresh second
unfolding tick notify react
second-Reach =
    next (next here (ticks 10 10 true (omega arith) refl)) (ticks 90 90 true (omega arith) refl)

cycle-IsPaced_example :
    let start : Phase = record { open_phase = true; since = 0; window = 0 } in
    IsPaced 10 80 start second.transitions
    × (after_log start second.transitions ≡ phase second)
    × (second.total_completed + (if second.natural_open then 1 else 0) ≡ second.window_id + 1)
cycle-IsPaced_example = cycle-IsPaced 10 80 true (some (λ n b w. [])) 0 second second-Reach
