-- ===== src/Window/Force.antt =====
-- flight/window_scheduler.py: forced closure against the natural cycle, and exact waiting times.
use asterion_one.Base.{
  ℕ, ◌+◌, ◌≤◌, ◌≡◌, ◌↔◌, Bool, true, false, Option, none, some, arith, ltb, if◌then◌else◌,
}
use asterion_one.Window.Locked.{Scheduler, Outcome, returned, blocked, ◌>>◌}
use asterion_one.Window.Methods.{
  is_open, time_until_next_open, force_closed, clear_force, tick, notify,
}
use asterion_one.Window.Pacing.{Phase, phase}

abbrev pub value : {A : Type 0} → Outcome A → Option A
value (returned a s) = some a
value blocked = none

-- What a call leaves of the cycle, and whether it changed the window.
abbrev pub cycle_after : Outcome Bool → Option (Bool × Phase)
cycle_after (returned b s) = some (b, phase s)
cycle_after blocked = none

abbrev pub in_force : Option ℕ → ℕ → ℕ → Bool
in_force none from t = true
in_force (some duration) from t = ltb t (from + duration)

-- From a free mutex and without a callback, a forced closure hides the window for its duration, or until it is cleared where it has none;
-- after that the natural state shows again.
pub force_closed-is_open :
    (s : Scheduler) (duration : Option ℕ) (from logged_at t : ℕ)
    → s.locked ≡ false
    → s.callback ≡ none
    → value ((force_closed duration from logged_at >> is_open t) s)
      ≡ some (if in_force duration from t then false else s.natural_open)
unfolding force_closed is_open notify
force_closed-is_open s none from logged_at t free quiet = ground arith
force_closed-is_open s (some d) from logged_at t free quiet = ground arith

-- Without a callback, clearing a force shows the natural state at once.
pub clear_force-is_open :
    (s : Scheduler) (logged_at t : ℕ)
    → s.locked ≡ false
    → s.callback ≡ none
    → value ((clear_force logged_at >> is_open t) s) ≡ some s.natural_open
unfolding clear_force is_open notify
clear_force-is_open s logged_at t free quiet = ground arith

-- From a free mutex and without a callback, a forced closure, timed or not, does not disturb the natural cycle: a tick under it changes the
-- window when, and as, the tick without it would.
pub tick-force_closed :
    (s : Scheduler) (duration : Option ℕ) (from logged_at t now : ℕ)
    → s.locked ≡ false
    → s.callback ≡ none
    → cycle_after ((force_closed duration from logged_at >> tick t now) s)
      ≡ cycle_after (tick t now s)
unfolding force_closed tick notify
tick-force_closed s duration from logged_at t now free quiet = ground arith

-- From a free mutex and without a callback `time_until_next_open` is exact: in a window closed by the cycle alone, a later tick opens it
-- precisely from the end of the reported wait on.
pub time_until_next_open-exact :
    (s : Scheduler) (t now w u later : ℕ)
    → s.locked ≡ false
    → s.callback ≡ none
    → s.forced ≡ false
    → s.natural_open ≡ false
    → s.state_start ≤ now
    → now ≤ later
    → value (time_until_next_open t now s) ≡ some (some w)
    → (value (tick u later s) ≡ some true) ↔ (now + w ≤ later)
unfolding time_until_next_open tick notify
time_until_next_open-exact s t now w u later free quiet unforced closed le le' h =
    (λ k. ground arith, λ k. ground arith)
