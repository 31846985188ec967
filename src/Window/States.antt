-- ===== src/Window/States.antt =====
-- flight/window_scheduler.py: the states between which a tick and a fault injection move.
use asterion_one.Base.{ℕ, ◌+◌, ◌≡◌, ◌⊎◌, Bool, true, false, Option, none, [], ◌∷◌, ◌++◌, arith}
use asterion_one.Window.Locked.{
  Scheduler, Outcome, returned, blocked, window_closed, window_opened, force_closed_event,
  force_cleared,
}
use asterion_one.Window.Methods.{check_force_expiry, tick, tick_body, force_end}

-- The end of `with self._lock:`
abbrev pub freed : Outcome Bool → Outcome Bool
freed (returned b s) = returned b (record s { locked = false })
freed blocked = blocked

-- The scheduler after a change of the window, before the callback is called.
abbrev pub closed_at : ℕ → Scheduler → Scheduler
closed_at now s = record s {
  natural_open = false;
  state_start = now;
  total_completed = s.total_completed + 1;
  transitions = s.transitions ++ window_closed now s.window_id ∷ [];
}

abbrev pub opened_at : ℕ → Scheduler → Scheduler
opened_at now s = record s {
  natural_open = true;
  state_start = now;
  window_id = s.window_id + 1;
  transitions = s.transitions ++ window_opened now (s.window_id + 1) ∷ [];
}

-- The scheduler once a fault is injected or cleared, before the callback is called.
abbrev pub forced_at : Option ℕ → ℕ → ℕ → Scheduler → Scheduler
forced_at d t now s = record s {
  forced = true;
  force_until = force_end d t;
  transitions = s.transitions ++ force_closed_event now d ∷ [];
  locked = false;
}

abbrev pub cleared_at : ℕ → Scheduler → Scheduler
cleared_at now s = record s {
  forced = false;
  force_until = none;
  transitions = s.transitions ++ force_cleared now ∷ [];
  locked = false;
}

pub check_force_expiry-cases :
    (t : ℕ) (s : Scheduler)
    → (check_force_expiry t s ≡ s)
      ⊎ (check_force_expiry t s ≡ record s { forced = false; force_until = none })
unfolding check_force_expiry
check_force_expiry-cases t s = ground arith

pub tick-eq :
    (t now : ℕ) (s : Scheduler)
    → s.locked ≡ false
    → tick t now s ≡ freed (tick_body now (check_force_expiry t (record s { locked = true })))
unfolding tick
tick-eq t now s free = ground (arith, free)
