-- ===== src/Window/Callbacks.antt =====
-- flight/window_scheduler.py: what a callback leaves alone when it asks the scheduler.
use asterion_one.Base.{
  ℕ, ◌≡◌, refl, ◌∙◌, ◌⊎◌, Bool, false, Option, none, some, List, [], ◌∷◌, length, Bool-cases, inl,
  inr, arith,
}
use asterion_one.Window.Locked.{
  Scheduler, Outcome, returned, blocked, Callback, Query, asks_open, asks_next_open, asks_close,
  asks_info, noted, ◌>>◌, ◌>>=◌,
}
use asterion_one.Window.Methods.{
  check_force_expiry, is_open, time_until_next_open, time_until_close, current_window_info,
  effective_open, ask, react, called,
}
use asterion_one.Window.Progress.{ask-locked}

-- The cycle, its log and the durations are the same.
pub record Agrees (s s' : Scheduler) : Type 0 where
  pub open_same : s'.open_duration ≡ s.open_duration
  pub closed_same : s'.closed_duration ≡ s.closed_duration
  pub phase_same : s'.natural_open ≡ s.natural_open
  pub start_same : s'.state_start ≡ s.state_start
  pub window_same : s'.window_id ≡ s.window_id
  pub completed_same : s'.total_completed ≡ s.total_completed
  pub log_same : s'.transitions ≡ s.transitions

Agrees-trans : {s u v : Scheduler} → Agrees s u → Agrees u v → Agrees s v
Agrees-trans h k = record {
  open_same = k.open_same ∙ h.open_same;
  closed_same = k.closed_same ∙ h.closed_same;
  phase_same = k.phase_same ∙ h.phase_same;
  start_same = k.start_same ∙ h.start_same;
  window_same = k.window_same ∙ h.window_same;
  completed_same = k.completed_same ∙ h.completed_same;
  log_same = k.log_same ∙ h.log_same;
}

-- The call waits forever, or leaves the cycle as it was.
abbrev pub LeavesCycle : Scheduler → Outcome (Unit {0}) → Type 0
LeavesCycle s r = (r ≡ blocked) ⊎ ((s' : Scheduler) × (r ≡ returned tt s') × Agrees s s')

-- What a query leaves, where it returns.
abbrev asked_at : ℕ → Scheduler → Scheduler
asked_at t s = record (check_force_expiry t s) { locked = false }

asked_at-Agrees : (t : ℕ) (s : Scheduler) → Agrees s (asked_at t s)
unfolding check_force_expiry
asked_at-Agrees t s = ground arith

ask_free : (q : Query) (s : Scheduler) → s.locked ≡ false → LeavesCycle s (ask q s)
unfolding ask is_open time_until_next_open time_until_close current_window_info check_force_expiry
ask_free (asks_open t) s h = inr (asked_at t s, ground arith, asked_at-Agrees t s)
ask_free (asks_next_open t now) s h = inr (asked_at t s, ground arith, asked_at-Agrees t s)
ask_free (asks_close t now) s h = inr (asked_at t s, ground arith, asked_at-Agrees t s)
ask_free (asks_info t now t' now') s h =
    elim (Bool-cases (effective_open (check_force_expiry t s))) [
      | inl open_now ↦ inr (asked_at t s, ground arith, asked_at-Agrees t s)
      | inr hidden ↦ inl (ground arith)
    ]

ask-LeavesCycle : (q : Query) (s : Scheduler) → LeavesCycle s (ask q s)
ask-LeavesCycle q s = elim (Bool-cases s.locked) [
  | inl held ↦ inl (ask-locked q s held)
  | inr free ↦ ask_free q s free
]

react-LeavesCycle : (qs : List Query) (s : Scheduler) → LeavesCycle s (react qs s)
unfolding react
react-LeavesCycle [] s = inr (s, refl, ground arith)
react-LeavesCycle (q ∷ qs) s = elim (ask-LeavesCycle q s) [
  | inl stops ↦ inl (rw (stops, ◌>>◌, ◌>>=◌) refl)
  | inr (u, goes, same) ↦ elim (react-LeavesCycle qs u) [
    | inl stops ↦ inl (rw (goes, ◌>>◌, ◌>>=◌) stops)
    | inr (v, ends, same') ↦ inr (v, rw (goes, ◌>>◌, ◌>>=◌) ends, Agrees-trans same same')
  ]
]

pub called-LeavesCycle :
    (o : Option Callback) (b : Bool) (s : Scheduler) → LeavesCycle s (called o b s)
called-LeavesCycle none b s = inr (s, refl, ground arith)
called-LeavesCycle (some f) b s =
    elim (react-LeavesCycle (f (length s.notices) b s.window_id) (noted b s)) [
      | inl stops ↦ inl stops
      | inr (u, goes, same) ↦ inr (u, goes, ground (arith, same))
    ]
