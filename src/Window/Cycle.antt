-- ===== src/Window/Cycle.antt =====
-- flight/window_scheduler.py: the natural cycle, over every sequence of method calls.
use mathlib.Core.Path.{subst}
use asterion_one.Base.{
  ℕ, ◌+◌, ◌≤◌, ◌≡◌, Bool, true, false, Option, none, arith, inl, inr, Bool-cases, leb, ◌-◌,
  if◌then◌else◌,
}
use asterion_one.Window.Locked.{Scheduler, Outcome, returned, blocked, initial, Callback}
use asterion_one.Window.States.{
  freed, closed_at, opened_at, forced_at, cleared_at, check_force_expiry-cases, tick-eq,
}
use asterion_one.Window.Callbacks.{called-LeavesCycle}
use asterion_one.Window.Pacing.{
  Phase, phase, after_log, IsPaced, Inv, Agrees-Inv, close-Inv, open-Inv, forced-Inv, cleared-Inv,
  initial-Inv,
}
use asterion_one.Window.Methods.{
  is_open, time_until_next_open, time_until_close, force_closed, clear_force, tick, tick_body,
  called, notify,
}

-- One call from a free mutex. A tick reads the clock no earlier than the last change of state.
pub data Step (s : Scheduler) (s' : Scheduler) : Type 0 where
  ticks : (t now : ℕ) (b : Bool) → s.state_start ≤ now → tick t now s ≡ returned b s' → Step s s'
  asks_open : (t : ℕ) (b : Bool) → is_open t s ≡ returned b s' → Step s s'
  asks_next : (t now : ℕ) (w : Option ℕ) → time_until_next_open t now s ≡ returned w s' → Step s s'
  asks_close : (t now w : ℕ) → time_until_close t now s ≡ returned w s' → Step s s'
  forces : (d : Option ℕ) (t now : ℕ) → force_closed d t now s ≡ returned tt s' → Step s s'
  clears : (now : ℕ) → clear_force now s ≡ returned tt s' → Step s s'

pub data Reach (s : Scheduler) : Scheduler → Type 0 where
  here : Reach s s
  next : {u v : Scheduler} → Reach s u → Step u v → Reach s v

-- The state that a call leaves has the property, where the call returns.
abbrev Leaves : {A : Type 0} → (Scheduler → Type 0) → Outcome A → Type 0
Leaves P (returned a s) = P s
Leaves P blocked = Unit

called-Leaves :
    {start s : Scheduler} (b : Bool) → Inv start s → Leaves (Inv start) (called s.callback b s)
called-Leaves {s} b v = elim (called-LeavesCycle s.callback b s) [
  | inl stops ↦ rw stops tt
  | inr (u, goes, same) ↦ rw goes (Agrees-Inv v same)
]

-- The end of a tick that has changed the window.
abbrev changed : Outcome (Unit {0}) → Outcome Bool
changed (returned _ s) = returned true (record s { locked = false })
changed blocked = blocked

unlocked-Inv : {start s : Scheduler} → Inv start s → Inv start (record s { locked = false })
unlocked-Inv v = Agrees-Inv v (ground arith)

changed-Leaves :
    (start : Scheduler) (r : Outcome (Unit {0}))
    → Leaves (Inv start) r
    → Leaves (Inv start) (changed r)
changed-Leaves start (returned a s) v = unlocked-Inv v
changed-Leaves start blocked v = tt

tick_body-Leaves :
    {start s : Scheduler} (now : ℕ)
    → Inv start s
    → s.state_start ≤ now
    → Leaves (Inv start) (freed (tick_body now s))
unfolding notify
tick_body-Leaves {start} {s} now v le = elim (Bool-cases s.natural_open) [
  | inl open_now ↦ elim (Bool-cases (leb s.open_duration (now - s.state_start))) [
    | inl due ↦
        let e : freed (tick_body now s) ≡ changed (called s.callback false (closed_at now s)) =
          ground (arith, open_now, due) in
        rw e (changed-Leaves start _ (called-Leaves false (close-Inv v now le open_now due)))
    | inr early ↦
        let e : freed (tick_body now s) ≡ returned false (record s { locked = false }) =
          ground (arith, open_now, early) in
        rw e (unlocked-Inv v)
  ]
  | inr hidden ↦ elim (Bool-cases (leb s.closed_duration (now - s.state_start))) [
    | inl due ↦
        let e : freed (tick_body now s) ≡ changed (called s.callback true (opened_at now s)) =
          ground (arith, hidden, due) in
        rw e (changed-Leaves start _ (called-Leaves true (open-Inv v now le hidden due)))
    | inr early ↦
        let e : freed (tick_body now s) ≡ returned false (record s { locked = false }) =
          ground (arith, hidden, early) in
        rw e (unlocked-Inv v)
  ]
]

tick-Leaves :
    {start s : Scheduler} (t now : ℕ)
    → Inv start s
    → s.state_start ≤ now
    → Leaves (Inv start) (tick t now s)
unfolding tick
tick-Leaves {start} {s} t now v le =
    let held : Scheduler = record s { locked = true } in
    let w : Inv start held = Agrees-Inv v (ground arith) in
    elim (Bool-cases s.locked) [
      | inl taken ↦ let e : tick t now s ≡ blocked = ground (arith, taken) in rw e tt
      | inr free ↦ elim (check_force_expiry-cases t held) [
        | inl kept ↦ rw (tick-eq t now s free, kept) (tick_body-Leaves now w le)
        | inr over ↦
            rw (tick-eq t now s free, over)
              (tick_body-Leaves {s = record held { forced = false; force_until = none }} now
                (Agrees-Inv w (ground arith)) le)
      ]
    ]

force_closed-Leaves :
    {start s : Scheduler} (d : Option ℕ) (t now : ℕ)
    → Inv start s
    → Leaves (Inv start) (force_closed d t now s)
unfolding force_closed notify
force_closed-Leaves {s} d t now v = elim (Bool-cases s.locked) [
  | inl taken ↦ let e : force_closed d t now s ≡ blocked = ground (arith, taken) in rw e tt
  | inr free ↦
      let e : force_closed d t now s ≡ called s.callback false (forced_at d t now s) =
        ground (arith, free) in
      rw e (called-Leaves false (forced-Inv v d t now))
]

clear_force-Leaves :
    {start s : Scheduler} (now : ℕ) → Inv start s → Leaves (Inv start) (clear_force now s)
unfolding clear_force notify
clear_force-Leaves {s} now v = elim (Bool-cases s.locked) [
  | inl taken ↦ let e : clear_force now s ≡ blocked = ground (arith, taken) in rw e tt
  | inr free ↦ elim (Bool-cases s.natural_open) [
    | inl open_now ↦
        let e : clear_force now s ≡ called s.callback true (cleared_at now s) =
          ground (arith, free, open_now) in
        rw e (called-Leaves true (cleared-Inv v now))
    | inr hidden ↦
        let e : clear_force now s ≡ returned tt (cleared_at now s) = ground (arith, free, hidden) in
        rw e (cleared-Inv v now)
  ]
]

module _ {start s : Scheduler} (v : Inv start s) where
  is_open-Inv : {s' : Scheduler} (t : ℕ) (b : Bool) → is_open t s ≡ returned b s' → Inv start s'
  unfolding is_open
  is_open-Inv t b h = record {
    open_kept = ground (arith, v.open_kept);
    closed_kept = ground (arith, v.closed_kept);
    paced = ground (arith, v.paced);
    current = ground (arith, v.current);
    counted = ground (arith, v.counted);
  }

  time_until_next_open-Inv :
      {s' : Scheduler} (t now : ℕ) (w : Option ℕ)
      → time_until_next_open t now s ≡ returned w s'
      → Inv start s'
  unfolding time_until_next_open
  time_until_next_open-Inv t now w h = record {
    open_kept = ground (arith, v.open_kept);
    closed_kept = ground (arith, v.closed_kept);
    paced = ground (arith, v.paced);
    current = ground (arith, v.current);
    counted = ground (arith, v.counted);
  }

  time_until_close-Inv :
      {s' : Scheduler} (t now w : ℕ) → time_until_close t now s ≡ returned w s' → Inv start s'
  unfolding time_until_close
  time_until_close-Inv t now w h = record {
    open_kept = ground (arith, v.open_kept);
    closed_kept = ground (arith, v.closed_kept);
    paced = ground (arith, v.paced);
    current = ground (arith, v.current);
    counted = ground (arith, v.counted);
  }

Step-Inv : {start s s' : Scheduler} → Inv start s → Step s s' → Inv start s'
Step-Inv {start} v (ticks t now b le h) = subst (Leaves (Inv start)) h (tick-Leaves t now v le)
Step-Inv v (asks_open t b h) = is_open-Inv v t b h
Step-Inv v (asks_next t now w h) = time_until_next_open-Inv v t now w h
Step-Inv v (asks_close t now w h) = time_until_close-Inv v t now w h
Step-Inv {start} v (forces d t now h) = subst (Leaves (Inv start)) h (force_closed-Leaves d t now v)
Step-Inv {start} v (clears now h) = subst (Leaves (Inv start)) h (clear_force-Leaves now v)

Reach-Inv : {start s s' : Scheduler} → Inv start s → Reach s s' → Inv start s'
Reach-Inv v here = v
Reach-Inv v (next r st) = Step-Inv (Reach-Inv v r) st

-- After any calls on a new scheduler, ticks, queries and forces in any order, where a tick reads the
-- clock no earlier than the last change of state, the log shows windows that close only after their
-- full open time and open only after the full closed time, in turn and numbered one by one; the log
-- ends in the scheduler's present phase; and the completed windows are the opened ones less the one
-- still open.
pub cycle-IsPaced :
    (open_duration closed_duration : ℕ) (start_open : Bool) (callback : Option Callback) (now : ℕ)
    (s : Scheduler)
    → Reach (initial open_duration closed_duration start_open callback now) s
    → let start : Phase = record { open_phase = start_open; since = now; window = 0 } in
      IsPaced open_duration closed_duration start s.transitions
      × (after_log start s.transitions ≡ phase s)
      × (s.total_completed + (if s.natural_open then 1 else 0)
          ≡ s.window_id + (if start_open then 1 else 0))
cycle-IsPaced o c b cb now s r =
    let v : Inv (initial o c b cb now) s = Reach-Inv (initial-Inv o c b cb now) r in
    (v.paced, v.current, v.counted)
