-- ===== src/Window/Methods.antt =====
-- flight/window_scheduler.py: the methods of `WindowScheduler`.
use asterion_one.Base.{
  ℕ, zero, ◌+◌, ◌-◌, ◌*◌, ◌/◌, ◌%◌, Bool, true, false, not, ◌&&◌, Option, none, some, List, [], ◌∷◌,
  length, ltb, leb, if◌then◌else◌,
}
use asterion_one.Window.Locked.{
  Scheduler, Action, returned, window_closed, window_opened, force_closed_event, force_cleared,
  pure, gets, modify, ◌>>=◌, ◌>>◌, with_lock, record_event, noted, Callback, Query, asks_open,
  asks_next_open, asks_close, asks_info,
}

abbrev expired : Option ℕ → ℕ → Bool
expired none now = false
expired (some until) now = leb until now

unfoldable pub check_force_expiry : ℕ → Scheduler → Scheduler
check_force_expiry now s =
    if s.forced && expired s.force_until now
    then record s { forced = false; force_until = none }
    else s

unfoldable pub is_open : ℕ → Action Bool
unfolding check_force_expiry
is_open t =
    with_lock
      (do modify (check_force_expiry t); gets λ s. if s.forced then false else s.natural_open)

-- A waiting time, where `none` is `float("inf")`; `if self._force_until:` fails at `None` and at 0.
abbrev forced_wait : Option ℕ → ℕ → Option ℕ
forced_wait none now = none
forced_wait (some zero) now = none
forced_wait (some until) now = some (until - now)

unfoldable pub time_until_next_open : ℕ → ℕ → Action (Option ℕ)
unfolding check_force_expiry
time_until_next_open t now = with_lock (do
  modify (check_force_expiry t)
  gets λ s.
      if s.forced
      then forced_wait s.force_until now
      else if s.natural_open
      then some 0
      else some (s.closed_duration - (now - s.state_start)))

unfoldable pub time_until_close : ℕ → ℕ → Action ℕ
unfolding check_force_expiry
time_until_close t now = with_lock (do
  modify (check_force_expiry t)
  gets λ s.
      if s.forced then 0 else if s.natural_open then s.open_duration - (now - s.state_start) else 0)

pub record WindowInfo : Type 0 where
  pub open_now : Bool
  pub window_id : ℕ
  pub elapsed : ℕ
  pub remaining : ℕ
  pub forced_closed : Bool
  pub next_open_in : Option ℕ
  pub next_close_in : ℕ
  pub total_completed : ℕ

-- `round(x, 3)`: to whole milliseconds, ties to the even one.
abbrev round_ms : ℕ → ℕ
round_ms x =
    let q = x / 1000000 in
    let r = x % 1000000 in
    1000000 * (if ltb r 500000 then q else if ltb 500000 r then q + 1 else q + q % 2)

abbrev round_wait : Option ℕ → Option ℕ
round_wait none = none
round_wait (some x) = some (round_ms x)

-- `self._forced_closed and self._force_until`
abbrev forced_left : Option ℕ → ℕ → ℕ → ℕ
forced_left none now other = other
forced_left (some zero) now other = other
forced_left (some until) now other = until - now

-- `is_open=effective_open`
abbrev pub effective_open : Scheduler → Bool
effective_open s = s.natural_open && not s.forced

abbrev closed_left : Scheduler → ℕ → ℕ
closed_left s now = if not s.natural_open then s.closed_duration - (now - s.state_start) else 0

abbrev remaining_in_state : Scheduler → ℕ → ℕ
remaining_in_state s now =
    if effective_open s
    then s.open_duration - (now - s.state_start)
    else if s.forced
    then forced_left s.force_until now (closed_left s now)
    else closed_left s now

-- The inner call takes the lock again, and reads the clock twice more.
unfoldable pub current_window_info : ℕ → ℕ → ℕ → ℕ → Action WindowInfo
unfolding check_force_expiry time_until_next_open
current_window_info t now t' now' = with_lock (do
  modify (check_force_expiry t)
  is_effective ← gets effective_open
  next_open ←
      (if is_effective
        then pure (some 0)
        else (do wait ← time_until_next_open t' now'; pure (round_wait wait)))
  gets λ s. record {
    open_now = is_effective;
    window_id = s.window_id;
    elapsed = round_ms (now - s.state_start);
    remaining = round_ms (remaining_in_state s now);
    forced_closed = s.forced;
    next_open_in = next_open;
    next_close_in = if is_effective then round_ms (remaining_in_state s now) else 0;
    total_completed = s.total_completed;
  })

unfoldable pub ask : Query → Action (Unit {0})
ask (asks_open t) = do is_open t; pure tt
ask (asks_next_open t now) = do time_until_next_open t now; pure tt
ask (asks_close t now) = do time_until_close t now; pure tt
ask (asks_info t now t' now') = do current_window_info t now t' now'; pure tt

unfoldable pub react : List Query → Action (Unit {0})
react [] = pure tt
react (q ∷ qs) = do ask q; react qs

abbrev pub called : Option Callback → Bool → Action (Unit {0})
called none now_open s = returned tt s
called (some f) now_open s = react (f (length s.notices) now_open s.window_id) (noted now_open s)

-- `if self._on_state_change: self._on_state_change(now_open, self._window_id)`: the callback runs here,
-- and the method goes on when it has returned.
unfoldable pub notify : Bool → Action (Unit {0})
notify now_open s = called s.callback now_open s

abbrev pub force_end : Option ℕ → ℕ → Option ℕ
force_end none now = none
force_end (some duration) now = some (now + duration)

unfoldable pub force_closed : Option ℕ → ℕ → ℕ → Action (Unit {0})
force_closed duration now logged_at = do
  with_lock (do
    modify (λ s. record s { forced = true; force_until = force_end duration now })
    record_event (force_closed_event logged_at duration))
  notify false

unfoldable pub clear_force : ℕ → Action (Unit {0})
clear_force logged_at = do
  with_lock (do
    modify (λ s. record s { forced = false; force_until = none })
    record_event (force_cleared logged_at))
  open_after ← gets (λ s. s.natural_open)
  if open_after then notify true else pure tt

-- OPEN → CLOSED
abbrev close_window : ℕ → Action Bool
close_window now = do
  modify λ s. record s {
    natural_open = false;
    state_start = now;
    total_completed = s.total_completed + 1;
  }
  window ← gets (λ s. s.window_id)
  record_event (window_closed now window)
  notify false
  pure true

-- CLOSED → OPEN
abbrev open_window : ℕ → Action Bool
open_window now = do
  modify λ s. record s { natural_open = true; state_start = now; window_id = s.window_id + 1 }
  window ← gets (λ s. s.window_id)
  record_event (window_opened now window)
  notify true
  pure true

abbrev pub tick_body : ℕ → Action Bool
tick_body now s = elim (s.natural_open && leb s.open_duration (now - s.state_start)) [
  | true ↦ close_window now s
  | false ↦ elim (not s.natural_open && leb s.closed_duration (now - s.state_start)) [
    | true ↦ open_window now s
    | false ↦ pure false s
  ]
]

unfoldable pub tick : ℕ → ℕ → Action Bool
unfolding check_force_expiry
tick t now = with_lock (do modify (check_force_expiry t); tick_body now)
