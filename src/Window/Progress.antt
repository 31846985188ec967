-- ===== src/Window/Progress.antt =====
-- flight/window_scheduler.py: which methods return and leave the mutex free, and which wait forever.
use asterion_one.Base.{
  ℕ, ◌+◌, ◌-◌, ◌≡◌, refl, ◌↔◌, Bool, true, false, ◌&&◌, Option, none, some, List, [], ◌∷◌, All,
  length, inl, inr, leb, if◌then◌else◌, arith,
}
use asterion_one.Window.Locked.{
  Scheduler, Callback, Outcome, returned, blocked, Query, asks_open, asks_next_open, asks_close,
  asks_info, reaction, noted, ◌>>◌, ◌>>=◌,
}
use asterion_one.Window.States.{
  freed, closed_at, opened_at, forced_at, cleared_at, check_force_expiry-cases, tick-eq,
}
use asterion_one.Window.Methods.{
  check_force_expiry, is_open, time_until_next_open, time_until_close, current_window_info,
  effective_open, force_closed, clear_force, tick, ask, react, called, notify, tick_body,
}

-- The call returns, and its value and final state have the property.
abbrev pub Ensures : {A : Type 0} → (A → Scheduler → Type 0) → Outcome A → Type 0
Ensures P (returned a s) = P a s
Ensures P blocked = ⊥

abbrev pub Frees : {A : Type 0} → Outcome A → Type 0
Frees = Ensures λ _ s. s.locked ≡ false

-- The call waits forever if so, and otherwise returns with the mutex free.
abbrev pub Settles : Bool → Outcome Bool → Type 0
Settles true r = r ≡ blocked
Settles false r = Frees r

-- Every query but `current_window_info`.
abbrev pub IsQuiet : Query → Type 0
IsQuiet (asks_info t now t' now') = ⊥
IsQuiet _ = Unit

-- A tick changes the window: it has been in its state for the full time.
abbrev pub is_due : ℕ → Scheduler → Bool
is_due now s =
    if s.natural_open
    then leb s.open_duration (now - s.state_start)
    else leb s.closed_duration (now - s.state_start)

-- What the callback asks when a tick changes the window.
abbrev pub asked : Scheduler → List Query
asked s =
    if s.natural_open
    then reaction s.callback (length s.notices) false s.window_id
    else reaction s.callback (length s.notices) true (s.window_id + 1)

abbrev pub is_any : List Query → Bool
is_any [] = false
is_any (_ ∷ _) = true

pub ask-locked : (q : Query) (s : Scheduler) → s.locked ≡ true → ask q s ≡ blocked
unfolding ask is_open time_until_next_open time_until_close current_window_info
ask-locked (asks_open t) s h = ground arith
ask-locked (asks_next_open t now) s h = ground arith
ask-locked (asks_close t now) s h = ground arith
ask-locked (asks_info t now t' now') s h = ground arith

-- A callback that asks anything under the mutex never comes back.
react-locked :
    (qs : List Query) (s : Scheduler)
    → s.locked ≡ true
    → react qs s ≡ (if is_any qs then blocked else returned tt s)
unfolding react
react-locked [] s h = refl
react-locked (q ∷ qs) s h = rw (ask-locked q s h, ◌>>◌, ◌>>=◌) refl

ask-Frees :
    (q : Query) (s : Scheduler)
    → s.locked ≡ false
    → IsQuiet q
    → (s' : Scheduler) × (ask q s ≡ returned tt s') × (s'.locked ≡ false)
unfolding ask is_open time_until_next_open time_until_close check_force_expiry
ask-Frees (asks_open t) s h k =
    (record (check_force_expiry t s) { locked = false }, ground arith, ground arith)
ask-Frees (asks_next_open t now) s h k =
    (record (check_force_expiry t s) { locked = false }, ground arith, ground arith)
ask-Frees (asks_close t now) s h k =
    (record (check_force_expiry t s) { locked = false }, ground arith, ground arith)
ask-Frees (asks_info t now t' now') s h k = absurd k

react-Frees :
    (qs : List Query) (s : Scheduler) → s.locked ≡ false → All IsQuiet qs → Frees (react qs s)
unfolding react
react-Frees [] s h k = h
react-Frees (q ∷ qs) s h (k, ks) =
    let (s', e, free) = ask-Frees q s h k in rw (e, ◌>>◌, ◌>>=◌) (react-Frees qs s' free ks)

-- The scheduler once the callback has been called, where there is one, and asked nothing.
abbrev told : Option Callback → Bool → Scheduler → Scheduler
told none b s = s
told (some f) b s = noted b s

called-locked :
    (o : Option Callback) (b : Bool) (s : Scheduler)
    → s.locked ≡ true
    → called o b s ≡ (
        if is_any (reaction o (length s.notices) b s.window_id)
        then blocked
        else returned tt (told o b s))
called-locked none b s h = refl
called-locked (some f) b s h = react-locked (f (length s.notices) b s.window_id) (noted b s) h

called-Frees :
    (o : Option Callback) (b : Bool) (s : Scheduler)
    → s.locked ≡ false
    → All IsQuiet (reaction o (length s.notices) b s.window_id)
    → Frees (called o b s)
called-Frees none b s h k = h
called-Frees (some f) b s h k = react-Frees (f (length s.notices) b s.window_id) (noted b s) h k

tick_body-Settles :
    (now : ℕ) (s : Scheduler)
    → s.locked ≡ true
    → Settles (is_due now s && is_any (asked s)) (freed (tick_body now s))
unfolding notify
tick_body-Settles now s held = ground (
  arith,
  held,
  called-locked s.callback false (closed_at now s) held,
  called-locked s.callback true (opened_at now s) held,
)

tick-Settles :
    (t now : ℕ) (s : Scheduler)
    → s.locked ≡ false
    → Settles (is_due now s && is_any (asked s)) (tick t now s)
tick-Settles t now s free =
    let held : Scheduler = record s { locked = true } in
    elim (check_force_expiry-cases t held) [
      | inl e ↦ rw (tick-eq t now s free, e) (tick_body-Settles now held refl)
      | inr e ↦
          rw (tick-eq t now s free, e)
            (tick_body-Settles now (record held { forced = false; force_until = none }) refl)
    ]

-- The callback asks nothing, or three of the queries.
abbrev pub HasQuiet : Scheduler → Type 0
HasQuiet s = (n : ℕ) (b : Bool) (w : ℕ) → All IsQuiet (reaction s.callback n b w)

force_closed-Frees :
    (d : Option ℕ) (t now : ℕ) (s : Scheduler)
    → s.locked ≡ false
    → HasQuiet s
    → Frees (force_closed d t now s)
unfolding force_closed notify
force_closed-Frees d t now s free quiet = ground (
  arith,
  free,
  called-Frees s.callback false (forced_at d t now s) refl
      (quiet (length s.notices) false s.window_id),
)

clear_force-Frees :
    (now : ℕ) (s : Scheduler) → s.locked ≡ false → HasQuiet s → Frees (clear_force now s)
unfolding clear_force notify
clear_force-Frees now s free quiet = ground (
  arith,
  free,
  called-Frees s.callback true (cleared_at now s) refl (quiet (length s.notices) true s.window_id),
)

-- From a free mutex and with a callback that asks the scheduler nothing but `is_open`,
-- `time_until_next_open` and `time_until_close`, if there is one: the three queries and both
-- fault-injection methods return, and the mutex is free again; a tick waits forever exactly when it
-- changes the window and the callback asks anything of the scheduler at that change, and otherwise
-- returns with the mutex free.
pub methods-Frees :
    (s : Scheduler) (duration : Option ℕ) (t now : ℕ)
    → s.locked ≡ false
    → HasQuiet s
    → Frees (is_open t s)
      × Frees (time_until_next_open t now s)
      × Frees (time_until_close t now s)
      × Frees (force_closed duration t now s)
      × Frees (clear_force now s)
      × Settles (is_due now s && is_any (asked s)) (tick t now s)
unfolding is_open time_until_next_open time_until_close
methods-Frees s duration t now free quiet = (
  ground arith,
  ground arith,
  ground arith,
  force_closed-Frees duration t now s free quiet,
  clear_force-Frees now s free quiet,
  tick-Settles t now s free,
)

-- With a free mutex, `current_window_info` waits forever exactly when the window is not
-- effectively open after the expiry check.
pub current_window_info-blocked_iff :
    (s : Scheduler) (t now t' now' : ℕ)
    → s.locked ≡ false
    → (current_window_info t now t' now' s ≡ blocked)
      ↔ (effective_open (check_force_expiry t s) ≡ false)
unfolding current_window_info
current_window_info-blocked_iff s t now t' now' free = (λ h. ground arith, λ h. ground arith)
