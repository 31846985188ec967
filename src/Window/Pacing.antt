-- ===== src/Window/Pacing.antt =====
-- flight/window_scheduler.py: the log of a natural cycle, and what keeps it in step with the state.
use asterion_one.Base.{
  ℕ, ◌+◌, ◌-◌, ◌≤◌, ◌∙◌, ◌≡◌, refl, Bool, true, false, leb, Option, List, [], ◌∷◌, ◌++◌, arith,
  if◌then◌else◌,
}
use asterion_one.Window.Locked.{
  Scheduler, Event, window_closed, window_opened, force_closed_event, force_cleared, initial,
  Callback,
}
use asterion_one.Window.States.{closed_at, opened_at, forced_at, cleared_at}
use asterion_one.Window.Callbacks.{Agrees}

-- Where the cycle is: open or closed, since when, and in which window.
pub record Phase : Type 0 where
  pub open_phase : Bool
  pub since : ℕ
  pub window : ℕ

abbrev pub phase : Scheduler → Phase
phase s = record { open_phase = s.natural_open; since = s.state_start; window = s.window_id }

abbrev after_event : Phase → Event → Phase
after_event p (window_closed t w) = record { open_phase = false; since = t; window = w }
after_event p (window_opened t w) = record { open_phase = true; since = t; window = w }
after_event p _ = p

pub after_log : Phase → List Event → Phase
after_log p [] = p
after_log p (e ∷ es) = after_log (after_event p e) es

module _ (open_duration closed_duration : ℕ) where
  -- A window closes only after its full open time, under its own number; it opens only after the
  -- full closed time, under the next number.
  abbrev IsDue : Phase → Event → Type 0
  IsDue p (window_closed t w) =
      (p.open_phase ≡ true) × (p.since + open_duration ≤ t) × (w ≡ p.window)
  IsDue p (window_opened t w) =
      (p.open_phase ≡ false) × (p.since + closed_duration ≤ t) × (w ≡ p.window + 1)
  IsDue p _ = Unit

  abbrev pub IsPaced : Phase → List Event → Type 0
  IsPaced p [] = Unit
  IsPaced p (e ∷ es) = IsDue p e × IsPaced (after_event p e) es

  IsPaced-append :
      (p : Phase) (es : List Event) (e : Event)
      → IsPaced p es
      → IsDue (after_log p es) e
      → IsPaced p (es ++ e ∷ [])
  unfolding after_log
  IsPaced-append p [] e h d = (d, tt)
  IsPaced-append p (x ∷ es) e h d = (h.0, IsPaced-append (after_event p x) es e h.1 d)

after_log-append :
    (p : Phase) (es : List Event) (e : Event)
    → after_log p (es ++ e ∷ []) ≡ after_event (after_log p es) e
unfolding after_log
after_log-append p [] e = refl
after_log-append p (x ∷ es) e = after_log-append (after_event p x) es e

-- The log is paced and ends in the present phase; windows are counted.
pub record Inv (start : Scheduler) (s : Scheduler) : Type 0 where
  pub open_kept : s.open_duration ≡ start.open_duration
  pub closed_kept : s.closed_duration ≡ start.closed_duration
  pub paced : IsPaced start.open_duration start.closed_duration (phase start) s.transitions
  pub current : after_log (phase start) s.transitions ≡ phase s
  pub counted :
      s.total_completed + (if s.natural_open then 1 else 0)
      ≡ s.window_id + (if start.natural_open then 1 else 0)

module _ {start s : Scheduler} (v : Inv start s) where
  -- A log that grows by one entry that is due.
  IsPaced-log :
      (e : Event)
      → IsDue start.open_duration start.closed_duration (phase s) e
      → IsPaced start.open_duration start.closed_duration (phase start) (s.transitions ++ e ∷ [])
  IsPaced-log e d = IsPaced-append _ _ (phase start) s.transitions e v.paced (rw v.current d)

  after_log-log :
      (e : Event) → after_log (phase start) (s.transitions ++ e ∷ []) ≡ after_event (phase s) e
  after_log-log e = rw (after_log-append (phase start) s.transitions e, v.current)

  -- What a call of the callback leaves is in step too.
  pub Agrees-Inv : {s' : Scheduler} → Agrees s s' → Inv start s'
  Agrees-Inv a = record {
    open_kept = a.open_same ∙ v.open_kept;
    closed_kept = a.closed_same ∙ v.closed_kept;
    paced = rw a.log_same v.paced;
    current = ground (arith, a, v.current);
    counted = ground (arith, a, v.counted);
  }

  pub close-Inv :
      (now : ℕ)
      → s.state_start ≤ now
      → s.natural_open ≡ true
      → leb s.open_duration (now - s.state_start) ≡ true
      → Inv start (closed_at now s)
  close-Inv now le open_now due = record {
    open_kept = v.open_kept;
    closed_kept = v.closed_kept;
    paced = ground (arith, v.open_kept, IsPaced-log (window_closed now s.window_id));
    current = ground (arith, after_log-log (window_closed now s.window_id));
    counted = ground (arith, v.counted);
  }

  pub open-Inv :
      (now : ℕ)
      → s.state_start ≤ now
      → s.natural_open ≡ false
      → leb s.closed_duration (now - s.state_start) ≡ true
      → Inv start (opened_at now s)
  open-Inv now le hidden due = record {
    open_kept = v.open_kept;
    closed_kept = v.closed_kept;
    paced = ground (arith, v.closed_kept, IsPaced-log (window_opened now (s.window_id + 1)));
    current = ground (arith, after_log-log (window_opened now (s.window_id + 1)));
    counted = ground (arith, v.counted);
  }

  pub forced-Inv : (d : Option ℕ) (t now : ℕ) → Inv start (forced_at d t now s)
  forced-Inv d t now = record {
    open_kept = v.open_kept;
    closed_kept = v.closed_kept;
    paced = IsPaced-log (force_closed_event now d) tt;
    current = after_log-log (force_closed_event now d);
    counted = v.counted;
  }

  pub cleared-Inv : (now : ℕ) → Inv start (cleared_at now s)
  cleared-Inv now = record {
    open_kept = v.open_kept;
    closed_kept = v.closed_kept;
    paced = IsPaced-log (force_cleared now) tt;
    current = after_log-log (force_cleared now);
    counted = v.counted;
  }

pub initial-Inv :
    (o c : ℕ) (b : Bool) (cb : Option Callback) (now : ℕ)
    → Inv (initial o c b cb now) (initial o c b cb now)
unfolding after_log
initial-Inv o c b cb now = record {
  open_kept = refl;
  closed_kept = refl;
  paced = tt;
  current = refl;
  counted = ground arith;
}
