-- ===== src/Window/Locked.antt =====
-- flight/window_scheduler.py: the state of `WindowScheduler`, and its mutex as an action.
use asterion_one.Base.{ℕ, Bool, true, false, Option, none, some, List, [], ◌∷◌, ◌++◌}

-- The entries of `_transitions`, each with its time.
pub data Event : Type 0 where
  window_closed window_opened : ℕ → ℕ → Event
  force_closed_event : ℕ → Option ℕ → Event
  force_cleared : ℕ → Event

-- A call of `on_state_change`, and whether the mutex was held when it was made.
pub record Notice : Type 0 where
  pub now_open : Bool
  pub window : ℕ
  pub under_lock : Bool

-- A call that the callback makes of the scheduler in turn, with the clock readings of that call.
pub data Query : Type 0 where
  asks_open : ℕ → Query
  asks_next_open asks_close : ℕ → ℕ → Query
  asks_info : ℕ → ℕ → ℕ → ℕ → Query

-- What the callback asks the scheduler when it is called: for the number of the call, and its arguments.
abbrev pub Callback : Type 0
Callback = ℕ → Bool → ℕ → List Query

pub record Scheduler : Type 0 where
  pub open_duration : ℕ
  pub closed_duration : ℕ
  pub callback : Option Callback
  pub locked : Bool
  pub natural_open : Bool
  pub state_start : ℕ
  pub window_id : ℕ
  pub total_completed : ℕ
  pub forced : Bool
  pub force_until : Option ℕ
  pub transitions : List Event
  pub notices : List Notice

-- `WindowScheduler(open_duration_s, closed_duration_s, start_open, on_state_change)`
abbrev pub initial : ℕ → ℕ → Bool → Option Callback → ℕ → Scheduler
initial open_duration closed_duration start_open callback now = record {
  open_duration = open_duration;
  closed_duration = closed_duration;
  callback = callback;
  locked = false;
  natural_open = start_open;
  state_start = now;
  window_id = 0;
  total_completed = 0;
  forced = false;
  force_until = none;
  transitions = [];
  notices = [];
}

-- `threading.Lock` is not reentrant: a thread that takes it twice waits forever.
pub data Outcome (A : Type 0) : Type 0 where
  returned : A → Scheduler → Outcome A
  blocked : Outcome A

abbrev pub Action : Type 0 → Type 0
Action A = Scheduler → Outcome A

module _ {A : Type 0} where
  abbrev pub pure : A → Action A
  pure a s = returned a s

  abbrev pub gets : (Scheduler → A) → Action A
  gets f s = returned (f s) s

abbrev pub modify : (Scheduler → Scheduler) → Action (Unit {0})
modify f s = returned tt (f s)

infixl 5 ◌>>=◌ ◌>>◌
abbrev pub ◌>>=◌ : {A B : Type 0} → Action A → (A → Action B) → Action B
◌>>=◌ m f s = elim (m s) [ returned a s' ↦ f a s' | blocked ↦ blocked ]

abbrev pub ◌>>◌ : {A B : Type 0} → Action A → Action B → Action B
m >> k = m >>= λ _. k

abbrev pub acquire : Action (Unit {0})
acquire s = elim s.locked [ true ↦ blocked | false ↦ returned tt (record s { locked = true }) ]

abbrev pub release : Action (Unit {0})
release = modify λ s. record s { locked = false }

-- `with self._lock:`
abbrev pub with_lock : {A : Type 0} → Action A → Action A
with_lock body = do acquire; a ← body; release; pure a

-- A call of `on_state_change` is recorded.
abbrev pub noted : Bool → Scheduler → Scheduler
noted now_open s = record s {
  notices =
      s.notices ++ record { now_open = now_open; window = s.window_id; under_lock = s.locked } ∷ [];
}

-- What the callback, where there is one, asks at a call.
abbrev pub reaction : Option Callback → ℕ → Bool → ℕ → List Query
reaction none n now_open window = []
reaction (some f) n now_open window = f n now_open window

abbrev pub record_event : Event → Action (Unit {0})
record_event e = modify λ s. record s { transitions = s.transitions ++ e ∷ [] }
