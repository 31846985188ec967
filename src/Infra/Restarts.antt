-- ===== src/Infra/Restarts.antt =====
-- infra/fault_injector.py: `cmd_kill_process` and `cmd_cascade_failure`, on the model of the core. The
-- file system takes what is written; the parameters that these commands leave alone are in `config`.
use asterion_one.Base.{
  ℕ, zero, suc, ◌+◌, leb, Bool, true, false, ◌&&◌, Option, none, some, List, [], ◌∷◌, if◌then◌else◌,
}
use asterion_one.Models.{FswState, boot, nominal, safe, critical}
use asterion_one.Audit.{Platform, Logger}
use asterion_one.Floats.{Floats}
use asterion_one.Fsw.State.{Config, Core, Input, new_core, counts, unreadable}
use asterion_one.Fsw.{start, stop, tick}

abbrev pub is_state : FswState → FswState → Bool
is_state boot boot = true
is_state nominal nominal = true
is_state safe safe = true
is_state critical critical = true
is_state s t = false

-- The report of `kill-process`.
pub record KillReport : Type 0 where
  pub fsw_state_after : FswState
  pub wd_restarts : ℕ
  pub passed : Bool

-- An element of `states_after_restart`.
pub record Restart : Type 0 where
  pub restart_num : ℕ
  pub state : FswState
  pub wd_restarts : ℕ

-- The report of `cascade-failure`.
pub record CascadeReport : Type 0 where
  pub max_restarts : ℕ
  pub restarts : List Restart
  pub t6_triggered : Bool
  pub all_safe_before : Bool
  pub passed : Bool

-- `l[:-1]`
abbrev pub all_but_last : List Restart → List Restart
all_but_last [] = []
all_but_last (r ∷ []) = []
all_but_last (r ∷ q ∷ qs) = r ∷ all_but_last (q ∷ qs)

abbrev pub all_in : FswState → List Restart → Bool
all_in s [] = true
all_in s (r ∷ rs) = is_state r.state s && all_in s rs

abbrev pub last_in : FswState → List Restart → Bool
last_in s [] = false
last_in s (r ∷ []) = is_state r.state s
last_in s (r ∷ q ∷ qs) = last_in s (q ∷ qs)

module _ (p : Platform) (fl : Floats) (config : Config fl.Float) (has_sdnotify : Bool) where
  open fl use {Float}

  -- The core that `_create_fsw` makes: a fresh directory, so an empty log and no boot counter.
  abbrev pub create_fsw : ℕ → Logger → Core Float
  create_fsw now log = new_core config log unreadable true has_sdnotify now

  -- The second core of `kill-process`, over the log and the boot counter that the first one left.
  abbrev pub after_kill : ℕ → Core Float → Core Float
  after_kill now c = start p fl "SAFE" (new_core config c.audit c.boot_file true has_sdnotify now)

  -- `cmd_kill_process`, for the input of its one tick and the milliseconds that the recovery takes;
  -- an assertion that fails raises.
  unfoldable pub kill_process : ℕ → Logger → Input Float → ℕ → Option KillReport
  kill_process now log i recovery_ms =
      let ticked = tick p fl i (start p fl "" (create_fsw now log)) in
      let restarted = after_kill now (stop p fl ticked) in
      if is_state ticked.state nominal
      then some (record {
        fsw_state_after = restarted.state;
        wd_restarts = restarted.wd_restarts;
        passed = is_state restarted.state safe && leb recovery_ms 3000;
      })
      else none

  -- The core of one restart of the cascade: the counter is written, and the log is a new file.
  abbrev pub restarted_core : ℕ → ℕ → Logger → ℕ → Core Float
  restarted_core max_restarts now log restart_num = start p fl "SAFE" (
      new_core (record config { max_wd_restarts = max_restarts }) log (counts restart_num) true
        has_sdnotify now)

  -- The loop over `range`, from `restart_num` on.
  unfoldable pub restarts_from : ℕ → ℕ → Logger → ℕ → ℕ → List Restart
  restarts_from max_restarts now log restart_num zero = []
  restarts_from max_restarts now log restart_num (suc rounds) =
      let core = restarted_core max_restarts now log restart_num in
      record { restart_num = restart_num + 1; state = core.state; wd_restarts = core.wd_restarts }
      ∷ restarts_from max_restarts now log (restart_num + 1) rounds

  -- `cmd_cascade_failure`, where `max_restarts` is 3 in the source.
  unfoldable pub cascade_failure : ℕ → ℕ → Logger → CascadeReport
  cascade_failure max_restarts now log =
      let restarts = restarts_from max_restarts now log 0 (max_restarts + 1) in
      record {
        max_restarts = max_restarts;
        restarts = restarts;
        t6_triggered = last_in critical restarts;
        all_safe_before = all_in safe (all_but_last restarts);
        passed = last_in critical restarts && all_in safe (all_but_last restarts);
      }
