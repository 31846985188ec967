-- ===== src/Fsw/Tests.antt =====
-- Runs of the flight software core, with readings in hundredths, and its theorems at concrete inputs.
use asterion_one.Base.{ℕ, ◌+◌, ◌-◌, ◌≤◌, ◌≡◌, refl, ◌↔◌, true, none, [], ◌∷◌}
use asterion_one.Models.{FswState, boot, nominal, safe, critical}
use asterion_one.Audit.{Platform, Logger, read_all}
use asterion_one.Audit.Chain.{Inv}
use asterion_one.Floats.{hundredths}
use asterion_one.Fsw.State.{Config, Readings, Core, Input, all_return, counts, BootFile}
use asterion_one.Fsw.Faults.{evaluate_faults, conditions_clear}
use asterion_one.Fsw.Changes.{transition_to, save_boot_counter}
use asterion_one.Fsw.{
  tick, start, run_loop, do_safe, do_safe_due, evaluate_recovery, emit_telemetry,
}
use asterion_one.Fsw.Hysteresis.{HasMargins, conditions_clear-no_faults}
use asterion_one.Fsw.Transitions.{next_state, state-tick}
use asterion_one.Fsw.Watchdog.{escalates, run_loop-critical_iff}
use asterion_one.Fsw.Stability.{next_history, ClearSince, here, more, recovery_is_stable}
use asterion_one.Fsw.Telemetry.{Sends, tick-sends}

abbrev pub bench : Platform
bench = record {
  sha256 = λ s. s;
  isoformat = λ t. "T";
  utc_now = λ n. 1000 + n;
  str_int = λ n. "N";
}

-- 70 °C, 5 °C, 26.5 V, 0.1, 0.2, 28 V; two seconds of stability and one frame a second.
abbrev pub limits : Config ℕ
limits = record {
  threshold_temp_warn = 7000;
  hysteresis_temp = 500;
  voltage_min = 2650;
  battery_soc_min = 10;
  comms_error_rate_max = 20;
  sensor_nominal_voltage = 2800;
  stability_timer = 2000;
  telemetry_rate_safe = 1000;
  max_wd_restarts = 3;
}

abbrev pub empty_log : Logger
empty_log = record { lines = []; source = "FLIGHT"; prev_hash = "GENESIS"; readings = 0 }

abbrev pub core_in : FswState → BootFile → Core ℕ
core_in s b = record {
  config = limits;
  audit = empty_log;
  state = s;
  prev_state = none;
  running = true;
  tick_count = 0;
  start_time = 0;
  wd_restarts = 0;
  boot_file = b;
  boot_writable = true;
  stability_start = none;
  telem_seq_id = 0;
  last_telem_time = 0;
  has_telemetry_callback = true;
  has_state_callback = true;
  frames = [];
  changes = [];
  last_sensors = [];
  active_faults = [];
  sensor_state_code = 0;
  sensor_wd_restarts = 0;
  has_sdnotify = true;
  notifications = [];
}

abbrev with_temp : ℕ → Readings ℕ
with_temp t =
    ("THERMAL", ("cpu_temp_c", t) ∷ [])
    ∷ ("POWER", [])
    ∷ ("COMMS", [])
    ∷ ("PAYLOAD", [])
    ∷ ("OBC", [])
    ∷ []

abbrev pub at : ℕ → ℕ → Input ℕ
at t now = record {
  readings = with_temp t;
  self_test = all_return;
  now = now;
  now_recovery = now;
  now_emit = now;
}

limits-HasMargins : HasMargins hundredths limits
limits-HasMargins = record {
  temp_margin = refl;
  voltage_margin = refl;
  soc_margin = refl;
  error_margin = refl;
}

conditions_clear-no_faults_example : evaluate_faults hundredths limits (with_temp 6400) ≡ []
unfolding conditions_clear
conditions_clear-no_faults_example =
    conditions_clear-no_faults hundredths limits (with_temp 6400) limits-HasMargins refl

state-tick_example :
    (tick bench hundredths (at 7100 5) (core_in nominal (counts 0))).state
    ≡ next_state hundredths (at 7100 5) (core_in nominal (counts 0))
state-tick_example = state-tick bench hundredths (at 7100 5) (core_in nominal (counts 0))

run_loop-critical_iff_example :
    let c = core_in boot (counts 3) in
    let is = at 3500 10 ∷ [] in
    (((run_loop bench hundredths "SAFE" is c).state ≡ critical)
      ↔ (escalates bench hundredths "SAFE" c ≡ true))
    × (escalates bench hundredths "SAFE" c ≡ true
        → run_loop bench hundredths "SAFE" is c ≡ start bench hundredths "SAFE" c)
run_loop-critical_iff_example =
    run_loop-critical_iff bench hundredths "SAFE" (at 3500 10 ∷ []) (core_in boot (counts 3))

abbrev waiting : Core ℕ
waiting = tick bench hundredths (at 3500 1000) (core_in safe (counts 1))

waiting-state : waiting.state ≡ safe
unfolding tick do_safe do_safe_due evaluate_recovery conditions_clear emit_telemetry
waiting-state = refl

recovered-state : (tick bench hundredths (at 3500 3000) waiting).state ≡ nominal
unfolding tick do_safe do_safe_due evaluate_recovery conditions_clear emit_telemetry transition_to
    save_boot_counter
recovered-state = refl

recovery_is_stable_example :
    (t : ℕ) × (2000 ≤ 3000 - t)
    × ClearSince hundredths limits t (
        next_history hundredths
          (at 3500 3000)
          waiting
          (next_history hundredths (at 3500 1000) (core_in safe (counts 1)) []))
recovery_is_stable_example =
    recovery_is_stable bench hundredths (core_in safe (counts 1)) waiting
      (next_history hundredths (at 3500 1000) (core_in safe (counts 1)) []) (at 3500 3000) refl
      (more (at 3500 1000) here) waiting-state recovered-state

tick-sends_example : Sends bench hundredths (at 3500 5) (core_in nominal (counts 0))
tick-sends_example = tick-sends bench hundredths (at 3500 5) (core_in nominal (counts 0)) refl

pub empty_log-Inv : Inv bench empty_log
unfolding read_all
empty_log-Inv = record { chained = tt; pointed = refl }
