-- ===== src/Fsw.antt =====
-- flight/fsw_core.py: the four-state machine of `FswCore`. A method returns the new state of the
-- core; what it hands to a callback, the service manager or the boot counter's file is in the state.
-- The log file and the directory take what is written to them, but for the self-test, where the
-- input says which call raises.
pub mod State
pub mod Faults
pub mod Changes
pub mod Hysteresis
pub mod Live
pub mod Transitions
pub mod Watchdog
pub mod Stability
pub mod Telemetry
pub mod Trail
pub mod Tests
use asterion_one.Base.{
  ℕ, ◌+◌, ◌-◌, Bool, true, false, not, ◌&&◌, Option, none, some, List, [], ◌∷◌, ◌++◌, String, ◌<>◌,
  str_eq, ltb, leb, ◌==◌, length, if◌then◌else◌,
}
use asterion_one.Json.{Fields, end, field, num, text}
use asterion_one.Models.{FswState, Severity, boot, nominal, safe, critical, state_value}
use asterion_one.Audit.{Platform, log, read_clock}
use asterion_one.Floats.{Floats}
use asterion_one.Fsw.State.{
  Config, Readings, TelemetryFrame, BootFile, unreadable, counts, Notification, ready, watchdog,
  Core, SelfTest, all_return, sensors_raise, audit_raises, queue_raises, Input,
}
use asterion_one.Fsw.Changes.{
  state_code, transition_code, transition_severity, boot_count, audited, load_boot_counter,
  save_boot_counter, transition_text, transition_to, notified,
}
use asterion_one.Fsw.Faults.{evaluate_faults, conditions_clear, joined}

module _ (p : Platform) (fl : Floats) where
  open fl use {Float}

  -- `start` under `RECOVERY_MODE=SAFE`, on the number of restarts.
  unfoldable pub start_recovery : ℕ → Core Float → Core Float
  start_recovery restarts c =
      let saved = save_boot_counter p fl restarts (record c { wd_restarts = restarts }) in
      let escalated =
        transition_to p fl critical
          ("Watchdog escalation: "
            <> (p.str_int restarts
                <> (" consecutive restarts > " <> p.str_int c.config.max_wd_restarts)))
          saved in
      let recovering =
        transition_to p fl safe ("Watchdog recovery (restart #" <> (p.str_int restarts <> ")"))
          saved in
      if ltb c.config.max_wd_restarts restarts
      then record escalated { running = false }
      else notified p fl ready (record recovering { sensor_wd_restarts = restarts; running = true })

  unfoldable pub start_normal : Core Float → Core Float
  start_normal c =
      notified p fl ready
        (record (transition_to p fl boot "System boot initiated"
          (record (save_boot_counter p fl 0 c) { wd_restarts = 0 })) { running = true })

  -- `start`, on the value of the environment variable `RECOVERY_MODE`.
  unfoldable pub start : String → Core Float → Core Float
  start recovery_mode c =
      if str_eq recovery_mode "SAFE"
      then start_recovery (load_boot_counter p fl c + 1) c
      else start_normal c

  unfoldable pub stop : Core Float → Core Float
  stop c = record c { running = false }

  abbrev self_test_logged : Core Float → Core Float
  self_test_logged = audited p fl "SELF_TEST" Severity.info "BOOT self-test: starting checks" end

  abbrev pub self_test_calls : SelfTest → Core Float → Bool × Core Float
  self_test_calls audit_raises c = (false, c)
  self_test_calls queue_raises c = (false, self_test_logged c)
  self_test_calls _ c = (true, self_test_logged c)

  -- `_run_self_test`: five subsystems must respond.
  abbrev pub self_test_from : SelfTest → Readings Float → Core Float → Bool × Core Float
  self_test_from sensors_raise r c = (false, c)
  self_test_from t r c = if length r == 5 then self_test_calls t c else (false, c)

  unfoldable pub run_self_test : Input Float → Core Float → Bool × Core Float
  run_self_test i c = self_test_from i.self_test i.readings c

  unfoldable pub do_boot : Input Float → Core Float → Core Float
  do_boot i c =
      let (passed, tested) = run_self_test i c in
      if passed
      then record (save_boot_counter p fl 0
          (transition_to p fl nominal "Self-test passed, entering NOMINAL" tested)) {
            wd_restarts = 0;
          }
      else transition_to p fl safe "Self-test failed, entering SAFE" tested

  -- The frame's timestamp is one more reading of the wall clock.
  abbrev pub next_frame : Readings Float → Core Float → TelemetryFrame Float
  next_frame r c = record {
    seq_id = c.telem_seq_id + 1;
    timestamp = p.utc_now c.audit.readings;
    fsw_state = c.state;
    subsystems = r;
  }

  unfoldable pub emit_telemetry : Readings Float → ℕ → Core Float → Core Float
  emit_telemetry r now c = record c {
    telem_seq_id = c.telem_seq_id + 1;
    last_telem_time = now;
    audit = read_clock c.audit;
    frames = if c.has_telemetry_callback then c.frames ++ next_frame r c ∷ [] else c.frames;
  }

  abbrev pub on_faults : List String → Input Float → Core Float → Core Float
  on_faults [] i c = emit_telemetry i.readings i.now_emit c
  on_faults (f ∷ fs) i c =
      transition_to p fl safe ("Fault detected: " <> joined (f ∷ fs))
        (record c { active_faults = f ∷ fs })

  unfoldable pub do_nominal : Input Float → Core Float → Core Float
  do_nominal i c =
      let read = record c { last_sensors = i.readings } in
      on_faults (evaluate_faults fl c.config i.readings) i read

  abbrev pub timer_step : Option ℕ → ℕ → Core Float → Bool × Core Float
  timer_step none now c = (false, record c { stability_start = some now })
  timer_step (some since) now c = (leb c.config.stability_timer (now - since), c)

  unfoldable pub evaluate_recovery : Readings Float → ℕ → Core Float → Bool × Core Float
  evaluate_recovery r now c =
      if conditions_clear fl c.config r
      then timer_step c.stability_start now c
      else (false, record c { stability_start = none })

  abbrev recovered : Core Float → Core Float
  recovered c =
      record (save_boot_counter p fl 0 (
        transition_to p fl nominal "All faults cleared, stability timer expired"
          (record c { active_faults = []; stability_start = none }))) { wd_restarts = 0 }

  abbrev pub after_recovery : Bool × Core Float → Input Float → Core Float
  after_recovery (true, c) i = recovered c
  after_recovery (false, c) i = emit_telemetry i.readings i.now_emit c

  -- `_do_safe` past the rate limit.
  unfoldable pub do_safe_due : Input Float → Core Float → Core Float
  do_safe_due i c =
      let read = record c { last_sensors = i.readings } in
      if ltb c.config.max_wd_restarts c.wd_restarts
      then transition_to p fl critical
          ("Escalation: "
            <> (p.str_int c.wd_restarts
                <> (" WD restarts > " <> p.str_int c.config.max_wd_restarts)))
          read
      else after_recovery (evaluate_recovery i.readings i.now_recovery read) i

  unfoldable pub do_safe : Input Float → Core Float → Core Float
  do_safe i c =
      if ltb (i.now - c.last_telem_time) c.config.telemetry_rate_safe then c else do_safe_due i c

  -- The uptime in the metadata is in nanoseconds.
  unfoldable pub do_critical : Input Float → Core Float → Core Float
  do_critical i c =
      if c.running
      then record (audited p fl "CRITICAL_HALT" Severity.critical
          "FSW in CRITICAL state — operations ceased"
          (field "wd_restarts" (num c.wd_restarts)
            (field "uptime_s" (num (i.now - c.start_time)) end))
          c) { running = false }
      else c

  abbrev pub dispatch : FswState → Input Float → Core Float → Core Float
  dispatch boot i c = do_boot i c
  dispatch nominal i c = do_nominal i c
  dispatch safe i c = do_safe i c
  dispatch critical i c = do_critical i c

  abbrev pub watched : FswState → Core Float → Core Float
  watched critical c = c
  watched _ c = notified p fl watchdog c

  unfoldable pub tick : Input Float → Core Float → Core Float
  tick i c =
      let done = dispatch c.state i (record c { tick_count = c.tick_count + 1 }) in
      watched done.state (record done { sensor_state_code = state_code done.state })

  -- The ticks of `run_loop` after `start`: one for each input, while the core is running.
  unfoldable pub run_ticks : List (Input Float) → Core Float → Core Float
  run_ticks [] c = c
  run_ticks (i ∷ is) c = let rest = run_ticks is (tick i c) in if c.running then rest else c

  -- `run_loop`, where `stop` is not called.
  unfoldable pub run_loop : String → List (Input Float) → Core Float → Core Float
  run_loop recovery_mode is c = run_ticks is (start recovery_mode c)
