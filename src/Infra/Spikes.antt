-- ===== src/Infra/Spikes.antt =====
-- infra/fault_injector.py: `cmd_thermal_spike` and `cmd_power_drop`, on the models of the core and the
-- sensor simulator. The clock readings of a tick are numbered by the ticks before it.
use asterion_one.Base.{
  ℕ, zero, suc, ◌-◌, ltb, min, length, keep, not, Bool, true, false, ◌&&◌, Option, none, some, List,
  [], ◌∷◌, String, str_eq, if◌then◌else◌,
}
use asterion_one.Base.Partial.{◌>>=◌}
use asterion_one.Base.Substring.{contains}
use asterion_one.Models.{FswState, AuditEntry, nominal, safe, critical}
use asterion_one.Audit.{Platform, Logger, get_entries}
use asterion_one.Floats.{Floats}
use asterion_one.Sensors.{
  Hardware, SensorSim, read_all, set_override, clear_all_overrides, update_fsw_state,
}
use asterion_one.Fsw.State.{Config, Core, Input, all_return}
use asterion_one.Fsw.{start, tick}
use asterion_one.Infra.Restarts.{is_state, create_fsw}

-- The readings of the monotonic clock during a tick; `now_read` is the simulator's.
pub record Clocks : Type 0 where
  pub now : ℕ
  pub now_recovery : ℕ
  pub now_emit : ℕ
  pub now_read : ℕ

-- The core with its simulator.
pub record Rig (F : Type 0) : Type 0 where
  pub core : Core F
  pub sensors : SensorSim F

-- The report of `thermal-spike`.
pub record SpikeReport : Type 0 where
  pub t3_triggered : Bool
  pub t3_audit_events : ℕ
  pub recovered_to_nominal : Bool
  pub passed : Bool

abbrev pub is_t3 : AuditEntry → Bool
is_t3 e = contains "T3" e.description && str_eq e.event_type "STATE_TRANSITION"

abbrev pub t3_entries : Logger → List AuditEntry
t3_entries log = keep is_t3 (get_entries none log)

module _ (p : Platform) (fl : Floats) (hw : Hardware fl.Float) (clocks : ℕ → Clocks) where
  open fl use {Float}

  -- Whether the tick reads the sensors: CRITICAL does not, nor SAFE under the rate limit.
  abbrev reads : FswState → ℕ → Core Float → Bool
  reads critical now c = false
  reads safe now c = not (ltb (now - c.last_telem_time) c.config.telemetry_rate_safe)
  reads _ now c = true

  abbrev pub input_of : Rig Float → Input Float
  input_of g =
      let t = clocks g.core.tick_count in
      record {
        readings = (read_all fl hw t.now_read g.sensors).0;
        self_test = all_return;
        now = t.now;
        now_recovery = t.now_recovery;
        now_emit = t.now_emit;
      }

  -- `fsw.tick()`
  unfoldable pub rig_tick : Rig Float → Rig Float
  rig_tick g =
      let t = clocks g.core.tick_count in
      let core = tick p fl (input_of g) g.core in
      let read = (read_all fl hw t.now_read g.sensors).1 in
      record {
        core = core;
        sensors =
            update_fsw_state fl hw core.sensor_state_code
              (if reads g.core.state t.now g.core then read else g.sensors);
      }

  -- `for _ in range(n): fsw.tick()`
  unfoldable pub hold : ℕ → Rig Float → Rig Float
  hold zero g = g
  hold (suc n) g = hold n (rig_tick g)

  -- Ticks until NOMINAL, at most so many.
  unfoldable pub recover : ℕ → Rig Float → Bool × Rig Float
  recover zero g = (false, g)
  recover (suc n) g =
      let next = rig_tick g in
      let rest = recover n next in if is_state next.core.state nominal then (true, next) else rest

  abbrev pub with_override : String → String → Float → Rig Float → Option (Rig Float)
  with_override name metric x g =
      set_override fl hw name ((metric, x) ∷ []) g.sensors >>= λ s. some (record g { sensors = s })

  abbrev pub spiked : ℕ → Rig Float → SpikeReport
  spiked duration g =
      let held = hold (min duration 10) g in
      let (recovered, last) =
        recover 100 (record held { sensors = clear_all_overrides fl hw held.sensors }) in
      let events = length (t3_entries last.core.audit) in
      record {
        t3_triggered = is_state g.core.state safe;
        t3_audit_events = events;
        recovered_to_nominal = recovered;
        passed = is_state g.core.state safe && ltb 0 events;
      }

  module _ (config : Config Float) (has_sdnotify : Bool) where
    -- The core and the simulator after `start` and the first tick.
    abbrev pub up : ℕ → Logger → SensorSim Float → Rig Float
    up now log sensors = rig_tick (record {
      core = start p fl "" (create_fsw p fl config has_sdnotify now log);
      sensors = sensors;
    })

    -- `cmd_thermal_spike`; an assertion that fails raises.
    unfoldable pub thermal_spike : Float → ℕ → ℕ → Logger → SensorSim Float → Option SpikeReport
    thermal_spike temp duration now log sensors =
        let g = up now log sensors in
        let report = with_override "THERMAL" "cpu_temp_c" temp g >>= λ h.
        some (spiked duration (rig_tick h)) in
        if is_state g.core.state nominal then report else none

    -- `cmd_power_drop`: whether the core went to SAFE, which is whether it passes.
    unfoldable pub power_drop : Float → ℕ → Logger → SensorSim Float → Option Bool
    power_drop voltage now log sensors =
        let g = up now log sensors in
        let report = with_override "POWER" "voltage_v" voltage g >>= λ h.
        some (is_state (rig_tick h).core.state safe) in
        if is_state g.core.state nominal then report else none
