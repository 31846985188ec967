-- ===== src/Infra/Spiking.antt =====
-- infra/fault_injector.py: what `thermal-spike` finds.
use asterion_one.Base.{
  ℕ, zero, suc, ◌<◌, ◌≡◌, refl, ◌∙◌, inl, inr, min, Bool, true, some, List, [], ◌∷◌, String, arith,
  Bool-cases,
}
use asterion_one.Models.{boot, nominal, safe}
use asterion_one.Audit.{Platform, Logger}
use asterion_one.Audit.Chain.{Inv}
use asterion_one.Floats.{Floats}
use asterion_one.Sensors.{Hardware, SensorSim, set_override, clear_all_overrides}
use asterion_one.Sensors.Overrides.{length-read_all, cpu_temp-override, tick-set_override}
use asterion_one.Fsw.State.{Config, Core, Input}
use asterion_one.Fsw.Faults.{evaluate_faults, cpu_temp}
use asterion_one.Fsw.{start, start_normal, tick, do_boot, run_self_test}
use asterion_one.Fsw.Changes.{transition_to, save_boot_counter}
use asterion_one.Base.Assoc.{insert}
use asterion_one.Fsw.Transitions.{state-tick}
use asterion_one.Fsw.Trail.{tick-audit, start-audit, tick-IsAudited}
use asterion_one.Infra.Restarts.{is_state, create_fsw}
use asterion_one.Infra.Recovery.{started-boot}
use asterion_one.Infra.Logged.{HasT3, HasT3-IsKept, tick-HasT3, t3_entries-HasT3}
use asterion_one.Infra.Spikes.{
  Clocks, Rig, SpikeReport, input_of, rig_tick, hold, recover, with_override, spiked, up,
  thermal_spike,
}

module _ (p : Platform) (fl : Floats) (hw : Hardware fl.Float) (clocks : ℕ → Clocks) where
  open fl use {Float, lt}

  abbrev Shows : Rig Float → Type 0
  Shows g = HasT3 p g.core.audit

  rig_tick-Shows : (g : Rig Float) → Shows g → Shows (rig_tick p fl hw clocks g)
  unfolding rig_tick
  rig_tick-Shows g v =
      tick-IsAudited p fl (HasT3 p) (HasT3-IsKept p) (input_of p fl hw clocks g) g.core v

  hold-Shows : (n : ℕ) (g : Rig Float) → Shows g → Shows (hold p fl hw clocks n g)
  unfolding hold
  hold-Shows zero g v = v
  hold-Shows (suc n) g v = hold-Shows n _ (rig_tick-Shows g v)

  recover-Shows : (n : ℕ) (g : Rig Float) → Shows g → Shows (recover p fl hw clocks n g).1
  unfolding recover
  recover-Shows zero g v = v
  recover-Shows (suc n) g v =
      let next = rig_tick p fl hw clocks g in
      let w = rig_tick-Shows g v in
      elim (Bool-cases (is_state next.core.state nominal)) [
        | inl e ↦ rw e w
        | inr e ↦ rw e (recover-Shows n next w)
      ]

  -- Nothing that follows the spike takes its entry from the log.
  spiked-passes :
      (duration : ℕ) (g : Rig Float)
      → g.core.state ≡ safe
      → Shows g
      → let r = spiked p fl hw clocks duration g in
        (r.t3_triggered ≡ true) × (0 < r.t3_audit_events) × (r.passed ≡ true)
  spiked-passes duration g down v =
      let held = hold p fl hw clocks (min duration 10) g in
      let counted = t3_entries-HasT3 p _ (
        recover-Shows 100 (record held { sensors = clear_all_overrides fl hw held.sensors })
          (hold-Shows (min duration 10) g v)) in
      (rw down refl, counted, ground (arith, down, counted))

  faults-hot :
      (cfg : Config Float) (x : Float) (g : Rig Float)
      → lt cfg.threshold_temp_warn (cpu_temp fl (input_of p fl hw clocks g).readings) ≡ true
      → (fault : String) × (more : List String) × (evaluate_faults fl cfg
            (input_of p fl hw clocks g).readings
          ≡ fault ∷ more)
  unfolding evaluate_faults
  faults-hot cfg x g hot = rw hot (_, _, refl)

  started-config :
      (config : Config Float) (has_sdnotify : Bool) (now : ℕ) (log : Logger)
      → (start p fl "" (create_fsw p fl config has_sdnotify now log)).config ≡ config
  unfolding start start_normal transition_to save_boot_counter
  started-config config has_sdnotify now log = ground arith

  tick-boot_config :
      (i : Input Float) (c : Core Float) → c.state ≡ boot → (tick p fl i c).config ≡ c.config
  unfolding tick do_boot run_self_test transition_to save_boot_counter
  tick-boot_config i c booting = ground (arith, booting)

  module _ (config : Config Float) (has_sdnotify : Bool) where
    abbrev pub upped : ℕ → Logger → SensorSim Float → Rig Float
    upped = up p fl hw clocks config has_sdnotify

    pub up-nominal :
        (now : ℕ) (log : Logger) (sensors : SensorSim Float)
        → (upped now log sensors).core.state ≡ nominal
    unfolding rig_tick
    up-nominal now log sensors =
        let c = start p fl "" (create_fsw p fl config has_sdnotify now log) in
        let (booting, _, _) = started-boot p fl config has_sdnotify now log in
        state-tick p fl _ c ∙ rw (booting, length-read_all fl hw _ sensors) refl

    up-Inv :
        (now : ℕ) (log : Logger) (sensors : SensorSim Float)
        → Inv p log
        → Inv p (upped now log sensors).core.audit
    unfolding rig_tick
    up-Inv now log sensors v =
        tick-audit p fl _ _ (start-audit p fl "" (create_fsw p fl config has_sdnotify now log) v)

    pub up-config :
        (now : ℕ) (log : Logger) (sensors : SensorSim Float)
        → (upped now log sensors).core.config ≡ config
    unfolding rig_tick
    up-config now log sensors =
        let c = start p fl "" (create_fsw p fl config has_sdnotify now log) in
        let (booting, _, _) = started-boot p fl config has_sdnotify now log in
        tick-boot_config _ c booting ∙ started-config config has_sdnotify now log

    -- The rig with the injected temperature.
    abbrev heated : Float → Rig Float → Rig Float
    heated temp g = record g {
      sensors = record g.sensors {
        overrides = insert "THERMAL" (("cpu_temp_c", temp) ∷ []) g.sensors.overrides;
      };
    }

    with_override-heated :
        (temp : Float) (g : Rig Float)
        → with_override p fl hw clocks "THERMAL" "cpu_temp_c" temp g ≡ some (heated temp g)
    unfolding set_override
    with_override-heated temp g = refl

    -- What the tick on the injected temperature leaves.
    rig_tick-heated :
        (temp : Float) (g : Rig Float)
        → Inv p g.core.audit
        → g.core.state ≡ nominal
        → lt g.core.config.threshold_temp_warn temp ≡ true
        → let after = rig_tick p fl hw clocks (heated temp g) in
          (after.core.state ≡ safe) × Shows after
    unfolding rig_tick set_override
    rig_tick-heated temp g whole n hot =
        let h = heated temp g in
        let cpu =
          cpu_temp-override fl hw (clocks g.core.tick_count).now_read temp g.sensors h.sensors
            refl in
        let (fault, more, faulty) = faults-hot g.core.config temp h (rw cpu hot) in
        (
          (tick-set_override fl hw p (clocks g.core.tick_count).now_read temp g.sensors h.sensors
              (input_of p fl hw clocks h) g.core refl refl n hot).1,
          tick-HasT3 p fl (input_of p fl hw clocks h) g.core fault more n faulty whole,
        )

    -- Where the log is whole, as a new one is, and the temperature is above the threshold, the command
    -- returns a report: the spike has led to SAFE, the log has an entry for it, and the command passes.
    pub thermal_spike-passes :
        (temp : Float) (duration now : ℕ) (log : Logger) (sensors : SensorSim Float)
        → Inv p log
        → lt config.threshold_temp_warn temp ≡ true
        → (r : SpikeReport) × (thermal_spike p fl hw clocks config has_sdnotify temp duration now
              log sensors
            ≡ some r)
          × (r.t3_triggered ≡ true)
          × (0 < r.t3_audit_events)
          × (r.passed ≡ true)
    unfolding thermal_spike
    thermal_spike-passes temp duration now log sensors whole hot =
        let g = upped now log sensors in
        let h = heated temp g in
        let n = up-nominal now log sensors in
        let (down, shows) =
          rig_tick-heated temp g (up-Inv now log sensors whole) n
            (rw (up-config now log sensors) hot) in
        let (triggered, counted, passes) =
          spiked-passes duration (rig_tick p fl hw clocks h) down shows in
        (
          spiked p fl hw clocks duration (rig_tick p fl hw clocks h),
          rw (n, with_override-heated temp g) refl,
          triggered,
          counted,
          passes,
        )
