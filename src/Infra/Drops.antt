-- ===== src/Infra/Drops.antt =====
-- infra/fault_injector.py: what `power-drop` finds.
use asterion_one.Base.{Bool, ℕ, ◌≡◌, refl, true, some, [], ◌∷◌}
use asterion_one.Base.Assoc.{insert}
use asterion_one.Models.{nominal, safe}
use asterion_one.Audit.{Platform, Logger}
use asterion_one.Floats.{Floats}
use asterion_one.Sensors.{Hardware, SensorSim, set_override}
use asterion_one.Sensors.Overrides.{tick-low_voltage}
use asterion_one.Fsw.State.{Config}
use asterion_one.Infra.Spikes.{Clocks, Rig, input_of, rig_tick, with_override, power_drop}
use asterion_one.Infra.Spiking.{upped, up-nominal, up-config}

module _ (p : Platform) (fl : Floats) (hw : Hardware fl.Float) (clocks : ℕ → Clocks)
    (config : Config fl.Float) (has_sdnotify : Bool) where
  open fl use {Float, lt}

  -- The rig with the injected voltage.
  abbrev drained : Float → Rig Float → Rig Float
  drained voltage g = record g {
    sensors = record g.sensors {
      overrides = insert "POWER" (("voltage_v", voltage) ∷ []) g.sensors.overrides;
    };
  }

  with_override-drained :
      (voltage : Float) (g : Rig Float)
      → with_override p fl hw clocks "POWER" "voltage_v" voltage g ≡ some (drained voltage g)
  unfolding set_override
  with_override-drained voltage g = refl

  rig_tick-drained :
      (voltage : Float) (g : Rig Float)
      → g.core.state ≡ nominal
      → lt voltage g.core.config.voltage_min ≡ true
      → (rig_tick p fl hw clocks (drained voltage g)).core.state ≡ safe
  unfolding rig_tick set_override
  rig_tick-drained voltage g n low =
      let h = drained voltage g in
      tick-low_voltage fl hw p (clocks g.core.tick_count).now_read voltage g.sensors h.sensors
        (input_of p fl hw clocks h) g.core refl refl n low

  -- An injected voltage below the minimum leads the core to SAFE, and the command passes.
  power_drop-passes :
      (voltage : Float) (now : ℕ) (log : Logger) (sensors : SensorSim Float)
      → lt voltage config.voltage_min ≡ true
      → power_drop p fl hw clocks config has_sdnotify voltage now log sensors ≡ some true
  unfolding power_drop
  power_drop-passes voltage now log sensors low =
      let g = upped p fl hw clocks config has_sdnotify now log sensors in
      let n = up-nominal p fl hw clocks config has_sdnotify now log sensors in
      let down =
        rig_tick-drained voltage g n
          (rw (up-config p fl hw clocks config has_sdnotify now log sensors) low) in
      simp (n, with_override-drained voltage g, down) refl
