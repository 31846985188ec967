-- ===== src/Fsw/Faults.antt =====
-- flight/fsw_core.py: `_evaluate_faults`, and the conditions of `_evaluate_recovery`.
use asterion_one.Base.{Bool, not, ◌&&◌, List, [], ◌∷◌, ◌++◌, String, ◌<>◌, get_or, if◌then◌else◌}
use asterion_one.Base.Assoc.{lookup}
use asterion_one.Floats.{Floats}
use asterion_one.Fsw.State.{Config, Readings}

module _ (fl : Floats) where
  open fl use {Float, lt, le, add, sub, lit, text, fixed}

  -- `sensors.get(subsystem, {}).get(metric, default)`
  abbrev pub metric : String → String → Float → Readings Float → Float
  metric subsystem name default sensors =
      get_or (lookup name (get_or (lookup subsystem sensors) [])) default

  abbrev pub cpu_temp : Readings Float → Float
  cpu_temp = metric "THERMAL" "cpu_temp_c" (lit 0 0)

  abbrev pub voltage : Config Float → Readings Float → Float
  voltage cfg = metric "POWER" "voltage_v" cfg.sensor_nominal_voltage

  abbrev pub battery_soc : Readings Float → Float
  battery_soc = metric "POWER" "battery_soc" (lit 10 1)

  abbrev pub error_rate : Readings Float → Float
  error_rate = metric "COMMS" "error_rate" (lit 0 0)

  abbrev temp_fault : Config Float → Float → String
  temp_fault cfg x =
      "cpu_temp=" <> (fixed 1 x <> ("°C > threshold=" <> (text cfg.threshold_temp_warn <> "°C")))

  abbrev voltage_fault : Config Float → Float → String
  voltage_fault cfg x = "voltage=" <> (fixed 2 x <> ("V < min=" <> (text cfg.voltage_min <> "V")))

  abbrev soc_fault : Config Float → Float → String
  soc_fault cfg x = "battery_soc=" <> (fixed 2 x <> (" < min=" <> text cfg.battery_soc_min))

  abbrev error_fault : Config Float → Float → String
  error_fault cfg x = "error_rate=" <> (fixed 3 x <> (" > max=" <> text cfg.comms_error_rate_max))

  abbrev when : Bool → String → List String
  when b s = if b then s ∷ [] else []

  unfoldable pub evaluate_faults : Config Float → Readings Float → List String
  evaluate_faults cfg r =
      when (lt cfg.threshold_temp_warn (cpu_temp r)) (temp_fault cfg (cpu_temp r))
      ++ (when (lt (voltage cfg r) cfg.voltage_min) (voltage_fault cfg (voltage cfg r))
          ++ (when (lt (battery_soc r) cfg.battery_soc_min) (soc_fault cfg (battery_soc r))
              ++ when (lt cfg.comms_error_rate_max (error_rate r))
                  (error_fault cfg (error_rate r))))

  -- The four tests with hysteresis.
  unfoldable pub conditions_clear : Config Float → Readings Float → Bool
  conditions_clear cfg r =
      not (le (sub cfg.threshold_temp_warn cfg.hysteresis_temp) (cpu_temp r))
      && (not (le (voltage cfg r) (add cfg.voltage_min (lit 1 1)))
          && (not (le (battery_soc r) (add cfg.battery_soc_min (lit 5 2)))
              && not (le (sub cfg.comms_error_rate_max (lit 2 2)) (error_rate r))))

-- `'; '.join(faults)`
abbrev pub joined : List String → String
joined [] = ""
joined (f ∷ []) = f
joined (f ∷ fs) = f <> ("; " <> joined fs)
