-- ===== src/Fsw/Hysteresis.antt =====
-- flight/fsw_core.py: the recovery conditions against the fault conditions.
use asterion_one.Base.{◌≡◌, true, [], arith}
use asterion_one.Floats.{Floats}
use asterion_one.Fsw.State.{Config, Readings}
use asterion_one.Fsw.Faults.{
  evaluate_faults, conditions_clear, cpu_temp, voltage, battery_soc, error_rate,
}

module _ (fl : Floats) where
  open fl use {Float, lt, le, add, sub, lit, le_of_lt, le-trans}

  -- The hysteresis margins point the right way: rounding is monotone, so a margin that is not
  -- negative moves a finite threshold by nothing or the right way.
  pub record HasMargins (cfg : Config Float) : Type 0 where
    pub temp_margin :
        le (sub cfg.threshold_temp_warn cfg.hysteresis_temp) cfg.threshold_temp_warn ≡ true
    pub voltage_margin : le cfg.voltage_min (add cfg.voltage_min (lit 1 1)) ≡ true
    pub soc_margin : le cfg.battery_soc_min (add cfg.battery_soc_min (lit 5 2)) ≡ true
    pub error_margin : le (sub cfg.comms_error_rate_max (lit 2 2)) cfg.comms_error_rate_max ≡ true

  le_of_le_lt : (a b c : Float) → le a b ≡ true → lt b c ≡ true → le a c ≡ true
  le_of_le_lt a b c h k = le-trans a b c h (le_of_lt b c k)

  le_of_lt_le : (a b c : Float) → lt a b ≡ true → le b c ≡ true → le a c ≡ true
  le_of_lt_le a b c h k = le-trans a b c (le_of_lt a b h) k

  -- Where the margins point the right way, a reading that counts as recovered, with hysteresis, raises
  -- none of the four faults.
  pub conditions_clear-no_faults :
      (cfg : Config Float) (r : Readings Float)
      → HasMargins cfg
      → conditions_clear fl cfg r ≡ true
      → evaluate_faults fl cfg r ≡ []
  unfolding conditions_clear evaluate_faults
  conditions_clear-no_faults cfg r m h = ground (
    arith,
    m.temp_margin,
    m.voltage_margin,
    m.soc_margin,
    m.error_margin,
    le_of_le_lt (sub cfg.threshold_temp_warn cfg.hysteresis_temp) cfg.threshold_temp_warn
        (cpu_temp fl r),
    le_of_lt_le (voltage fl cfg r) cfg.voltage_min (add cfg.voltage_min (lit 1 1)),
    le_of_lt_le (battery_soc fl r) cfg.battery_soc_min (add cfg.battery_soc_min (lit 5 2)),
    le_of_le_lt (sub cfg.comms_error_rate_max (lit 2 2)) cfg.comms_error_rate_max (error_rate fl r),
  )
