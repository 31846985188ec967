-- ===== src/Twin/Engine.antt =====
-- twin/twin_engine.py: `PredictionEngine`, whose methods share the forecast's making. A call that raises is
-- `none`; instants are in microseconds.
use asterion_one.Base.{
  ℕ, zero, suc, ◌+◌, ◌*◌, ◌/◌, ◌==◌, ltb, Bool, true, false, Option, none, some, List, [], ◌∷◌,
  String, if◌then◌else◌, length, get_elem?, last_or, get_or, map,
}
use asterion_one.Base.Assoc.{Assoc, lookup}
use asterion_one.Base.Partial.{◌>>=◌}
use asterion_one.Floats.{Floats}
use asterion_one.Twin.Physics.{
  ThermalModel, EnergyModel, full, given_or, predict_temperatures, predict_charge,
}
use asterion_one.Twin.{Numbers, Config, Frame, Forecast}

pub record Engine (F : Type 0) : Type 0 where
  pub thermal : ThermalModel F
  pub energy : EnergyModel F

-- The first index, counted from `i`, at which the test holds: the `for` loop with its `break`.
unfoldable pub first_index : {A : Type 0} → (A → Bool) → ℕ → List A → Option ℕ
first_index p i [] = none
first_index p i (x ∷ xs) = let rest = first_index p (i + 1) xs in if p x then some i else rest

-- `l[-n:]`
abbrev pub last_items : {A : Type 0} → ℕ → List A → List A
last_items n [] = []
last_items n (x ∷ xs) = let rest = last_items n xs in if ltb (length xs) n then x ∷ xs else rest

-- `(now + timedelta(seconds=i * dt)).isoformat()` for each `i` of a range.
unfoldable pub stamps : (ℕ → String) → ℕ → ℕ → ℕ → ℕ → List String
stamps isoformat now dt i zero = []
stamps isoformat now dt i (suc n) =
    isoformat (now + i * dt * 1_000_000) ∷ stamps isoformat now dt (i + 1) n

module _ (fl : Floats) (nm : Numbers fl.Float) (cfg : Config fl.Float) where
  open fl use {Float, lt, le, add, sub, mul, div, lit}
  open nm use {round, of_nat, is_true, clip}

  -- `(horizon_min * 60) // DT_SEC`, which raises for a step of 0.
  abbrev pub horizon_steps : ℕ → Option ℕ
  horizon_steps horizon = if cfg.dt_sec == 0 then none else some (horizon * 60 / cfg.dt_sec)

  -- `_estimate_power`
  abbrev pub estimate_power : Float → Float
  estimate_power cpu = add cfg.power_base_w (mul cpu cfg.power_per_cpu_pct_w)

  -- `sum(l)`
  abbrev sum_from : Float → List Float → Float
  sum_from acc [] = acc
  sum_from acc (x ∷ xs) = sum_from (add acc x) xs

  -- The mean of the last five readings of "power_w", a frame without one counting as `power`.
  abbrev pub mean_power : List (Frame Float) → Float → Float
  mean_power window power =
      let powers = map (λ t. get_or (lookup "power_w" t.metrics) power) (last_items 5 window) in
      elim powers [
        | [] ↦ power
        | x ∷ xs ↦ div (sum_from (lit 0 0) (x ∷ xs)) (of_nat (length (x ∷ xs)))
      ]

  -- `_build_power_profile`
  abbrev pub build_power_profile : List (Frame Float) → ℕ → Float → Option Float → List Float
  build_power_profile window steps cpu none = full steps (estimate_power cpu)
  build_power_profile window steps cpu (some power) = full steps (mean_power window power)

  -- `_build_load_profile`
  abbrev pub build_load_profile : List (Frame Float) → ℕ → Float → List Float
  build_load_profile window steps power = full steps (mean_power window power)

  -- `_empty_forecast`
  abbrev pub empty_forecast : String → ℕ → ℕ → List String → Forecast Float
  empty_forecast model horizon steps times = record {
    model_type = model;
    horizon_min = horizon;
    timestamps = times;
    predicted_values = full steps (lit 0 0);
    breach_detected = false;
    breach_index = none;
    breach_time = none;
    lead_time_min = none;
    current_value = lit 0 0;
    threshold = lit 0 0;
    rate_per_min = lit 0 0;
    metadata = [];
  }

  -- The mean change per minute; the horizon counts as 1 where it is 0.
  abbrev pub rate_of : ℕ → List Float → Float
  rate_of horizon [] = lit 0 0
  rate_of horizon (x ∷ []) = lit 0 0
  rate_of horizon (x ∷ y ∷ ys) =
      div (sub (last_or y ys) x) (of_nat (if ltb 0 horizon then horizon else 1))

  -- `round(breach_idx * DT_SEC / 60.0, 2)`
  abbrev pub lead_time : ℕ → Float
  lead_time index = round 2 (div (of_nat (index * cfg.dt_sec)) (lit 600 1))

  abbrev pub with_breach_at : ℕ → String → Forecast Float → Forecast Float
  with_breach_at index time forecast = record forecast {
    breach_detected = true;
    breach_index = some index;
    breach_time = some time;
    lead_time_min = some (lead_time index);
  }

  -- The block under `if breach_idx is not None`.
  abbrev pub with_breach : Option ℕ → Forecast Float → Option (Forecast Float)
  with_breach none forecast = some forecast
  with_breach (some index) forecast = do
    time ← get_elem? forecast.timestamps index
    some (with_breach_at index time forecast)

  -- The forecast that both methods build from the predicted values; `breaches` is their test, and
  -- `now` is what they read from the clock.
  abbrev pub make_forecast :
      String
      → (ℕ → String)
      → ℕ
      → ℕ
      → ℕ
      → (Float → Bool)
      → Float
      → ℕ
      → Float
      → Assoc Float
      → List Float
      → Option (Forecast Float)
  make_forecast model isoformat now horizon steps breaches threshold digits current metadata
        values =
      with_breach (first_index breaches 0 values) (record {
        model_type = model;
        horizon_min = horizon;
        timestamps = stamps isoformat now cfg.dt_sec 0 steps;
        predicted_values = values;
        breach_detected = false;
        breach_index = none;
        breach_time = none;
        lead_time_min = none;
        current_value = current;
        threshold = threshold;
        rate_per_min = round digits (rate_of horizon values);
        metadata = metadata;
      })

  -- `window[-1]`, for a window that is not empty
  abbrev pub latest : Frame Float → List (Frame Float) → Assoc Float
  latest frame frames = (last_or frame frames).metrics

  abbrev pub thermal_metadata : ThermalModel Float → Float → Option Float → Assoc Float
  thermal_metadata m cpu power =
      ("cpu_usage_pct", cpu)
      ∷ ("power_w", given_or fl nm cfg power (estimate_power cpu))
      ∷ ("R", m.r)
      ∷ ("C", m.c)
      ∷ ("T_amb", m.t_amb)
      ∷ []

  abbrev pub energy_metadata : EnergyModel Float → Float → Assoc Float
  energy_metadata m power =
      ("power_w", power) ∷ ("charge_w", m.charge_power_w) ∷ ("capacity_wh", m.capacity_wh) ∷ []

  -- The test of the loop that looks for a breach.
  abbrev pub is_too_hot : Float → Bool
  is_too_hot t = le cfg.threshold_temp_c t

  abbrev pub is_too_low : Float → Bool
  is_too_low s = le s cfg.threshold_soc_low

  unfoldable pub predict_thermal :
      Engine Float → (ℕ → String) → ℕ → List (Frame Float) → Option ℕ → Option (Forecast Float)
  unfolding predict_temperatures
  predict_thermal e isoformat now [] horizon_min = do
    let horizon = get_or horizon_min cfg.horizon_min
    steps ← horizon_steps horizon
    some (empty_forecast "THERMAL" horizon steps (stamps isoformat now cfg.dt_sec 0 steps))
  predict_thermal e isoformat now (frame ∷ frames) horizon_min = do
    let horizon = get_or horizon_min cfg.horizon_min
    steps ← horizon_steps horizon
    let temp = get_or (lookup "cpu_temp_c" (latest frame frames)) (lit 600 1)
    let cpu = get_or (lookup "cpu_usage_pct" (latest frame frames)) (lit 500 1)
    let power = lookup "power_w" (latest frame frames)
    let profile = build_power_profile (frame ∷ frames) steps cpu power
    values ← predict_temperatures fl nm cfg e.thermal temp profile steps cfg.dt_sec
    make_forecast "THERMAL" isoformat now horizon steps is_too_hot cfg.threshold_temp_c 4 temp
        (thermal_metadata e.thermal cpu power) values

  unfoldable pub predict_energy :
      Engine Float → (ℕ → String) → ℕ → List (Frame Float) → Option ℕ → Option (Forecast Float)
  unfolding predict_charge
  predict_energy e isoformat now [] horizon_min = do
    let horizon = get_or horizon_min cfg.horizon_min
    steps ← horizon_steps horizon
    some (empty_forecast "ENERGY" horizon steps (stamps isoformat now cfg.dt_sec 0 steps))
  predict_energy e isoformat now (frame ∷ frames) horizon_min = do
    let horizon = get_or horizon_min cfg.horizon_min
    steps ← horizon_steps horizon
    let soc = get_or (lookup "battery_soc" (latest frame frames)) (lit 8 1)
    let power = get_or (lookup "power_w" (latest frame frames)) (lit 40 1)
    let profile = build_load_profile (frame ∷ frames) steps power
    values ← predict_charge fl nm cfg e.energy soc profile steps cfg.dt_sec
    make_forecast "ENERGY" isoformat now horizon steps is_too_low cfg.threshold_soc_low 6 soc
        (energy_metadata e.energy power) values
