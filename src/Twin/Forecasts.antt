-- ===== src/Twin/Forecasts.antt =====
-- twin/twin_engine.py: `predict_thermal` and `predict_energy` on a window that is not empty.
use asterion_one.Base.{
  ℕ, ◌*◌, ◌/◌, ◌<◌, ◌≡◌, refl, Option, none, some, List, ◌∷◌, String, get_elem?, get_or, arith,
}
use asterion_one.Base.Assoc.{lookup}
use asterion_one.Floats.{Floats}
use asterion_one.Twin.{Numbers, Config, Frame, Forecast}
use asterion_one.Twin.Physics.{
  full, thermal_step, energy_step, predict_temperatures, predict_charge,
}
use asterion_one.Twin.Engine.{
  Engine, stamps, horizon_steps, lead_time, is_too_hot, is_too_low, mean_power, estimate_power,
  latest, predict_thermal, predict_energy, thermal_metadata, energy_metadata, build_power_profile,
}
use asterion_one.Twin.Breaches.{Describes, make_forecast-Describes}
use asterion_one.Twin.Trajectories.{iterate, euler_follows}

-- The horizon in minutes.
abbrev pub horizon : {F : Type 0} → Config F → Option ℕ → ℕ
horizon cfg horizon_min = get_or horizon_min cfg.horizon_min

-- How many values a forecast has, for a time step that is not 0.
abbrev pub step_count : {F : Type 0} → Config F → Option ℕ → ℕ
step_count cfg horizon_min = horizon cfg horizon_min * 60 / cfg.dt_sec

module _ (fl : Floats) (nm : Numbers fl.Float) (cfg : Config fl.Float) (e : Engine fl.Float)
    (isoformat : ℕ → String) (now : ℕ) (frame : Frame fl.Float) (frames : List (Frame fl.Float))
    (horizon_min : Option ℕ) where
  open fl use {Float, lit}

  abbrev pub current_temp : Float
  current_temp = get_or (lookup "cpu_temp_c" (latest fl nm cfg frame frames)) (lit 600 1)

  abbrev pub current_soc : Float
  current_soc = get_or (lookup "battery_soc" (latest fl nm cfg frame frames)) (lit 8 1)

  -- The power that the forecast assumes throughout: the mean of the last readings, or an estimate
  -- from the load where the latest frame has no reading.
  abbrev mean_or_estimate : Option Float → Float
  mean_or_estimate none =
      estimate_power fl nm cfg
        (get_or (lookup "cpu_usage_pct" (latest fl nm cfg frame frames)) (lit 500 1))
  mean_or_estimate (some power) = mean_power fl nm cfg (frame ∷ frames) power

  abbrev pub heat : Float
  heat = mean_or_estimate (lookup "power_w" (latest fl nm cfg frame frames))

  abbrev pub load : Float
  load =
      mean_power fl nm cfg (frame ∷ frames)
        (get_or (lookup "power_w" (latest fl nm cfg frame frames)) (lit 40 1))

  -- The values are those of a step that is iterated from `x`.
  abbrev pub Follows : (Float → Float) → Float → Forecast Float → Type 0
  Follows step x f =
      (i : ℕ)
      → i < (step_count cfg horizon_min)
      → get_elem? f.predicted_values i ≡ some (iterate i step x)

  abbrev pub times : List String
  times = stamps isoformat now cfg.dt_sec 0 (step_count cfg horizon_min)

  pub steps_lem :
      0 < cfg.dt_sec
      → horizon_steps fl nm cfg (horizon cfg horizon_min) ≡ some (step_count cfg horizon_min)
  steps_lem h = ground arith

  profile-full :
      (power : Option Float) (steps : ℕ)
      → build_power_profile fl nm cfg
          (frame ∷ frames)
          steps
          (get_or (lookup "cpu_usage_pct" (latest fl nm cfg frame frames)) (lit 500 1))
          power
        ≡ full steps (mean_or_estimate power)
  profile-full none steps = refl
  profile-full (some power) steps = refl

  -- Where the time step and the number of steps are positive, the thermal forecast of a window that is not empty
  pub predict_thermal-Describes :
      0 < cfg.dt_sec
      → 0 < (step_count cfg horizon_min)
      → (f : Forecast Float) × (predict_thermal fl nm cfg e isoformat now
            (frame ∷ frames)
            horizon_min
          ≡ some f)
        × Follows (thermal_step fl nm cfg e.thermal cfg.dt_sec heat) current_temp f
        × (f.model_type ≡ "THERMAL")
        × Describes
            (lead_time fl nm cfg)
            (is_too_hot fl nm cfg)
            times
            (step_count cfg horizon_min)
            f
  unfolding predict_thermal predict_temperatures
  predict_thermal-Describes h k =
      let (values, made, n, follows) =
        euler_follows (thermal_step fl nm cfg e.thermal cfg.dt_sec) (step_count cfg horizon_min)
          heat current_temp k in
      let (f, built, same, model, d) =
        make_forecast-Describes fl nm cfg "THERMAL" isoformat now (horizon cfg horizon_min)
          (step_count cfg horizon_min) (is_too_hot fl nm cfg) cfg.threshold_temp_c 4 current_temp
          (thermal_metadata fl nm cfg e.thermal
            (get_or (lookup "cpu_usage_pct" (latest fl nm cfg frame frames)) (lit 500 1))
            (lookup "power_w" (latest fl nm cfg frame frames)))
          values n in
      (
        f,
        rw
            (
              steps_lem h,
              profile-full (lookup "power_w" (latest fl nm cfg frame frames))
                  (step_count cfg horizon_min),
              made,
            )
            built,
        (λ i p. rw same (follows i p)),
        model,
        d,
      )

  pub predict_energy-Describes :
      0 < cfg.dt_sec
      → 0 < (step_count cfg horizon_min)
      → (f : Forecast Float) × (predict_energy fl nm cfg e isoformat now
            (frame ∷ frames)
            horizon_min
          ≡ some f)
        × Follows (energy_step fl nm cfg e.energy cfg.dt_sec load) current_soc f
        × (f.model_type ≡ "ENERGY")
        × Describes
            (lead_time fl nm cfg)
            (is_too_low fl nm cfg)
            times
            (step_count cfg horizon_min)
            f
  unfolding predict_energy predict_charge
  predict_energy-Describes h k =
      let (values, made, n, follows) =
        euler_follows (energy_step fl nm cfg e.energy cfg.dt_sec) (step_count cfg horizon_min) load
          current_soc k in
      let (f, built, same, model, d) =
        make_forecast-Describes fl nm cfg "ENERGY" isoformat now (horizon cfg horizon_min)
          (step_count cfg horizon_min) (is_too_low fl nm cfg) cfg.threshold_soc_low 6 current_soc
          (energy_metadata fl nm cfg e.energy
            (get_or (lookup "power_w" (latest fl nm cfg frame frames)) (lit 40 1)))
          values n in
      (f, rw (steps_lem h, made) built, (λ i p. rw same (follows i p)), model, d)
