-- ===== src/Twin/Raises.antt =====
-- twin/twin_engine.py: when a prediction raises.
use asterion_one.Base.{
  ℕ, ◌<◌, ◌≡◌, ◌≢◌, ◌⊎◌, ◌↔◌, inl, inr, refl, Option, none, some, List, [], ◌∷◌, String, length,
  arith,
}
use asterion_one.Floats.{Floats}
use asterion_one.Twin.{Numbers, Config, Frame, Forecast}
use asterion_one.Twin.Physics.{euler, predict_temperatures, predict_charge}
use asterion_one.Twin.Engine.{Engine, horizon_steps, predict_thermal, predict_energy}
use asterion_one.Twin.Forecasts.{
  horizon, steps_lem, step_count, predict_energy-Describes, predict_thermal-Describes,
}

-- No time step, or no room for one.
abbrev pub Raises : {F : Type 0} → Config F → List (Frame F) → Option ℕ → Type 0
Raises cfg window horizon_min =
    (cfg.dt_sec ≡ 0) ⊎ ((0 < length window) × (step_count cfg horizon_min ≡ 0))

module _ (fl : Floats) (nm : Numbers fl.Float) (cfg : Config fl.Float) (e : Engine fl.Float)
    (isoformat : ℕ → String) (now : ℕ) (horizon_min : Option ℕ) where
  open fl use {Float}

  abbrev thermal : List (Frame Float) → Option (Forecast Float)
  thermal window = predict_thermal fl nm cfg e isoformat now window horizon_min

  abbrev energy : List (Frame Float) → Option (Forecast Float)
  energy window = predict_energy fl nm cfg e isoformat now window horizon_min

  without_time_step :
      (window : List (Frame Float))
      → cfg.dt_sec ≡ 0
      → (thermal window ≡ none) × (energy window ≡ none)
  unfolding predict_thermal predict_energy
  without_time_step [] h =
      let steps : horizon_steps fl nm cfg (horizon cfg horizon_min) ≡ none = ground arith in
      rw steps (refl, refl)
  without_time_step (frame ∷ frames) h =
      let steps : horizon_steps fl nm cfg (horizon cfg horizon_min) ≡ none = ground arith in
      rw steps (refl, refl)

  without_room :
      (frame : Frame Float) (frames : List (Frame Float))
      → 0 < cfg.dt_sec
      → step_count cfg horizon_min ≡ 0
      → (thermal (frame ∷ frames) ≡ none) × (energy (frame ∷ frames) ≡ none)
  unfolding predict_thermal predict_energy predict_temperatures predict_charge euler
  without_room frame frames h k =
      rw (steps_lem fl nm cfg e isoformat now frame frames horizon_min h, k) (refl, refl)

  returns_on_empty : 0 < cfg.dt_sec → (thermal [] ≢ none) × (energy [] ≢ none)
  unfolding predict_thermal predict_energy
  returns_on_empty h =
      let steps : horizon_steps fl nm cfg (horizon cfg horizon_min)
          ≡ some (step_count cfg horizon_min) =
        ground arith in
      rw steps (ground arith)

  -- A prediction raises exactly when the time step is 0, or the window is not empty and the horizon is shorter than one time step; the thermal one and the energy one alike.
  pub predict-eq-none :
      (window : List (Frame Float))
      → ((predict_thermal fl nm cfg e isoformat now window horizon_min ≡ none)
          ↔ Raises cfg window horizon_min)
        × ((predict_energy fl nm cfg e isoformat now window horizon_min ≡ none)
            ↔ Raises cfg window horizon_min)
  predict-eq-none [] = ground (arith, without_time_step [], returns_on_empty)
  predict-eq-none (frame ∷ frames) = ground (
    arith,
    without_time_step (frame ∷ frames),
    without_room frame frames,
    predict_thermal-Describes fl nm cfg e isoformat now frame frames horizon_min,
    predict_energy-Describes fl nm cfg e isoformat now frame frames horizon_min,
  )

  -- Otherwise it returns.
  pub predict_returns :
      (window : List (Frame Float))
      → 0 < cfg.dt_sec
      → 0 < step_count cfg horizon_min
      → ((f : Forecast Float) × (thermal window ≡ some f))
        × ((f : Forecast Float) × (energy window ≡ some f))
  predict_returns window h k = (
    returned (thermal window) (λ e. not_raised ((predict-eq-none window).0.0 e)),
    returned (energy window) (λ e. not_raised ((predict-eq-none window).1.0 e)),
  )
    where
      returned : (o : Option (Forecast Float)) → (o ≢ none) → (f : Forecast Float) × (o ≡ some f)
      returned none n = absurd (n refl)
      returned (some f) n = (f, refl)

      not_raised : Raises cfg window horizon_min → ⊥
      not_raised (inl zero_step) = omega arith
      not_raised (inr (_, no_room)) = omega arith
