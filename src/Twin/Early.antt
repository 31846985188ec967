-- ===== src/Twin/Early.antt =====
-- twin: the prediction and the evaluation together, against the trajectory of the physical model.
use asterion_one.Base.{
  ℕ, suc, ◌+◌, ◌*◌, ◌<◌, ◌≡◌, ◌∙◌, Bool, Option, none, some, List, ◌∷◌, String, get_elem?, arith,
}
use asterion_one.Floats.{Floats}
use asterion_one.Twin.{Numbers, Config, Frame, Forecast}
use asterion_one.Twin.Physics.{thermal_step, energy_step}
use asterion_one.Twin.Engine.{
  Engine, stamps, lead_time, is_too_hot, is_too_low, predict_thermal, predict_energy,
}
use asterion_one.Twin.Alerts.{Thresholds, Alert, evaluate}
use asterion_one.Twin.Breaches.{
  Describes, Crosses, IsFirst-Crosses, Crosses-IsFirst, get_elem?-stamps, IsFirst-lt,
}
use asterion_one.Twin.Trajectories.{iterate}
use asterion_one.Twin.Forecasts.{
  step_count, current_temp, current_soc, heat, load, predict_thermal-Describes,
  predict_energy-Describes,
}
use asterion_one.Twin.Warnings.{HasLeads, evaluate_later, evaluate_otherwise}

module _ (fl : Floats) (nm : Numbers fl.Float) (cfg : Config fl.Float)
    (hour_utc : String → Option String) (t : Thresholds fl.Float) (isoformat : ℕ → String) (now : ℕ)
    (horizon_min : Option ℕ) where
  open fl use {Float, le}

  abbrev lead : ℕ → Float
  lead = lead_time fl nm cfg

  -- The alert is given for the step that first passes the test after the start, with its time and lead;
  -- if there is none within the horizon, no alert is given.
  pub record IsEarly (breaches : Float → Bool) (path : ℕ → Float) (f : Forecast Float)
      : Type 0 where
    pub warned :
        (i : ℕ)
        → suc i < step_count cfg horizon_min
        → Crosses breaches path (suc i)
        → (a : Alert Float) × (evaluate fl nm cfg hour_utc t f ≡ some a)
          × (a.breach_time ≡ some (isoformat (now + suc i * cfg.dt_sec * 1_000_000)))
          × (a.lead_time_min ≡ lead (suc i))
          × (a.meets_requirement ≡ le cfg.min_useful_lead_time_min (lead (suc i)))
    pub silent :
        ((i : ℕ) → suc i < step_count cfg horizon_min → ¬ (Crosses breaches path (suc i)))
        → evaluate fl nm cfg hour_utc t f ≡ none

  early :
      (breaches : Float → Bool) (path : ℕ → Float) (f : Forecast Float)
      → HasLeads fl lead
      → Describes lead breaches
          (stamps isoformat now cfg.dt_sec 0 (step_count cfg horizon_min))
          (step_count cfg horizon_min)
          f
      → ((i : ℕ) → i < step_count cfg horizon_min → get_elem? f.predicted_values i ≡ some (path i))
      → IsEarly breaches path f
  early breaches path f h d follows = record {
    warned = λ i k crosses.
        let (a, made, w) = evaluate_later fl nm cfg hour_utc t lead breaches _ _ f h d i (
          Crosses-IsFirst breaches f.predicted_values path (suc i)
            (λ j l. follows j (omega (arith, d.count))) (omega (arith, d.count)) crosses) in
        let stamp =
          get_elem?-stamps isoformat now cfg.dt_sec 0 (step_count cfg horizon_min) (suc i) k in
        let start : 0 + suc i ≡ suc i = omega arith in
        (a, made, w.time ∙ (rw start at stamp), w.ahead, w.useful);
    silent = λ never. evaluate_otherwise fl nm cfg hour_utc t lead breaches _ _ f h d (λ i first.
        never i (omega (arith, d.count, IsFirst-lt breaches f.predicted_values (suc i) first)) (
          IsFirst-Crosses breaches f.predicted_values path (suc i)
            (λ j l. follows j (omega (arith, d.count))) first));
  }

module _ (fl : Floats) (nm : Numbers fl.Float) (cfg : Config fl.Float)
    (hour_utc : String → Option String) (t : Thresholds fl.Float) (isoformat : ℕ → String) (now : ℕ)
    (horizon_min : Option ℕ) (e : Engine fl.Float) (frame : Frame fl.Float)
    (frames : List (Frame fl.Float)) where
  open fl use {Float}

  -- Where a time step and the horizon's number of steps are positive, and a lead time rounds to 0 only
  -- at index 0, the thermal prediction of a window that is not empty returns. Its forecast gives an
  -- alert, with the time and the lead of the breach, for the first step after the start at which the
  -- temperature that the model reaches, under a constant power, is at the threshold or above, provided
  -- that it was below at every step before, the start included; without such a step there is no alert.
  pub predict_thermal-IsEarly :
      0 < cfg.dt_sec
      → 0 < step_count cfg horizon_min
      → HasLeads fl (lead_time fl nm cfg)
      → (f : Forecast Float) × (predict_thermal fl nm cfg e isoformat now
            (frame ∷ frames)
            horizon_min
          ≡ some f)
        × IsEarly fl nm cfg hour_utc t isoformat now horizon_min
            (is_too_hot fl nm cfg)
            (λ n.
              iterate n
                (thermal_step fl nm cfg e.thermal cfg.dt_sec
                  (heat fl nm cfg e isoformat now frame frames horizon_min))
                (current_temp fl nm cfg e isoformat now frame frames horizon_min))
            f
  predict_thermal-IsEarly h k leads =
      let (f, made, follows, _, d) =
        predict_thermal-Describes fl nm cfg e isoformat now frame frames horizon_min h k in
      (f, made, early fl nm cfg hour_utc t isoformat now horizon_min _ _ f leads d follows)

  -- Under the same conditions the energy prediction of a window that is not empty returns, and gives its
  -- alert for the first step after the start at which the charge that the model reaches, under a
  -- constant load, is at the threshold or below, provided that it was above before.
  pub predict_energy-IsEarly :
      0 < cfg.dt_sec
      → 0 < step_count cfg horizon_min
      → HasLeads fl (lead_time fl nm cfg)
      → (f : Forecast Float) × (predict_energy fl nm cfg e isoformat now
            (frame ∷ frames)
            horizon_min
          ≡ some f)
        × IsEarly fl nm cfg hour_utc t isoformat now horizon_min
            (is_too_low fl nm cfg)
            (λ n.
              iterate n
                (energy_step fl nm cfg e.energy cfg.dt_sec
                  (load fl nm cfg e isoformat now frame frames horizon_min))
                (current_soc fl nm cfg e isoformat now frame frames horizon_min))
            f
  predict_energy-IsEarly h k leads =
      let (f, made, follows, _, d) =
        predict_energy-Describes fl nm cfg e isoformat now frame frames horizon_min h k in
      (f, made, early fl nm cfg hour_utc t isoformat now horizon_min _ _ f leads d follows)
