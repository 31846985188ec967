-- ===== src/Twin/Cycles.antt =====
-- twin/twin_api.py: a whole cycle, and the loop of cycles.
use asterion_one.Base.{
  ℕ, suc, ◌+◌, ◌<◌, ◌≡◌, refl, ◌||◌, not, ◌∙◌, inl, inr, Bool, true, false, Option, none, some,
  List, [], ◌∷◌, ◌++◌, arith, if◌then◌else◌, Option-cases, get_or,
}
use asterion_one.Floats.{Floats}
use asterion_one.Twin.{Numbers, Config, Frame, Forecast}
use asterion_one.Twin.Engine.{predict_thermal, predict_energy}
use asterion_one.Twin.Alerts.{Alert, evaluate}
use asterion_one.Twin.Forecasts.{step_count}
use asterion_one.Twin.Raises.{predict_returns}
use asterion_one.Twin.Contents.{
  IsPost, IsReported, IsReport, post_of-IsPost, alert_reports-IsReported,
}
use asterion_one.Twin.Telemetry.{Outside, fetched, merge_telemetry}
use asterion_one.Twin.Api.{
  Post, AlertReport, Orchestrator, post_of, alert_reports, run_cycle, rounds, run_loop, stop,
}

-- The rounds up to the first during which `stop` is called, that one included.
abbrev pub until_stop : List Bool → ℕ
until_stop [] = 0
until_stop (true ∷ flags) = 1
until_stop (false ∷ flags) = suc (until_stop flags)

abbrev pub any : List Bool → Bool
any [] = false
any (flag ∷ flags) = flag || any flags

module _ (fl : Floats) (nm : Numbers fl.Float) (cfg : Config fl.Float) (out : Outside fl.Float)
    (o : Orchestrator fl.Float) where
  open fl use {Float}
  open out use {isoformat, utc_now, hour_utc}

  -- The telemetry of this cycle: no frame where the request fails.
  abbrev pub thermal_window : List (Frame Float)
  thermal_window = get_or (fetched out "THERMAL" o.requests) []

  abbrev pub power_window : List (Frame Float)
  power_window = get_or (fetched out "POWER" (o.requests + 1)) []

  -- The two forecasts that a cycle makes, from the merged window and from the power window.
  abbrev pub IsThermal : Forecast Float → Type 0
  IsThermal f =
      predict_thermal fl nm cfg o.engine isoformat (utc_now (o.readings + 1))
        (merge_telemetry thermal_window power_window) none
      ≡ some f

  abbrev pub IsEnergy : Forecast Float → Type 0
  IsEnergy f =
      predict_energy fl nm cfg o.engine isoformat (utc_now (o.readings + 1 + 1)) power_window none
      ≡ some f

  abbrev pub alert_of : Forecast Float → Option (Alert Float)
  alert_of f = evaluate fl nm cfg hour_utc o.thresholds f

  -- Where the metrics of the telemetry are numbers and a time step and the number of steps are
  -- positive, a cycle makes both forecasts whatever frames the ground answers, a failed request
  -- included, and reports no error. It posts the thermal forecast and then that of energy: each post
  -- has the forecast's contents, is flagged exactly if the forecast has an alert, and has the alert's
  -- rationale then and none otherwise. It reports both forecasts, and each alert with its severity and
  -- lead time, the thermal one first.
  pub run_cycle_lem :
      0 < cfg.dt_sec
      → 0 < step_count cfg none
      → let (r, o') = run_cycle fl nm cfg out o in
        (thermal energy : Forecast Float) × IsThermal thermal
        × IsEnergy energy
        × (r.errors ≡ [])
        × ((first second : Post Float) × (o'.posts ≡ (o.posts ++ first ∷ []) ++ second ∷ [])
            × IsPost fl thermal (alert_of thermal) first
            × IsPost fl energy (alert_of energy) second)
        × ((first second : List (AlertReport Float)) × (r.alerts ≡ first ++ second)
            × IsReported fl "THERMAL" (alert_of thermal) first
            × IsReported fl "ENERGY" (alert_of energy) second)
        × IsReport fl thermal r.thermal
        × IsReport fl energy r.energy
        × (r.cycle ≡ o.cycle_count + 1)
  unfolding run_cycle
  run_cycle_lem h k =
      let (thermal, first) =
        (predict_returns fl nm cfg o.engine isoformat (utc_now (o.readings + 1)) none
          (merge_telemetry thermal_window power_window) h k).0 in
      let (energy, second) =
        (predict_returns fl nm cfg o.engine isoformat (utc_now (o.readings + 1 + 1)) none
          power_window h k).1 in
      (
        thermal,
        energy,
        first,
        second,
        rw (first, second) refl,
        (
          post_of fl nm cfg out thermal (alert_of thermal),
          post_of fl nm cfg out energy (alert_of energy),
          rw (first, second) refl,
          post_of-IsPost fl nm cfg out thermal (alert_of thermal),
          post_of-IsPost fl nm cfg out energy (alert_of energy),
        ),
        (
          alert_reports fl nm cfg out "THERMAL" (alert_of thermal),
          alert_reports fl nm cfg out "ENERGY" (alert_of energy),
          rw (first, second) refl,
          alert_reports-IsReported fl nm cfg out "THERMAL" (alert_of thermal),
          alert_reports-IsReported fl nm cfg out "ENERGY" (alert_of energy),
        ),
        rw (first, second) (refl, refl, refl, refl),
        rw (first, second) (refl, refl, refl, refl),
        rw (first, second) refl,
      )

module _ (fl : Floats) (nm : Numbers fl.Float) (cfg : Config fl.Float)
    (out : Outside fl.Float) where
  open fl use {Float}
  open out use {isoformat, utc_now, hour_utc}

  -- A cycle counts itself and leaves the loop's flag, whatever raises in it.
  run_cycle-counts :
      (o : Orchestrator Float)
      → ((run_cycle fl nm cfg out o).1.cycle_count ≡ o.cycle_count + 1)
        × ((run_cycle fl nm cfg out o).1.running ≡ o.running)
  unfolding run_cycle
  run_cycle-counts o =
      elim (Option-cases (
        predict_thermal fl nm cfg o.engine isoformat (utc_now (o.readings + 1))
          (merge_telemetry (thermal_window fl nm cfg out o) (power_window fl nm cfg out o)) none)) [
            | inl raised ↦ rw raised (refl, refl)
            | inr (_, first) ↦
                elim (Option-cases (
                  predict_energy fl nm cfg o.engine isoformat (utc_now (o.readings + 1 + 1))
                    (power_window fl nm cfg out o) none)) [
                      | inl raised ↦ rw (first, raised) (refl, refl)
                      | inr (_, second) ↦ rw (first, second) (refl, refl)
                    ]
          ]

  abbrev after_round : Bool → Orchestrator Float → Orchestrator Float
  after_round stopped o =
      if stopped
      then stop fl nm cfg out (run_cycle fl nm cfg out o).1
      else (run_cycle fl nm cfg out o).1

  rounds_nil : (o : Orchestrator Float) → rounds fl nm cfg out [] o ≡ o
  unfolding rounds
  rounds_nil o = refl

  rounds_idle :
      (flags : List Bool) (o : Orchestrator Float)
      → o.running ≡ false
      → rounds fl nm cfg out flags o ≡ o
  unfolding rounds
  rounds_idle [] o h = refl
  rounds_idle (flag ∷ flags) o h = simp h

  rounds-cons :
      (flag : Bool) (flags : List Bool) (o : Orchestrator Float)
      → o.running ≡ true
      → rounds fl nm cfg out (flag ∷ flags) o ≡ rounds fl nm cfg out flags (after_round flag o)
  unfolding rounds
  rounds-cons flag flags o h = simp h

  rounds_lem :
      (flags : List Bool) (o : Orchestrator Float)
      → o.running ≡ true
      → ((rounds fl nm cfg out flags o).cycle_count ≡ o.cycle_count + until_stop flags)
        × ((rounds fl nm cfg out flags o).running ≡ not (any flags))
  rounds_lem [] o h = rw (rounds_nil o) (omega arith, h)
  rounds_lem (true ∷ flags) o h =
      rw (rounds-cons true flags o h, rounds_idle flags (after_round true o) refl)
        ((run_cycle-counts o).0, refl)
  rounds_lem (false ∷ flags) o h =
      let (counted, kept) = run_cycle-counts o in
      let (count, flag) = rounds_lem flags (after_round false o) (kept ∙ h) in
      rw (rounds-cons false flags o h) (omega (arith, count, counted), flag)

  -- The loop runs one cycle after another, whatever raises in them, up to and with the first during
  -- which `stop` is called, and no further; its flag tells whether that has happened.
  pub run_loop-stops :
      (flags : List Bool) (o : Orchestrator Float)
      → ((run_loop fl nm cfg out flags o).cycle_count ≡ o.cycle_count + until_stop flags)
        × ((run_loop fl nm cfg out flags o).running ≡ not (any flags))
  unfolding run_loop
  run_loop-stops flags o = rounds_lem flags (record o { running = true }) refl
