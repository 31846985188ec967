-- ===== src/Twin/Charge.antt =====
-- twin/twin_engine.py: the predicted charge stays a fraction.
use asterion_one.Base.{
  ℕ, suc, ◌<◌, ◌≡◌, true, false, Option, some, List, ◌∷◌, String, if◌then◌else◌, get_elem?, arith,
}
use asterion_one.Floats.{Floats}
use asterion_one.Twin.{Numbers, Config, Frame, Forecast}
use asterion_one.Twin.Physics.{energy_step}
use asterion_one.Twin.Engine.{Engine, predict_energy}
use asterion_one.Twin.Trajectories.{iterate, iterate-suc}
use asterion_one.Twin.Forecasts.{load, current_soc, step_count, predict_energy-Describes}

module _ (fl : Floats) (nm : Numbers fl.Float) where
  open fl use {Float, lt, lit, lt-irrefl, lt-asymm}
  open nm use {clip}

  -- `np.clip` gives the bound that a value is beyond, and any other value as it is; and 0 is below 1.
  pub record IsClip : Type 0 where
    pub clip_lem :
        (x lo hi : Float) → clip x lo hi ≡ (if lt x lo then lo else if lt hi x then hi else x)
    pub zero_lt_one : lt (lit 0 0) (lit 10 1) ≡ true

  -- Neither below 0 nor above 1.
  abbrev pub IsFraction : Float → Type 0
  IsFraction x = (lt x (lit 0 0) ≡ false) × (lt (lit 10 1) x ≡ false)

  clip-IsFraction : IsClip → (x : Float) → IsFraction (clip x (lit 0 0) (lit 10 1))
  clip-IsFraction c x = rw (c.clip_lem x (lit 0 0) (lit 10 1)) (
      ground (
        arith,
        c.zero_lt_one,
        lt-irrefl (lit 0 0),
        lt-irrefl (lit 10 1),
        lt-asymm (lit 0 0) (lit 10 1),
      ))

  module _ (cfg : Config fl.Float) (e : Engine fl.Float) (isoformat : ℕ → String) (now : ℕ)
      (frame : Frame fl.Float) (frames : List (Frame fl.Float)) (horizon_min : Option ℕ) where
    -- Where `np.clip` works as documented, every predicted charge after the current one is neither below 0 nor above 1.
    pub predict_energy-IsFraction :
        IsClip
        → 0 < cfg.dt_sec
        → {f : Forecast Float}
        → predict_energy fl nm cfg e isoformat now (frame ∷ frames) horizon_min ≡ some f
        → (i : ℕ) (x : Float) → suc i < step_count cfg horizon_min
        → get_elem? f.predicted_values (suc i) ≡ some x
        → IsFraction x
    predict_energy-IsFraction c h {f} p i x k at =
        let (g, made, follows, _, _) =
          predict_energy-Describes fl nm cfg e isoformat now frame frames horizon_min h
            (omega arith) in
        let same : f ≡ g = ground (arith, made) in
        let held = follows (suc i) k in
        let soc =
          iterate i
            (energy_step fl nm cfg e.energy cfg.dt_sec
              (load fl nm cfg e isoformat now frame frames horizon_min))
            (current_soc fl nm cfg e isoformat now frame frames horizon_min) in
        let next : x
            ≡ energy_step fl nm cfg e.energy cfg.dt_sec
                (load fl nm cfg e isoformat now frame frames horizon_min) soc =
          cc (
            at,
            held,
            same,
            iterate-suc i
                (energy_step fl nm cfg e.energy cfg.dt_sec
                  (load fl nm cfg e isoformat now frame frames horizon_min))
                (current_soc fl nm cfg e isoformat now frame frames horizon_min),
          ) in
        rw next (clip-IsFraction c _)
