-- ===== src/Twin/Physics.antt =====
-- twin/twin_engine.py: `ThermalModel` and `EnergyModel`, integrated by Euler's method. A call that
-- raises is `none`.
use asterion_one.Base.{
  ℕ, zero, suc, ◌+◌, ◌-◌, Option, none, some, List, [], ◌∷◌, if◌then◌else◌, length, get_elem?,
  get_or, min,
}
use asterion_one.Base.Partial.{◌>>=◌}
use asterion_one.Floats.{Floats}
use asterion_one.Twin.{Numbers, Config}

pub record ThermalModel (F : Type 0) : Type 0 where
  pub r : F
  pub c : F
  pub t_amb : F

pub record EnergyModel (F : Type 0) : Type 0 where
  pub capacity_wh : F
  pub charge_power_w : F
  pub capacity_j : F

-- `np.full(n, x)`, and `[x] * n`
abbrev pub full : {A : Type 0} → ℕ → A → List A
full zero x = []
full (suc n) x = x ∷ full n x

-- `l[min(n, len(l) - 1)]`, which raises for an empty list.
abbrev pub extended : {A : Type 0} → List A → ℕ → Option A
extended l n = get_elem? l (min n (length l - 1))

-- The loop of `predict` from round `n` on: the values after `x`.
unfoldable pub euler_from : {F : Type 0} → (F → F → F) → List F → ℕ → ℕ → F → Option (List F)
euler_from step profile n zero x = some []
euler_from step profile n (suc rounds) x = do
  input ← extended profile n
  rest ← euler_from step profile (n + 1) rounds (step input x)
  some (step input x ∷ rest)

-- `T = np.zeros(steps); T[0] = x`, which raises for no step, and the loop.
unfoldable pub euler : {F : Type 0} → (F → F → F) → List F → ℕ → F → Option (List F)
euler step profile zero x = none
euler step profile (suc rounds) x = do rest ← euler_from step profile 0 rounds x; some (x ∷ rest)

module _ (fl : Floats) (nm : Numbers fl.Float) (cfg : Config fl.Float) where
  open fl use {Float, add, sub, mul, div, lit}
  open nm use {of_nat, is_true, clip}

  -- `x or y`
  abbrev pub float_or : Float → Float → Float
  float_or x y = if is_true x then x else y

  -- `ThermalModel(R, C, T_amb)`
  abbrev pub thermal_model : Option Float → Option Float → Option Float → ThermalModel Float
  thermal_model r c t_amb = record {
    r = get_or r cfg.thermal_r;
    c = get_or c cfg.thermal_c;
    t_amb = get_or t_amb cfg.thermal_t_amb;
  }

  -- One round of `ThermalModel.predict`.
  abbrev pub thermal_step : ThermalModel Float → ℕ → Float → Float → Float
  thermal_step m dt q_in t = add t (div (mul (of_nat dt) (sub q_in (div (sub t m.t_amb) m.r))) m.c)

  unfoldable pub predict_temperatures :
      ThermalModel Float → Float → List Float → ℕ → ℕ → Option (List Float)
  predict_temperatures m current_temp power_profile steps dt =
      euler (thermal_step m dt) power_profile steps current_temp

  abbrev pub given_or : Option Float → Float → Float
  given_or none y = y
  given_or (some x) y = float_or x y

  -- `EnergyModel(capacity_wh, charge_power_w)`, where 0 counts as not given.
  abbrev pub energy_model : Option Float → Option Float → EnergyModel Float
  energy_model capacity charge = record {
    capacity_wh = given_or capacity cfg.battery_capacity_wh;
    charge_power_w = given_or charge cfg.charge_power_w;
    capacity_j = mul (given_or capacity cfg.battery_capacity_wh) (lit 3600 0);
  }

  -- One round of `EnergyModel.predict`.
  abbrev pub energy_step : EnergyModel Float → ℕ → Float → Float → Float
  energy_step m dt load soc =
      clip (add soc (div (mul (of_nat dt) (sub m.charge_power_w load)) m.capacity_j)) (lit 0 0)
        (lit 10 1)

  unfoldable pub predict_charge :
      EnergyModel Float → Float → List Float → ℕ → ℕ → Option (List Float)
  predict_charge m current_soc load_profile steps dt =
      euler (energy_step m dt) load_profile steps current_soc
