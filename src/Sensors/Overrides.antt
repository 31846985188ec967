-- ===== src/Sensors/Overrides.antt =====
-- flight/sensor_sim.py with flight/fsw_core.py: what an override does to the readings and the core.
use asterion_one.Base.{
  ℕ, ◌≡◌, refl, sym, ◌∙◌, ap, inl, inr, true, Option, none, some, [], ◌∷◌, String, eq_refl,
  Bool-cases, get_or, length, arith,
}
use asterion_one.Base.Assoc.{Assoc, lookup, lookup-insert, last_value, lookup-update}
use asterion_one.Floats.{Floats}
use asterion_one.Models.{nominal, safe}
use asterion_one.Audit.{Platform}
use asterion_one.Fsw.State.{Config, Core, Input}
use asterion_one.Fsw.Faults.{cpu_temp, voltage, evaluate_faults}
use asterion_one.Fsw.{tick}
use asterion_one.Fsw.Transitions.{next_state, state-tick}
use asterion_one.Sensors.{
  Hardware, SensorSim, subsystem_names, is_subsystem, generate_normal, read_locked, read_each,
  read_all, read_subsystem, set_override,
}

abbrev pub or_else : {A : Type 0} → Option A → Option A → Option A
or_else none b = b
or_else (some a) b = some a

module _ (fl : Floats) (hw : Hardware fl.Float) where
  open fl use {Float, lt, lit}

  override_of : String → Option (SensorSim Float) → Option (Assoc Float)
  override_of name none = none
  override_of name (some s) = lookup name s.overrides

  -- An override that is taken is for a known subsystem and is found again.
  set_override-lookup :
      (name : String) (values : Assoc Float) (s s' : SensorSim Float)
      → set_override fl hw name values s ≡ some s'
      → (is_subsystem name subsystem_names ≡ true) × (lookup name s'.overrides ≡ some values)
  unfolding set_override override_of
  set_override-lookup name values s s' h = elim (Bool-cases (is_subsystem name subsystem_names)) [
    | inr unknown ↦ absurd (ground (arith, h, unknown))
    | inl known ↦ (
      known,
      sym (ap (override_of name) h)
          ∙ rw known (lookup-insert name name values s.overrides ∙ rw (eq_refl name) refl),
    )
  ]

  -- After an override of a subsystem, a reading of it has the override's value in each metric that
  -- the override names, and the value of the simulation in every other.
  pub read_subsystem-set_override :
      (now : ℕ) (name metric : String) (values : Assoc Float) (s s' : SensorSim Float)
      → set_override fl hw name values s ≡ some s'
      → (r : Assoc Float × SensorSim Float) × (read_subsystem fl hw now name s' ≡ some r)
        × (lookup metric r.0
            ≡ last_value metric values (lookup metric (generate_normal fl hw now name s').0))
  unfolding read_subsystem
  read_subsystem-set_override now name metric values s s' h =
      let (known, found) = set_override-lookup name values s s' h in
      (
        read_locked fl hw now name s',
        rw known refl,
        rw found (lookup-update metric (generate_normal fl hw now name s').0 values),
      )

  pub cpu_temp-override :
      (now : ℕ) (x : Float) (s s' : SensorSim Float)
      → set_override fl hw "THERMAL" (("cpu_temp_c", x) ∷ []) s ≡ some s'
      → cpu_temp fl (read_all fl hw now s').0 ≡ x
  unfolding read_all read_each
  cpu_temp-override now x s s' h =
      let (known, found) = set_override-lookup "THERMAL" (("cpu_temp_c", x) ∷ []) s s' h in
      rw found (
        ap (λ o. get_or o (lit 0 0))
          (lookup-update "cpu_temp_c" (generate_normal fl hw now "THERMAL" s').0
            (("cpu_temp_c", x) ∷ [])))

  pub length-read_all : (now : ℕ) (s : SensorSim Float) → length (read_all fl hw now s).0 ≡ 5
  unfolding read_all read_each
  length-read_all now s = refl

  hot-next_state :
      (i : Input Float) (c : Core Float)
      → c.state ≡ nominal
      → lt c.config.threshold_temp_warn (cpu_temp fl i.readings) ≡ true
      → next_state fl i c ≡ safe
  unfolding evaluate_faults
  hot-next_state i c n hot = ground (arith, n, hot)

  -- A processor temperature above the warning threshold that is injected as an override is in the
  -- next reading, which has all five subsystems, and a tick in NOMINAL on it leads to SAFE.
  pub tick-set_override :
      (p : Platform) (now : ℕ) (x : Float) (s s' : SensorSim Float) (i : Input Float)
      (c : Core Float)
      → set_override fl hw "THERMAL" (("cpu_temp_c", x) ∷ []) s ≡ some s'
      → i.readings ≡ (read_all fl hw now s').0
      → c.state ≡ nominal
      → lt c.config.threshold_temp_warn x ≡ true
      → (length i.readings ≡ 5) × ((tick p fl i c).state ≡ safe)
  tick-set_override p now x s s' i c h r n hot = (
    rw r (length-read_all now s'),
    state-tick p fl i c ∙ hot-next_state i c n (rw (r, cpu_temp-override now x s s' h) hot),
  )

  -- The simulation of the temperatures leaves the overrides alone.
  overrides-thermal :
      (now : ℕ) (s : SensorSim Float)
      → (generate_normal fl hw now "THERMAL" s).1.overrides ≡ s.overrides
  unfolding generate_normal
  overrides-thermal now s = elim (Bool-cases s.use_real_temp) [
    | inl e ↦ rw e refl
    | inr e ↦ rw e refl
  ]

  voltage-override :
      (cfg : Config Float) (now : ℕ) (x : Float) (s s' : SensorSim Float)
      → set_override fl hw "POWER" (("voltage_v", x) ∷ []) s ≡ some s'
      → voltage fl cfg (read_all fl hw now s').0 ≡ x
  unfolding read_all read_each
  voltage-override cfg now x s s' h =
      let (_, found) = set_override-lookup "POWER" (("voltage_v", x) ∷ []) s s' h in
      let after = (generate_normal fl hw now "THERMAL" s').1 in
      let found' : lookup "POWER" after.overrides ≡ some (("voltage_v", x) ∷ []) =
        ap (lookup "POWER") (overrides-thermal now s') ∙ found in
      rw found' (
        ap (λ o. get_or o cfg.sensor_nominal_voltage)
          (lookup-update "voltage_v" (generate_normal fl hw now "POWER" after).0
            (("voltage_v", x) ∷ [])))

  low-next_state :
      (i : Input Float) (c : Core Float)
      → c.state ≡ nominal
      → lt (voltage fl c.config i.readings) c.config.voltage_min ≡ true
      → next_state fl i c ≡ safe
  unfolding evaluate_faults
  low-next_state i c n low = ground (arith, n, low)

  -- A supply voltage below the minimum that is injected as an override leads a tick in NOMINAL to SAFE.
  pub tick-low_voltage :
      (p : Platform) (now : ℕ) (x : Float) (s s' : SensorSim Float) (i : Input Float)
      (c : Core Float)
      → set_override fl hw "POWER" (("voltage_v", x) ∷ []) s ≡ some s'
      → i.readings ≡ (read_all fl hw now s').0
      → c.state ≡ nominal
      → lt x c.config.voltage_min ≡ true
      → (tick p fl i c).state ≡ safe
  tick-low_voltage p now x s s' i c h r n low =
      state-tick p fl i c
      ∙ low-next_state i c n (rw (r, voltage-override c.config now x s s' h) low)
