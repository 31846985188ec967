-- ===== src/Sensors/Tests.antt =====
-- Runs of the sensor simulator, with readings in hundredths, and its theorems at concrete inputs.
use asterion_one.Base.{ℕ, ◌≡◌, refl, true, false, some, none, [], ◌∷◌}
use asterion_one.Base.Assoc.{Assoc}
use asterion_one.Floats.{hundredths}
use asterion_one.Fsw.State.{Input, all_return}
use asterion_one.Sensors.{Hardware, SensorSim, read_all, set_override}

-- No noise, and no thermometer.
abbrev pub quiet : Hardware ℕ
quiet = record {
  gauss = λ n mean sigma. mean;
  round = λ k x. x;
  abs = λ x. x;
  of_nat = λ n. n;
  seconds = λ n. n;
  measure_temp = λ n. none;
}

abbrev pub sim_with : Assoc (Assoc ℕ) → SensorSim ℕ
sim_with overrides = record {
  use_real_temp = true;
  nominal_temp_c = 5500;
  nominal_voltage_v = 2800;
  nominal_power_w = 400;
  noise_amplitude = 200;
  start_time = 0;
  overrides = overrides;
  battery_soc = 85;
  ws_connected = false;
  msg_queue_depth = 0;
  wd_restarts = 0;
  fsw_state_code = 1;
  draws = 0;
  measurements = 0;
}

abbrev hot : Assoc ℕ
hot = ("cpu_temp_c", 7200) ∷ []

taken :
    set_override hundredths quiet "THERMAL" hot (sim_with [])
    ≡ some (sim_with (("THERMAL", hot) ∷ []))
unfolding set_override
taken = refl

unknown : set_override hundredths quiet "ORBIT" hot (sim_with []) ≡ none
unfolding set_override
unknown = refl

abbrev hot_sim : SensorSim ℕ
hot_sim = sim_with (("THERMAL", hot) ∷ [])

abbrev reading : Input ℕ
reading = record {
  readings = (read_all hundredths quiet 3 hot_sim).0;
  self_test = all_return;
  now = 3;
  now_recovery = 3;
  now_emit = 3;
}
