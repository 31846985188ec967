-- ===== src/Fsw/State.antt =====
-- flight/config.py and flight/fsw_core.py: the parameters that the core reads, and its state. Clock
-- values and durations are in nanoseconds; sensor values are floats.
use asterion_one.Base.{ℕ, Bool, false, Option, none, List, [], String}
use asterion_one.Base.Assoc.{Assoc}
use asterion_one.Models.{FswState, boot}
use asterion_one.Audit.{Logger}

pub record Config (F : Type 0) : Type 0 where
  pub threshold_temp_warn : F
  pub hysteresis_temp : F
  pub voltage_min : F
  pub battery_soc_min : F
  pub comms_error_rate_max : F
  pub sensor_nominal_voltage : F
  pub stability_timer : ℕ
  pub telemetry_rate_safe : ℕ
  pub max_wd_restarts : ℕ

-- `Dict[str, Dict[str, float]]`
abbrev pub Readings : Type 0 → Type 0
Readings F = Assoc (Assoc F)

pub record TelemetryFrame (F : Type 0) : Type 0 where
  pub seq_id : ℕ
  pub timestamp : ℕ
  pub fsw_state : FswState
  pub subsystems : Readings F

-- /tmp/asterion_boot_counter: absent or not a number, or a count.
pub data BootFile : Type 0 where
  unreadable : BootFile
  counts : ℕ → BootFile

-- The messages to the service manager.
pub data Notification : Type 0 where
  ready watchdog : Notification

-- `frames` and `changes` are the calls of the two callbacks, where they are registered.
pub record Core (F : Type 0) : Type 0 where
  pub config : Config F
  pub audit : Logger
  pub state : FswState
  pub prev_state : Option FswState
  pub running : Bool
  pub tick_count : ℕ
  pub start_time : ℕ
  pub wd_restarts : ℕ
  pub boot_file : BootFile
  pub boot_writable : Bool
  pub stability_start : Option ℕ
  pub telem_seq_id : ℕ
  pub last_telem_time : ℕ
  pub has_telemetry_callback : Bool
  pub has_state_callback : Bool
  pub frames : List (TelemetryFrame F)
  pub changes : List (FswState × FswState)
  pub last_sensors : Readings F
  pub active_faults : List String
  pub sensor_state_code : ℕ
  pub sensor_wd_restarts : ℕ
  pub has_sdnotify : Bool
  pub notifications : List Notification

-- Which call of the boot self-test raises an exception, if any.
pub data SelfTest : Type 0 where
  all_return sensors_raise audit_raises queue_raises : SelfTest

-- What a tick takes from outside: the sensor readings, the self-test's luck, and the readings of
-- `time.monotonic()` for the rate limit or the uptime, the stability timer and the telemetry.
pub record Input (F : Type 0) : Type 0 where
  pub readings : Readings F
  pub self_test : SelfTest
  pub now : ℕ
  pub now_recovery : ℕ
  pub now_emit : ℕ

-- `FswCore(config)`: the log and the boot counter's file are what is on disk, and the service manager's
-- library may be missing.
abbrev pub new_core : {F : Type 0} → Config F → Logger → BootFile → Bool → Bool → ℕ → Core F
new_core config audit boot_file boot_writable has_sdnotify now = record {
  config = config;
  audit = audit;
  state = boot;
  prev_state = none;
  running = false;
  tick_count = 0;
  start_time = now;
  wd_restarts = 0;
  boot_file = boot_file;
  boot_writable = boot_writable;
  stability_start = none;
  telem_seq_id = 0;
  last_telem_time = 0;
  has_telemetry_callback = false;
  has_state_callback = false;
  frames = [];
  changes = [];
  last_sensors = [];
  active_faults = [];
  sensor_state_code = 0;
  sensor_wd_restarts = 0;
  has_sdnotify = has_sdnotify;
  notifications = [];
}
