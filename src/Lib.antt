-- ===== src/Lib.antt =====
-- Asterion One: a mission system of a flight segment (flight/), which talks to the ground segment
-- (ground/, JavaScript) over a link that is open only in contact windows, a digital twin (twin/) on the
-- ground, which predicts from the telemetry, and fault-injection scripts (infra/).
--
-- The flight process has these parts, all under flight/:
--   - fsw_core.py, the core: `FswCore.tick` runs one step of the state machine BOOT, NOMINAL, SAFE,
--     CRITICAL on the sensors' readings, writes its transitions to the audit log, keeps the count of
--     watchdog restarts in a file, and hands telemetry frames to a callback;
--   - comms_client.py: `CommsClient` gives every message a number and sends it over a transport, or
--     stores it in the disk queue; acknowledgements from the ground empty the queue, and a new
--     connection replays it; a plan from the ground goes to the executor;
--   - disk_queue.py: `DiskQueue`, one file per message, named by its number;
--   - cmd_executor.py: `CmdExecutor` runs a plan's commands if the core is in NOMINAL and the plan's
--     key and signature are good, which crypto_verifier.py decides;
--   - audit_logger.py: `AuditLogger`, a log whose entries are chained by their hashes;
--   - sensor_sim.py: `SensorSim`, synthetic readings with overrides for fault injection;
--   - window_scheduler.py: `WindowScheduler`, the cycle of contact windows with forced closures;
--   - config.py: `FswConfig`, its defaults and what the environment overrides;
--   - __main__.py: the process, which wires the core, the client and the executor together on one audit log
--     and runs them in turn.
-- The twin takes frames from the ground's API (twin_api.py), extrapolates temperature and charge
-- (twin_engine.py), turns a forecast into an alert (alert_engine.py) and posts both; config.py holds its
-- thresholds. The scripts fault_injector.py and fault_injector_bad_sig.py drive the flight software and
-- the ground into faults and report what came of it, inject_cascade_live.py sends a chain of audit
-- events.
--
-- Which file models which part:
--   Base, Json, Models, Floats: shared helpers, the JSON values, models.py, the interface to floats;
--   Settings: flight/config.py. A value is tagged with the Python type of its default;
--   Window (Locked, Methods): window_scheduler.py. A method is an action on a state with the mutex in
--     it, and the callback is a function to the queries that it makes of the scheduler, which run where it
--     is called; the background thread of `start_loop` is a sequence of calls of `tick`;
--   Queue (Names, Files): disk_queue.py. The directory is a list of names and contents; `enqueue` is the
--     list of file-system calls that it makes, so a crash is a prefix of that list. Queue.Spec is the
--     specification: a list of numbered messages in ascending order;
--   Audit: audit_logger.py over the lines of the log file;
--   Fsw (State, Faults, Changes): fsw_core.py, with the parameters of config.py that the core reads;
--   Sensors: sensor_sim.py, whose readings are the core's input;
--   Crypto: crypto_verifier.py; Executor: cmd_executor.py;
--   Comms (Links, State, Metrics, Gateway): comms_client.py over a transport, which is a record of operations
--     with the two transports of the source as its instances. Gateway is `MockGateway`, the ground on the
--     transport within the process, and Comms.Delivery puts it and the client on one link;
--   Flight: flight/__main__.py, over the models of the core, the client and the executor;
--   Twin: twin/config.py; Twin.Physics and Twin.Engine: twin_engine.py; Twin.Rationale and Twin.Alerts:
--     alert_engine.py; Twin.Times, Twin.Telemetry and Twin.Api: twin_api.py. An exception of the source is
--     `none`;
--   Infra.Cascade: infra/inject_cascade_live.py; Infra.Script, Infra.Answers and Infra.BadSignature:
--     infra/fault_injector_bad_sig.py; Infra.Restarts and Infra.Spikes: the commands of
--     infra/fault_injector.py that restart the core, and those that inject readings, on the models of the
--     core and the sensor simulator.
-- A method `m` of a class is the function `m` (without a leading underscore) from the object's state to
-- the new state, with the result beside it. Calls of callbacks are collected in the
--     state; the scheduler's callback also makes its queries there. A callback of the scheduler that
--     forces, clears or ticks, or that raises, is not modelled.
--
-- What is assumed, and left out:
--   - times and durations are natural numbers, nanoseconds of the monotonic clock and microseconds of the
--     wall clock; a monotonic clock does not run backwards. A signal to the flight process comes while it
--     sleeps. Sensor values are floats, an interface of
--     which only the order's laws are used. Sequence numbers and counts are natural numbers without
--     bound, as in Python;
--   - SHA-256, Ed25519, hexadecimal, JSON text, the websockets package and the service manager are
--     parameters; the laws asked of them are in the records Crypto, Platform and Codec;
--   - the calls on the log file and on the queue directory succeed, but for the removals that
--     `unlinkable` forbids, unreadable lines and files, and the boot counter's file. Other exceptions of
--     the operating system are not modelled;
--   - a command plan has the keys and types of the protocol, or lacks them; the values in a command may
--     be any JSON, and numbers in JSON that are not natural are kept as text;
--   - the six-digit padding of the queue's file names makes their order that of the numbers only below
--     1000000, and the theorems on the queue say so;
--   - NumPy's numbers and `np.clip`, the HTTP requests with their answers, and the clocks of the twin and
--     of the scripts are parameters too; the metrics of a telemetry frame are numbers, and none of them is
--     called "timestamp" (the twin hands on a null or a text, and the predictions raise on it, which is not
--     modelled); a line of the audit log that is JSON but no object counts as unreadable;
--   - recursion is structural, on lists and on counts: those of `drain_receives` and of the gateway's
--     rounds, and the rounds of a loop that another thread stops, which are given as a list of what
--     happens in each. There is fuel in two places: the decimal digits of a number have its successor,
--     which is enough; the poll of a plan's status has 21 rounds, and a theorem on the report says that
--     its ten seconds end before, as each round sleeps half a second;
--   - not modelled: ground/ (JavaScript), infra/verify_canonical_json.py, of fault_injector.py the command
--     network-outage, and the command lines, what is printed and the measured durations.
pub mod Audit
pub mod Base
pub mod Comms
pub mod Crypto
pub mod Executor
pub mod Flight
pub mod Floats
pub mod Fsw
pub mod Infra
pub mod Json
pub mod Models
pub mod Queue
pub mod Sensors
pub mod Settings
pub mod Twin
pub mod Window
