-- ===== src/Flight.antt =====
-- flight/__main__.py: the flight process, in which the core, the client and the executor share the
-- audit log. The core's is the current one: the others get it before they run, and give it back.
pub mod Phases
pub mod Whole
pub mod Commanding
mod Tests
use asterion_one.Base.{
  ℕ, ◌-◌, Bool, true, false, ◌&&◌, Option, none, some, List, [], ◌∷◌, String, leb, map,
  if◌then◌else◌,
}
use asterion_one.Base.Partial.{◌>>=◌}
use asterion_one.Json.{Json, text, arr, obj, Items, nil, cons, Fields, get}
use asterion_one.Models.{FswState, state_value}
use asterion_one.Audit.{Platform, Logger}
use asterion_one.Floats.{Floats}
use asterion_one.Crypto.{Crypto, Plan}
use asterion_one.Executor.{Executor, Formats, execute_plan}
use asterion_one.Queue.{Queue}
use asterion_one.Comms.Links.{Transport}
use asterion_one.Comms.State.{Codec, Client, new_client}
use asterion_one.Comms.{send_telemetry, connect, disconnect, drain_receives}
use asterion_one.Fsw.State.{Readings, TelemetryFrame, Core, Input}
use asterion_one.Fsw.Changes.{set_telemetry_callback}
use asterion_one.Fsw.{start, stop, tick}

-- `plan_data.get(key)` where the value is a text
abbrev text_of : Option Json → Option (Option String)
text_of none = some none
text_of (some (text t)) = some (some t)
text_of _ = none

abbrev commands_in : Items → Option (List Fields)
commands_in nil = some []
commands_in (cons (obj d) xs) = commands_in xs >>= λ ds. some (d ∷ ds)
commands_in (cons _ xs) = none

abbrev commands_of : Option Json → Option (Option (List Fields))
commands_of none = some none
commands_of (some (arr xs)) = commands_in xs >>= λ ds. some (some ds)
commands_of _ = none

-- What the executor and the verifier read from a plan. A payload that is no plan of the protocol counts
-- as one on which they raise.
unfoldable pub plan_of : Json → Option Plan
plan_of (obj d) = text_of (get "plan_id" d) >>= λ plan_id.
    commands_of (get "commands" d) >>= λ commands. text_of (get "signature" d) >>= λ signature.
    text_of (get "public_key" d) >>= λ public_key. some (record {
      plan_id = plan_id;
      commands = commands;
      signature = signature;
      public_key = public_key;
    })
plan_of _ = none

-- What the callback for plans acts on, with the core's state at that time.
pub record Commanded (H : Type 0) : Type 0 where
  pub executor : Executor H
  pub fsw_state : FswState

pub record Process (F S H : Type 0) : Type 0 where
  pub core : Core F
  pub comms : Client S (Commanded H)
  pub last_connect_attempt : ℕ
  pub running : Bool

-- One round of the main loop: the clock, what the tick takes from outside, and whether a signal to
-- stop comes during the sleep.
pub record Round (F : Type 0) : Type 0 where
  pub now : ℕ
  pub input : Input F
  pub signalled : Bool

module _ (p : Platform) (fl : Floats) (cr : Crypto) (fm : Formats) (cd : Codec) (tr : Transport)
    {H : Type 0} (interval : ℕ) (subsystems_json : Readings fl.Float → Json) where
  open fl use {Float}

  abbrev executed : Option Plan → Commanded H → Bool × Commanded H
  executed none w = (false, w)
  executed (some plan) w =
      (true, record w { executor = (execute_plan p cr fm plan w.fsw_state w.executor).1 })

  -- `lambda plan: fsw.cmd_executor.execute_plan(plan, fsw.state)`
  unfoldable pub on_plan : Json → Commanded H → Bool × Commanded H
  on_plan payload w = executed (plan_of payload) w

  -- The parts once they are built and wired, before `fsw.start()`.
  abbrev pub wired : Core Float → tr.State → Queue → Executor H → Process Float tr.State H
  wired core transport queue executor = record {
    core = set_telemetry_callback p fl core;
    comms =
        new_client transport queue core.audit (some on_plan)
          (record { executor = executor; fsw_state = core.state });
    last_connect_attempt = 0;
    running = true;
  }

  abbrev pub with_log : Logger → Client tr.State (Commanded H) → Client tr.State (Commanded H)
  with_log l c = record c { audit = l }

  -- The client after an operation, with the log that it leaves.
  abbrev pub rejoin :
      Client tr.State (Commanded H) → Process Float tr.State H → Process Float tr.State H
  rejoin c s = record s { core = record s.core { audit = c.audit }; comms = c }

  -- `_on_telemetry`
  unfoldable pub on_telemetry :
      TelemetryFrame Float → Client tr.State (Commanded H) → Client tr.State (Commanded H)
  on_telemetry frame c =
      (send_telemetry p cd tr (subsystems_json frame.subsystems) (state_value frame.fsw_state) c).1

  abbrev pub forward :
      List (TelemetryFrame Float) → Client tr.State (Commanded H) → Client tr.State (Commanded H)
  forward [] c = c
  forward (frame ∷ frames) c = forward frames (on_telemetry frame c)

  abbrev attempt : ℕ → Process Float tr.State H → Process Float tr.State H
  attempt now s =
      rejoin (connect p cd tr (with_log s.core.audit s.comms)).1
        (record s { last_connect_attempt = now })

  unfoldable pub reconnect : ℕ → Process Float tr.State H → Process Float tr.State H
  reconnect now s =
      if tr.is_connected s.comms.transport
      then s
      else (if leb interval (now - s.last_connect_attempt) then attempt now s else s)

  -- The frames of the tick go to the client when it has written to the log.
  unfoldable pub tick_and_send : Input Float → Process Float tr.State H → Process Float tr.State H
  tick_and_send i s =
      let core = tick p fl i (record s.core { frames = [] }) in
      rejoin (forward core.frames (with_log core.audit s.comms)) (record s { core = core })

  abbrev pub lent : Process Float tr.State H → Client tr.State (Commanded H)
  lent s = record s.comms {
    audit = s.core.audit;
    world = record {
      executor = record s.comms.world.executor { audit = s.core.audit };
      fsw_state = s.core.state;
    };
  }

  abbrev drained : Process Float tr.State H → Process Float tr.State H
  drained s =
      let c = drain_receives p cd tr 50 (lent s) in
      record s { core = record s.core { audit = c.world.executor.audit }; comms = c }

  unfoldable pub drain : Process Float tr.State H → Process Float tr.State H
  drain s = if tr.is_connected s.comms.transport then drained s else s

  -- `_stop`
  unfoldable pub handle_signal : Bool → Process Float tr.State H → Process Float tr.State H
  handle_signal true s = record s { core = stop p fl s.core; running = false }
  handle_signal false s = s

  unfoldable pub round : Round Float → Process Float tr.State H → Process Float tr.State H
  round r s = handle_signal r.signalled (drain (tick_and_send r.input (reconnect r.now s)))

  -- The main loop.
  pub loop : List (Round Float) → Process Float tr.State H → Process Float tr.State H
  loop [] s = s
  loop (r ∷ rs) s =
      let rest = loop rs (round r s) in if s.running && s.core.running then rest else s

  unfoldable pub finish : Process Float tr.State H → Process Float tr.State H
  finish s =
      if tr.is_connected s.comms.transport
      then rejoin (disconnect p cd tr (with_log s.core.audit s.comms)) s
      else s

  unfoldable pub main :
      String → List (Round Float) → Process Float tr.State H → Process Float tr.State H
  main recovery_mode rounds s =
      finish (loop rounds (record s { core = start p fl recovery_mode s.core }))
