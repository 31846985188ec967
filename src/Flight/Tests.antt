-- ===== src/Flight/Tests.antt =====
-- Runs of the flight process, and its theorems at concrete inputs.
use asterion_one.Base.{ℕ, ◌+◌, ◌≡◌, refl, false, true, none, some, [], ◌∷◌}
use asterion_one.Json.{null, text, num, arr, obj, nil, cons, end, field, Fields}
use asterion_one.Models.{nominal}
use asterion_one.Audit.Chain.{Inv}
use asterion_one.Floats.{hundredths}
use asterion_one.Crypto.Tests.{bench as keys}
use asterion_one.Executor.{Executor, Formats}
use asterion_one.Queue.Tests.{holding}
use asterion_one.Comms.Links.{InProcess, in_process}
use asterion_one.Comms.State.{Codec}
use asterion_one.Fsw.State.{counts}
use asterion_one.Fsw.Transitions.{next_state}
use asterion_one.Fsw.Tests.{bench, core_in, at, empty_log-Inv}
use asterion_one.Fsw.Faults.{evaluate_faults}
use asterion_one.Flight.Whole.{main-audit}
use asterion_one.Flight.Commanding.{IsUntouched, round-Untouched}
use asterion_one.Crypto.{verify, is_trusted_key}
use asterion_one.Executor.{execute_plan, run_commands, execute_single}
use asterion_one.Comms.{send, send_transport, receive_one, drain_receives, handle_incoming}
use asterion_one.Fsw.{tick, do_nominal, emit_telemetry}
use asterion_one.Flight.{
  Process, Round, wired, round, main, reconnect, tick_and_send, drain, handle_signal, on_telemetry,
  on_plan, plan_of,
}

abbrev formats : Formats
formats = record { str_json = λ j. "J"; first_16 = λ s. s; unhashable = λ j. "unhashable type" }

abbrev ping : Fields
ping = field "sequence_id" (num 1) (field "command_type" (text "PING") end)

-- The only text that is read is a plan with one command, signed by the trusted key.
abbrev codec : Codec
codec = record {
  dumps = λ d. "{}";
  loads = λ s. some (
      obj (
        field "type" (text "PLAN_UPLOAD") (
          field "payload"
            (obj (
              field "plan_id" (text "p1") (
                field "commands" (arr (cons (obj ping) nil))
                  (field "signature" (text "33cc") (field "public_key" (text "00ff") end)))))
            end)));
  monotonic = λ n. 10 + n;
}

abbrev executor : Executor ℕ
executor = record {
  crypto = record { trusted_keys = ("00ff", "ground") ∷ [] };
  audit = (core_in nominal (counts 0)).audit;
  handlers = ("PING", (λ j w. (none, w + 1))) ∷ [];
  world = 0;
}

abbrev link : InProcess
link = record { flight_to_ground = []; ground_to_flight = "plan" ∷ []; connected = true }

-- The core is in NOMINAL, and a plan waits on the link.
abbrev process : Process ℕ InProcess ℕ
process =
    wired bench hundredths keys formats codec in_process 5000 (λ r. null)
      (core_in nominal (counts 0)) link holding executor

abbrev hot : Round ℕ
hot = record { now = 9000; input = at 7100 9000; signalled = false }

abbrev cool : Round ℕ
cool = record { now = 9000; input = at 3500 9000; signalled = true }

-- The plan runs after a cool tick.
ran :
    (round bench hundredths keys formats codec in_process 5000
      (λ r. null)
      cool
      process).comms.world.executor.world
    ≡ 1
unfolding round reconnect tick_and_send drain handle_signal on_telemetry on_plan plan_of tick
    do_nominal emit_telemetry send send_transport receive_one drain_receives handle_incoming
    execute_plan verify is_trusted_key evaluate_faults run_commands execute_single
ran = refl

main-audit_example :
    Inv bench
      (main bench hundredths keys formats codec in_process 5000
        (λ r. null)
        ""
        (cool ∷ hot ∷ [])
        process).core.audit
main-audit_example =
    main-audit bench hundredths keys formats codec in_process 5000 (λ r. null) "" (cool ∷ hot ∷ [])
      (core_in nominal (counts 0)) link holding executor empty_log-Inv

round-Untouched_example :
    let s = round bench hundredths keys formats codec in_process 5000 (λ r. null) hot process in
    (s.core.state ≡ next_state hundredths (at 7100 9000) (core_in nominal (counts 0)))
    × IsUntouched executor s.comms.world.executor
unfolding evaluate_faults
round-Untouched_example =
    round-Untouched bench hundredths keys formats codec in_process 5000 (λ r. null) hot process
      (empty_log-Inv, refl, tt) refl
