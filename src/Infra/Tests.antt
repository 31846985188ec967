-- ===== src/Infra/Tests.antt =====
-- Runs of the injection scripts, and their theorems at concrete inputs.
use asterion_one.Base.{
  ℕ, ◌+◌, ◌*◌, ◌<◌, ◌≡◌, refl, some, none, Bool, true, false, ◌&&◌, ◌⊎◌, ◌==◌, if◌then◌else◌, List,
  [], ◌∷◌, ◌++◌, length, arith,
}
use asterion_one.Json.{Json, end, field, obj, arr, cons, nil, text, flag, null}
use asterion_one.Models.{Severity, AuditEntry}
use asterion_one.Audit.{Platform, Line, entry, unreadable, genesis_hash, hash_input, read_all}
use asterion_one.Audit.Chain.{IsChain}
use asterion_one.Infra.Script.{
  World, Outcome, answered, State, Result, finished, raised, Report, ◌>>=◌, pure, needed, log_step,
  finalize_report, expect, api_request, read_time,
}
use asterion_one.Infra.BadSignature.{inject_bad_signature, verify_rejection, poll, mark_injected}
use asterion_one.Infra.Rules.{IsHonest}
use asterion_one.Infra.Verdict.{inject_bad_signature-IsHonest}
use asterion_one.Floats.{hundredths}
use asterion_one.Fsw.Tests.{bench, limits, empty_log, empty_log-Inv}
use asterion_one.Sensors.Tests.{quiet, sim_with}
use asterion_one.Infra.Spikes.{Clocks, SpikeReport, thermal_spike}
use asterion_one.Infra.Spiking.{thermal_spike-passes}
use asterion_one.Infra.Restarts.{cascade_failure}
use asterion_one.Infra.Recovery.{cascade_failure-passes}
use asterion_one.Infra.Cascade.{Envelope, last_hash, sent}
use asterion_one.Infra.Chaining.{entries, payloads, sent-IsChain}

-- The stand-in digest is the text itself.
abbrev plain : Platform
plain = record {
  sha256 = λ s. s;
  isoformat = λ t. "T";
  utc_now = λ n. 1000 + n;
  str_int = λ n. "N";
}

abbrev booted : AuditEntry
booted = record {
  timestamp = 1000;
  event_type = "SELF_TEST";
  source = "FLIGHT";
  severity = Severity.info;
  description = "ok";
  metadata = end;
  hash = hash_input plain genesis_hash 1000 "SELF_TEST" "FLIGHT" "ok";
  prev_hash = genesis_hash;
}

abbrev log_lines : List Line
log_lines = unreadable ∷ entry booted ∷ []

sent-IsChain_example :
    (messages : List Envelope) × (sent plain 2000 (some log_lines) ≡ some messages)
    × IsChain plain genesis_hash (entries (some log_lines) ++ payloads messages)
    × (length messages ≡ 5)
unfolding read_all last_hash
sent-IsChain_example = sent-IsChain plain 2000 (some log_lines) ((refl, refl), tt) refl

abbrev event : Json
event = obj (field "event_type" (text "SIGNATURE_INVALID") end)

-- The answers of a ground whose flight segment rejects the plan, one for each request.
abbrev replies : ℕ → Outcome
replies n =
    if n == 1
    then answered 201 (obj (field "data" (obj (field "id" (text "w") end)) end))
    else if n == 3
    then answered 201 (obj (field "data" (obj (field "id" (text "p") end)) end))
    else if n == 5
    then answered 202 null
    else if n == 6
    then answered 200 (obj (field "data" (obj (field "status" (text "REJECTED") end)) end))
    else if n == 7
    then answered 200 (obj (field "data" (arr nil) end))
    else if n == 8
    then answered 200 (obj (field "data" (arr (cons event (cons event nil))) end))
    else answered 200 (obj (field "data" (obj (field "chain_valid" (flag true) end)) end))

abbrev rejecting : World
rejecting = record {
  respond = λ requests. replies (length requests);
  time = λ n. n;
  loads = λ t. none;
  dumps = λ j. "{}";
  prefix = λ t. t;
  contains = λ t u. false;
  strftime = "120000";
  isoformat = λ n. "T";
}

abbrev fresh : State
fresh = record { requests = []; steps = []; injected = false; readings = 0; slept = 0 }

abbrev passes : Result (Unit {0}) → Bool
passes (finished r) = r.passed && (length r.steps == 9)
passes _ = false

rejected : passes (inject_bad_signature rejecting fresh) ≡ true
unfolding inject_bad_signature verify_rejection poll mark_injected ◌>>=◌ pure needed log_step
    finalize_report expect api_request read_time
rejected = refl

inject_bad_signature-IsHonest_example :
    (inject_bad_signature rejecting fresh ≡ raised)
    ⊎ ((r : Report) × (inject_bad_signature rejecting fresh ≡ finished r) × IsHonest rejecting r)
inject_bad_signature-IsHonest_example =
    inject_bad_signature-IsHonest rejecting (λ n. omega arith) fresh refl

cascade_failure-passes_example :
    ((cascade_failure bench hundredths limits false 3 0 empty_log).passed ≡ true)
    × (length (cascade_failure bench hundredths limits false 3 0 empty_log).restarts ≡ 4)
cascade_failure-passes_example = cascade_failure-passes bench hundredths limits false 3 0 empty_log

abbrev seconds_apart : ℕ → Clocks
seconds_apart n = record {
  now = 1000000 * n;
  now_recovery = 1000000 * n;
  now_emit = 1000000 * n;
  now_read = 1000000 * n;
}

-- 85 °C for a minute.
thermal_spike-passes_example :
    (r : SpikeReport) × (thermal_spike bench hundredths quiet seconds_apart limits false 8500 60 0
        empty_log
        (sim_with [])
      ≡ some r)
    × (r.t3_triggered ≡ true)
    × (0 < r.t3_audit_events)
    × (r.passed ≡ true)
thermal_spike-passes_example =
    thermal_spike-passes bench hundredths quiet seconds_apart limits false 8500 60 0 empty_log
      (sim_with []) empty_log-Inv refl
