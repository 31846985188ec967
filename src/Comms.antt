-- ===== src/Comms.antt =====
-- flight/comms_client.py: the operations of `CommsClient` over a transport, the disk queue and the
-- audit log.
pub mod Links
pub mod State
pub mod Metrics
pub mod Sending
pub mod Acks
pub mod Replay
pub mod Restart
pub mod Traces
pub mod Gateway
pub mod Exchange
pub mod Drain
pub mod World
pub mod Delivery
mod Tests
use asterion_one.Base.{
  ℕ, zero, suc, ◌+◌, ◌-◌, ◌*◌, ◌/◌, Bool, true, false, not, ◌&&◌, Option, none, some, List, [], ◌∷◌,
  ◌++◌, String, str_eq, length, get_elem?, keep, leb, ltb, ◌==◌, get_or, min, if◌then◌else◌,
}
use asterion_one.Json.{Json, null, flag, num, decimal, text, arr, obj, Fields, end, field, get}
use asterion_one.Models.{Severity}
use asterion_one.Audit.{Platform, Logger, log, read_clock}
use asterion_one.Queue.{Queue, Result, ok, err, enqueue, get_from, remove_up_to, depth}
use asterion_one.Comms.State.{Codec, Stats, Client, new_client, put_number, get_number}
use asterion_one.Comms.Links.{Transport}

-- Every message that is sent has a number: `send` gives it one, and `enqueue` has seen it.
abbrev stamped : Option Json → ℕ → List (ℕ × ℕ) → List (ℕ × ℕ)
stamped (some (num n)) t d = put_number n t d
stamped _ t d = d

-- The number of an acknowledgement; a comparison with any other value raises.
abbrev pub ack_number : Json → Option ℕ
ack_number (num n) = some n
ack_number (flag true) = some 1
ack_number (flag false) = some 0
ack_number _ = none

abbrev pub type_is : String → Json → Bool
type_is name (text t) = str_eq t name
type_is name _ = false

abbrev is_none : Option Json → Bool
is_none none = true
is_none (some _) = false

module _ (p : Platform) (cd : Codec) (tr : Transport) {W : Type 0} where
  open cd use {dumps, loads, monotonic}

  abbrev pub note_sent : Fields → Bool → Client tr.State W → Client tr.State W
  note_sent envelope false c = c
  note_sent envelope true c = record c {
    stats = record c.stats { messages_sent = c.stats.messages_sent + 1 };
    send_timestamps =
        stamped (get "seq_id" envelope) (monotonic c.clock_readings) c.send_timestamps;
    clock_readings = c.clock_readings + 1;
  }

  unfoldable pub send_transport : Fields → Client tr.State W → Bool × Client tr.State W
  send_transport envelope c =
      let (sent, s) = tr.send (dumps envelope) c.transport in
      (sent, note_sent envelope sent (record c { transport = s }))

  abbrev pub stored_as : Result Queue → Client tr.State W → Client tr.State W
  stored_as (ok q) c = record c {
    queue = q;
    stats = record c.stats { messages_queued = c.stats.messages_queued + 1 };
  }
  stored_as (err _) c = c

  -- `enqueue` raises on a message without a number, before the count.
  unfoldable pub queue_to_disk : Fields → Client tr.State W → Client tr.State W
  queue_to_disk e c = stored_as (enqueue e c.queue) c

  abbrev pub envelope : String → Json → Client tr.State W → Fields
  envelope msg_type payload c = field "type" (text msg_type) (
      field "seq_id" (num c.next_seq_id) (
        field "timestamp" (text (p.isoformat (p.utc_now c.audit.readings)))
          (field "payload" payload end)))

  -- The client once the message has its number and its timestamp.
  abbrev pub numbered : Client tr.State W → Client tr.State W
  numbered c = record c { next_seq_id = c.next_seq_id + 1; audit = read_clock c.audit }

  abbrev pub deliver : Fields → Client tr.State W → Client tr.State W
  deliver e c =
      let (sent, after) = send_transport e c in
      if tr.is_connected c.transport
      then (if sent then after else queue_to_disk e after)
      else queue_to_disk e c

  unfoldable pub send : String → Json → Client tr.State W → ℕ × Client tr.State W
  send msg_type payload c = (c.next_seq_id, deliver (envelope msg_type payload c) (numbered c))

  abbrev pub send_telemetry : Json → String → Client tr.State W → ℕ × Client tr.State W
  send_telemetry subsystems fsw_state =
      send "TELEMETRY"
        (obj (field "fsw_state" (text fsw_state) (field "subsystems" subsystems end)))

  abbrev pub send_command_ack :
      Json → Json → Json → Json → Client tr.State W → ℕ × Client tr.State W
  send_command_ack plan_id seq_id status executed_at = send "COMMAND_ACK" (
      obj (
        field "plan_id" plan_id (
          field "sequence_id" seq_id
            (field "status" status (field "executed_at" executed_at end)))))

  abbrev pub send_command_nack : Json → Json → Client tr.State W → ℕ × Client tr.State W
  send_command_nack plan_id reason =
      send "COMMAND_NACK" (obj (field "plan_id" plan_id (field "reason" reason end)))

  abbrev pub send_audit_event : Fields → Client tr.State W → ℕ × Client tr.State W
  send_audit_event entry = send "AUDIT_EVENT" (obj entry)

  -- The latency of the acknowledged message, if it was sent in this connection or an earlier one.
  abbrev pub note_latency : Option ℕ → ℕ → Client tr.State W → Client tr.State W
  note_latency none ack c = c
  note_latency (some t) ack c = record c {
    ack_latencies = c.ack_latencies ++ (monotonic c.clock_readings - t) ∷ [];
    clock_readings = c.clock_readings + 1;
    send_timestamps = keep (λ e. not (leb e.0 ack)) c.send_timestamps;
  }

  abbrev new_ack : ℕ → Client tr.State W → Client tr.State W
  new_ack ack c =
      let noted = note_latency (get_number ack c.send_timestamps) ack (record c {
        highest_ack_seq_id = ack;
        stats = record c.stats { acks_received = c.stats.acks_received + 1 };
      }) in
      record noted { queue = (remove_up_to ack noted.queue).0 }

  unfoldable pub acknowledge : ℕ → Client tr.State W → Client tr.State W
  acknowledge ack c = if ltb c.highest_ack_seq_id ack then new_ack ack c else c

  abbrev pub ack_if : Option ℕ → Client tr.State W → Bool × Client tr.State W
  ack_if none c = (false, c)
  ack_if (some n) c = (true, acknowledge n c)

  -- `_handle_telemetry_ack`; the flag says whether it returns or raises.
  unfoldable pub handle_telemetry_ack : Json → Client tr.State W → Bool × Client tr.State W
  handle_telemetry_ack (obj d) c =
      ack_if (ack_number (get_or (get "highest_ack_seq_id" d) (num 0))) c
  handle_telemetry_ack _ c = (false, c)

  abbrev pub call_back :
      Option (Json → W → Bool × W) → Json → Client tr.State W → Bool × Client tr.State W
  call_back none payload c = (true, c)
  call_back (some f) payload c =
      let (returns, w) = f payload c.world in (returns, record c { world = w })

  abbrev pub handle_plan : Json → Client tr.State W → Bool × Client tr.State W
  handle_plan payload c =
      call_back c.on_plan_received payload
        (record c { stats = record c.stats { plans_received = c.stats.plans_received + 1 } })

  unfoldable pub handle_incoming : Json → Client tr.State W → Bool × Client tr.State W
  handle_incoming (obj msg) c =
      let msg_type = get_or (get "type" msg) (text "") in
      let payload = get_or (get "payload" msg) (obj end) in
      if type_is "TELEMETRY_ACK" msg_type
      then handle_telemetry_ack payload c
      else if type_is "PLAN_UPLOAD" msg_type
      then handle_plan payload c
      else (true, c)
  handle_incoming _ c = (false, c)

  abbrev pub receive_message : Option Json → Client tr.State W → Option Json × Client tr.State W
  receive_message none c = (none, c)
  receive_message (some msg) c =
      let (returns, after) = handle_incoming msg c in (if returns then some msg else none, after)

  abbrev pub receive_raw : Option String → Client tr.State W → Option Json × Client tr.State W
  receive_raw none c = (none, c)
  receive_raw (some raw) c = receive_message (loads raw) c

  unfoldable pub receive_one : Client tr.State W → Option Json × Client tr.State W
  receive_one c = let (raw, s) = tr.recv c.transport in receive_raw raw (record c { transport = s })

  -- `drain_receives(max_count)`
  unfoldable pub drain_receives : ℕ → Client tr.State W → Client tr.State W
  drain_receives zero c = c
  drain_receives (suc n) c =
      let (msg, after) = receive_one c in
      let rest = drain_receives n after in if is_none msg then after else rest

  -- The loop of `_replay_queued`: how many were sent.
  pub replay_each : List Fields → Client tr.State W → ℕ × Client tr.State W
  replay_each [] c = (0, c)
  replay_each (msg ∷ msgs) c =
      let (sent, after) = send_transport msg c in
      let (count, rest) = replay_each msgs after in if sent then (count + 1, rest) else (0, after)

  unfoldable pub replay_queued : Client tr.State W → Client tr.State W
  replay_queued c =
      let (replayed, after) = replay_each (get_from (c.highest_ack_seq_id + 1) c.queue) c in
      record after {
        stats = record after.stats { messages_replayed = after.stats.messages_replayed + replayed };
      }

  abbrev pub log_link : String → String → Client tr.State W → Client tr.State W
  log_link event_type description c = record c {
    audit = (log p event_type Severity.info description end c.audit).1;
  }

  abbrev pub connected_up : Client tr.State W → Client tr.State W
  connected_up c = replay_queued (
      log_link "COMMS_CONNECTED" "Transport connected"
        (record c { stats = record c.stats { connect_count = c.stats.connect_count + 1 } }))

  unfoldable pub connect : Client tr.State W → Bool × Client tr.State W
  connect c =
      let (up, s) = tr.connect c.transport in
      let c' : Client tr.State W = record c { transport = s } in
      (up, if up then connected_up c' else c')

  unfoldable pub disconnect : Client tr.State W → Client tr.State W
  disconnect c = log_link "COMMS_DISCONNECTED" "Transport disconnected (window closed)" (record c {
    transport = tr.disconnect c.transport;
    stats = record c.stats { disconnect_count = c.stats.disconnect_count + 1 };
  })
