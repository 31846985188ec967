-- ===== src/Comms/Tests.antt =====
-- Runs of the client, and its theorems at concrete inputs.
use asterion_one.Base.{
  ℕ, ◌+◌, ◌≡◌, refl, true, false, none, some, [], ◌∷◌, ◌++◌, arith, ltb, length, map, if◌then◌else◌,
  Option, List, String, str_eq, ◌==◌,
}
use asterion_one.Json.{Json, num, text, obj, Fields, end, field, get}
use asterion_one.Audit.{Platform, Logger}
use asterion_one.Queue.{Queue}
use asterion_one.Queue.Spec.{Represents, above_number, from_number, messages}
use asterion_one.Queue.Tests.{message, holding, backlog, holding-Represents}
use asterion_one.Queue.Names.{
  file_name, is_queue_file, ends_json, name_leb, padded, digits, digits_from, zeros,
}
use asterion_one.Queue.Files.{whole, sorted_files, sort_entries, insert_entry}
use asterion_one.Comms.Links.{InProcess, in_process}
use asterion_one.Comms.State.{Codec, Client, new_client}
use asterion_one.Comms.Gateway.{Gateway, new_gateway, start, serve}
use asterion_one.Comms.Delivery.{IsReady, drain_receives-serve}
use asterion_one.Comms.Drain.{settled}
use asterion_one.Comms.{envelope, send, acknowledge, connect, drain_receives}
use asterion_one.Comms.Sending.{Sent, send-Represents}
use asterion_one.Comms.Acks.{acknowledge-Represents}
use asterion_one.Comms.Replay.{connect-replays}
use asterion_one.Comms.Traces.{IsOrdered, here, more, sends, connects, Run-IsOrdered}
use asterion_one.Comms.Restart.{restart_overwrites}

abbrev plain : Platform
plain = record {
  sha256 = λ s. s;
  isoformat = λ t. "T";
  utc_now = λ n. 1000 + n;
  str_int = λ n. "N";
}

abbrev codec : Codec
codec = record { dumps = λ d. "{}"; loads = λ s. some (obj end); monotonic = λ n. 10 + n }

abbrev link_down : InProcess
link_down = record { flight_to_ground = []; ground_to_flight = []; connected = false }

abbrev log_file : Logger
log_file = record { lines = []; source = "FLIGHT"; prev_hash = "GENESIS"; readings = 0 }

abbrev client : Client InProcess ℕ
client = record (new_client link_down holding log_file none 0) {
  next_seq_id = 20;
  highest_ack_seq_id = 3;
}

send-Represents_example :
    let (seq, c') = send plain codec in_process "TELEMETRY" (num 5) client in
    (seq ≡ 20)
    × Sent plain codec in_process
        (envelope plain codec in_process "TELEMETRY" (num 5) client)
        backlog
        client
        c'
send-Represents_example =
    send-Represents plain codec in_process "TELEMETRY" (num 5) client backlog (λ n. refl)
      holding-Represents (omega arith)

acknowledge-Represents_example :
    let c' = acknowledge plain codec in_process 7 client in
    Represents c'.queue (if ltb 3 7 then above_number 7 backlog else backlog)
    × (c'.highest_ack_seq_id ≡ (if ltb 3 7 then 7 else 3))
    × (c'.next_seq_id ≡ 20)
    × (c'.queue.unlinkable ≡ holding.unlinkable)
acknowledge-Represents_example =
    acknowledge-Represents plain codec in_process 7 client backlog (λ n. refl) holding-Represents

connect-replays_example :
    let (up, c') = connect plain codec in_process client in
    let replayed = from_number 4 backlog in
    (up ≡ true)
    × (c'.transport.flight_to_ground ≡ [] ++ map codec.dumps (messages replayed))
    × (c'.queue ≡ holding)
    × (c'.stats.messages_replayed ≡ 0 + length (messages replayed))
connect-replays_example = connect-replays plain codec client backlog holding-Represents

-- The queue of an earlier run: its first message is stored, with room for more.
abbrev left_over : Queue
left_over = record {
  files = (file_name 1, whole (message 1)) ∷ [];
  max_depth = 3;
  unlinkable = λ n. true;
}

left_over-Represents : Represents left_over ((1, message 1) ∷ [])
unfolding sorted_files sort_entries insert_entry is_queue_file ends_json name_leb file_name padded
    digits digits_from zeros
left_over-Represents = record { listing = refl; ascending = omega arith; small = omega arith }

restart_overwrites_example :
    let c = new_client {W = ℕ} link_down left_over log_file none 0 in
    let (seq, c') = send plain codec in_process "TELEMETRY" (num 5) c in
    (seq ≡ 1)
    × Represents c'.queue ((1, envelope plain codec in_process "TELEMETRY" (num 5) c) ∷ [])
restart_overwrites_example =
    restart_overwrites plain codec in_process link_down left_over log_file none 0 (message 1) []
      "TELEMETRY" (num 5) refl (λ n. refl) left_over-Represents (omega arith)

holding-IsOrdered : IsOrdered client.queue client.next_seq_id
holding-IsOrdered = record {
  backlog = backlog;
  represents = holding-Represents;
  below = omega arith;
  able = λ n. refl;
}

abbrev after_send : Client InProcess ℕ
after_send = (send plain codec in_process "TELEMETRY" (num 5) client).1

abbrev after_connect : Client InProcess ℕ
after_connect = (connect plain codec in_process after_send).1

Run-IsOrdered_example : IsOrdered after_connect.queue after_connect.next_seq_id
Run-IsOrdered_example =
    Run-IsOrdered plain codec in_process
      (more (more here (sends "TELEMETRY" (num 5) (omega arith))) connects) holding-IsOrdered

-- A codec for two telemetry messages and their acknowledgements.
abbrev ack_of : ℕ → Fields
ack_of n = field "type" (text "TELEMETRY_ACK") (
    field "seq_id" (num n) (
      field "timestamp" (text "T")
        (field "payload" (obj (field "highest_ack_seq_id" (num n) end)) end)))

abbrev written : Option Json → Option Json → String
written none (some (num n)) = if n == 20 then "message 20" else "message 21"
written (some _) (some (num n)) = if n == 20 then "ack 20" else "ack 21"
written _ _ = "{}"

abbrev read_text : String → Option Json
read_text s =
    if str_eq s "message 20"
    then some (obj (message 20))
    else if str_eq s "message 21"
    then some (obj (message 21))
    else if str_eq s "ack 20"
    then some (obj (ack_of 20))
    else if str_eq s "ack 21"
    then some (obj (ack_of 21))
    else none

abbrev exact : Codec
exact = record {
  dumps = λ d. written (get "payload" d) (get "seq_id" d);
  loads = read_text;
  monotonic = λ n. 10 + n;
}

abbrev sent_two : List (ℕ × Fields)
sent_two = (20, message 20) ∷ (21, message 21) ∷ []

abbrev gateway : Gateway
gateway =
    record (start (
      new_gateway (record {
        flight_to_ground = "message 20" ∷ "message 21" ∷ [];
        ground_to_flight = [];
        connected = true;
      }))) { highest_ack = 3 }

gateway-IsReady : IsReady plain exact sent_two gateway client
gateway-IsReady = record {
  waiting = refl;
  idle = refl;
  up = refl;
  no_plan = refl;
  runs = refl;
  lives = refl;
  same = refl;
}

drain_receives-serve_example :
    let g' = serve plain exact 2 gateway in
    let c' = drain_receives plain exact in_process 10 (record client { transport = g'.link }) in
    Represents c'.queue (settled 3 21 backlog)
    × (c'.highest_ack_seq_id ≡ 21)
    × (g'.highest_ack ≡ 21)
    × (g'.link.flight_to_ground ≡ [])
    × (c'.transport.ground_to_flight ≡ [])
drain_receives-serve_example =
    drain_receives-serve plain exact sent_two 10 gateway client backlog (refl, (refl, tt))
      (refl, (refl, tt))
      (record { kind = refl; numbered = refl }, (record { kind = refl; numbered = refl }, tt))
      gateway-IsReady (omega arith) (λ n. refl) holding-Represents
