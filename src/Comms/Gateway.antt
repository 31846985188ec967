-- ===== src/Comms/Gateway.antt =====
-- flight/comms_client.py: `MockGateway`, the stand-in for the ground on the in-process transport.
use asterion_one.Base.{
  ℕ, zero, suc, ◌+◌, ◌==◌, ltb, leb, Bool, true, false, Option, none, some, List, [], ◌∷◌, ◌++◌,
  String, if◌then◌else◌, get_or,
}
use asterion_one.Base.Sorting.{sort_by}
use asterion_one.Base.Partial.{◌>>=◌}
use asterion_one.Json.{Json, null, num, text, obj, Fields, end, field, get}
use asterion_one.Audit.{Platform}
use asterion_one.Comms.State.{Codec}
use asterion_one.Comms.Links.{InProcess, ground_recv, ground_send}
use asterion_one.Comms.{type_is, ack_number}

-- `alive` is false once an exception has ended the thread; `readings` counts the clock's readings.
pub record Gateway : Type 0 where
  pub link : InProcess
  pub running : Bool
  pub alive : Bool
  pub received : List Json
  pub highest_ack : ℕ
  pub plan_to_send : Option Fields
  pub readings : ℕ

-- `MockGateway(transport)`
abbrev pub new_gateway : InProcess → Gateway
new_gateway link = record {
  link = link;
  running = false;
  alive = false;
  received = [];
  highest_ack = 0;
  plan_to_send = none;
  readings = 0;
}

abbrev pub start : Gateway → Gateway
start g = record g { running = true; alive = true }

-- `stop` waits for the loop to end.
abbrev pub stop : Gateway → Gateway
stop g = record g { running = false; alive = false }

abbrev pub queue_plan : Fields → Gateway → Gateway
queue_plan plan g = record g { plan_to_send = some plan }

-- The numbers of the telemetry messages, each once, where every such number is one.
abbrev without : ℕ → List ℕ → List ℕ
without n [] = []
without n (m ∷ ms) = let rest = without n ms in if m == n then rest else m ∷ rest

abbrev pub telemetry_numbers : List Json → Option (List ℕ)
telemetry_numbers [] = some []
telemetry_numbers (obj d ∷ ms) =
    if type_is "TELEMETRY" (get_or (get "type" d) null)
    then (ack_number (get_or (get "seq_id" d) (num 0)) >>= λ n.
        telemetry_numbers ms >>= λ ns. some (n ∷ without n ns))
    else telemetry_numbers ms
telemetry_numbers (_ ∷ ms) = none

-- `get_received_seq_ids`
unfoldable pub get_received_seq_ids : Gateway → Option (List ℕ)
get_received_seq_ids g = telemetry_numbers g.received >>= λ ns. some (sort_by leb ns)

module _ (p : Platform) (cd : Codec) where
  open cd use {dumps, loads}

  abbrev stamp : Gateway → Json
  stamp g = text (p.isoformat (p.utc_now g.readings))

  abbrev pub ack_message : Json → ℕ → Gateway → Fields
  ack_message seq highest g = field "type" (text "TELEMETRY_ACK") (
      field "seq_id" seq (
        field "timestamp" (stamp g)
          (field "payload" (obj (field "highest_ack_seq_id" (num highest) end)) end)))

  abbrev plan_message : Fields → Gateway → Fields
  plan_message plan g =
      field "type" (text "PLAN_UPLOAD")
        (field "seq_id" (num 0) (field "timestamp" (stamp g) (field "payload" (obj plan) end)))

  abbrev send_message : Fields → Gateway → Gateway
  send_message msg g = record g { link = ground_send (dumps msg) g.link; readings = g.readings + 1 }

  -- An empty plan counts as none, and stays.
  abbrev send_plan : Option Fields → Gateway → Gateway
  send_plan none g = g
  send_plan (some end) g = g
  send_plan (some (field k v d)) g = record (send_message (plan_message (field k v d) g) g) {
    plan_to_send = none;
  }

  abbrev acked : Json → ℕ → Gateway → Gateway
  acked seq highest g =
      let after = send_message (ack_message seq highest g) (record g { highest_ack = highest }) in
      send_plan after.plan_to_send after

  -- A number that does not compare ends the thread.
  abbrev answer_number : Json → Option ℕ → Gateway → Gateway
  answer_number seq none g = record g { alive = false }
  answer_number seq (some n) g = acked seq (if ltb g.highest_ack n then n else g.highest_ack) g

  abbrev answer_message : Json → Gateway → Gateway
  answer_message (obj d) g =
      let seq = get_or (get "seq_id" d) (num 0) in
      if type_is "TELEMETRY" (get_or (get "type" d) null)
      then answer_number seq (ack_number seq) g
      else g
  answer_message _ g = record g { alive = false }

  abbrev answer_json : Option Json → Gateway → Gateway
  answer_json none g = g
  answer_json (some msg) g = answer_message msg (record g { received = g.received ++ msg ∷ [] })

  abbrev answer_raw : Option String → Gateway → Gateway
  answer_raw none g = g
  answer_raw (some raw) g = answer_json (loads raw) g

  -- One round of `_loop`.
  unfoldable pub serve_one : Gateway → Gateway
  serve_one g = let (raw, link) = ground_recv g.link in answer_raw raw (record g { link = link })

  -- `_loop`, for so many rounds.
  unfoldable pub serve : ℕ → Gateway → Gateway
  serve zero g = g
  serve (suc rounds) g =
      let next = serve rounds (serve_one g) in
      if g.running then (if g.alive then next else g) else g
