-- ===== src/Comms/State.antt =====
-- flight/comms_client.py: the state of `CommsClient`. Clock values are in nanoseconds, and each clock's
-- readings are numbered. The callback for a plan acts on a state `W`, and its flag says whether it
-- returns or raises.
use asterion_one.Base.{ℕ, Bool, Option, none, some, List, [], ◌∷◌, String, ◌==◌, if◌then◌else◌}
use asterion_one.Json.{Json, Fields}
use asterion_one.Audit.{Logger}
use asterion_one.Queue.{Queue}

-- What the client takes from json and the monotonic clock, next to the platform.
pub record Codec : Type 0 where
  pub dumps : Fields → String
  pub loads : String → Option Json
  pub monotonic : ℕ → ℕ

pub record Stats : Type 0 where
  pub messages_sent : ℕ
  pub messages_queued : ℕ
  pub messages_replayed : ℕ
  pub acks_received : ℕ
  pub plans_received : ℕ
  pub connect_count : ℕ
  pub disconnect_count : ℕ

pub record Client (S W : Type 0) : Type 0 where
  pub transport : S
  pub queue : Queue
  pub audit : Logger
  pub on_plan_received : Option (Json → W → Bool × W)
  pub world : W
  pub next_seq_id : ℕ
  pub highest_ack_seq_id : ℕ
  pub stats : Stats
  pub send_timestamps : List (ℕ × ℕ)
  pub ack_latencies : List ℕ
  pub clock_readings : ℕ

-- `CommsClient(transport, queue, audit, on_plan_received)`
abbrev pub new_client :
    {S W : Type 0} → S → Queue → Logger → Option (Json → W → Bool × W) → W → Client S W
new_client s q l callback w = record {
  transport = s;
  queue = q;
  audit = l;
  on_plan_received = callback;
  world = w;
  next_seq_id = 1;
  highest_ack_seq_id = 0;
  stats = record {
    messages_sent = 0;
    messages_queued = 0;
    messages_replayed = 0;
    acks_received = 0;
    plans_received = 0;
    connect_count = 0;
    disconnect_count = 0;
  };
  send_timestamps = [];
  ack_latencies = [];
  clock_readings = 0;
}

-- `d[k] = v` and `d.get(k)` on numbers
abbrev pub put_number : ℕ → ℕ → List (ℕ × ℕ) → List (ℕ × ℕ)
put_number k v [] = (k, v) ∷ []
put_number k v ((j, w) ∷ d) =
    let rest = put_number k v d in if j == k then (k, v) ∷ d else (j, w) ∷ rest

abbrev pub get_number : ℕ → List (ℕ × ℕ) → Option ℕ
get_number k [] = none
get_number k ((j, w) ∷ d) = let rest = get_number k d in if j == k then some w else rest
