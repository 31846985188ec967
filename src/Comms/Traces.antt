-- ===== src/Comms/Traces.antt =====
-- flight/comms_client.py: the queue over any run of the client.
use asterion_one.Base.{
  ℕ, ◌+◌, ◌<◌, ◌≡◌, refl, inl, inr, Bool, true, false, not, Option, none, some, List, [], ◌∷◌, ◌++◌,
  String, arith, ltb, leb, keep, All, if◌then◌else◌, Bool-cases, get_or,
}
use asterion_one.Json.{Json, Fields, null, flag, num, decimal, text, arr, obj, end, get}
use asterion_one.Audit.{Platform}
use asterion_one.Queue.{Queue, get_from}
use asterion_one.Queue.Spec.{Backlog, Represents, put_message}
use asterion_one.Queue.Refinement.{AllUnlinkable}
use asterion_one.Queue.Enqueueing.{make_room}
use asterion_one.Comms.Links.{Transport}
use asterion_one.Comms.State.{Codec, Client}
use asterion_one.Comms.Sending.{accepts, send-Represents}
use asterion_one.Comms.Acks.{acknowledge-Represents}
use asterion_one.Comms.{
  note_sent, send_transport, envelope, send, acknowledge, ack_if, handle_telemetry_ack, call_back,
  handle_incoming, receive_message, receive_raw, receive_one, replay_each, replay_queued, connect,
  disconnect, type_is,
}

abbrev pub AreBelow : ℕ → Backlog → Type 0
AreBelow n = All (λ e. e.0 < n)

-- The queue represents messages whose numbers are below the next one, and its files can be removed.
pub record IsOrdered (q : Queue) (next : ℕ) : Type 0 where
  pub backlog : Backlog
  pub represents : Represents q backlog
  pub below : AreBelow next backlog
  pub able : AllUnlinkable q

keep-AreBelow : (p : ℕ × Fields → Bool) (n : ℕ) (b : Backlog) → AreBelow n b → AreBelow n (keep p b)
keep-AreBelow p n [] h = tt
keep-AreBelow p n (e ∷ b) h = ground (arith, keep-AreBelow p n b h.1)

AreBelow-suc : (n : ℕ) (b : Backlog) → AreBelow n b → AreBelow (n + 1) b
AreBelow-suc n [] h = tt
AreBelow-suc n (e ∷ b) h = (omega (arith, h.0), AreBelow-suc n b h.1)

make_room-AreBelow : (k n : ℕ) (b : Backlog) → AreBelow n b → AreBelow n (make_room k b)
make_room-AreBelow k n [] h = ground arith
make_room-AreBelow k n (e ∷ b) h = ground arith

-- A message above all others goes to the end.
pub put_message-AreBelow :
    (n : ℕ) (m : Fields) (b : Backlog) → AreBelow n b → put_message n m b ≡ b ++ (n, m) ∷ []
unfolding put_message
put_message-AreBelow n m [] h = refl
put_message-AreBelow n m (e ∷ b) h = ground (arith, put_message-AreBelow n m b h.1)

append-AreBelow :
    (n : ℕ) (m : Fields) (b : Backlog) → AreBelow n b → AreBelow (n + 1) (b ++ (n, m) ∷ [])
append-AreBelow n m [] h = (omega arith, tt)
append-AreBelow n m (e ∷ b) h = (omega (arith, h.0), append-AreBelow n m b h.1)

module _ (p : Platform) (cd : Codec) (tr : Transport) {W : Type 0} where
  abbrev Ordered : Client tr.State W → Type 0
  Ordered c = IsOrdered c.queue c.next_seq_id

  send-IsOrdered :
      (msg_type : String) (payload : Json) (c : Client tr.State W)
      → c.next_seq_id < 1000000
      → Ordered c
      → Ordered (send p cd tr msg_type payload c).1
  send-IsOrdered msg_type payload c lt v =
      let e = envelope p cd tr msg_type payload c in
      let room = make_room-AreBelow c.queue.max_depth c.next_seq_id v.backlog v.below in
      let (_, (represents, next, _, _, same)) =
        send-Represents p cd tr msg_type payload c v.backlog v.able v.represents lt in
      record {
        backlog = _;
        represents = represents;
        below = rw next (elim (Bool-cases (accepts p cd tr e c)) [
          | inl taken ↦ rw taken (AreBelow-suc c.next_seq_id v.backlog v.below)
          | inr stored ↦
              rw
                (
                  stored,
                  put_message-AreBelow c.next_seq_id e (make_room c.queue.max_depth v.backlog) room,
                )
                (append-AreBelow c.next_seq_id e _ room)
        ]);
        able = rw same v.able;
      }

  acknowledge-IsOrdered :
      (n : ℕ) (c : Client tr.State W) → Ordered c → Ordered (acknowledge p cd tr n c)
  acknowledge-IsOrdered n c v =
      let (represents, _, next, same) =
        acknowledge-Represents p cd tr n c v.backlog v.able v.represents in
      record {
        backlog = _;
        represents = represents;
        below = rw next (elim (Bool-cases (ltb c.highest_ack_seq_id n)) [
          | inl new ↦ rw new (keep-AreBelow (λ e. not (leb e.0 n)) c.next_seq_id v.backlog v.below)
          | inr old ↦ rw old v.below
        ]);
        able = rw same v.able;
      }

  ack_if-IsOrdered :
      (o : Option ℕ) (c : Client tr.State W) → Ordered c → Ordered (ack_if p cd tr o c).1
  ack_if-IsOrdered none c v = v
  ack_if-IsOrdered (some n) c v = acknowledge-IsOrdered n c v

  handle_telemetry_ack-IsOrdered :
      (j : Json) (c : Client tr.State W) → Ordered c → Ordered (handle_telemetry_ack p cd tr j c).1
  unfolding handle_telemetry_ack
  handle_telemetry_ack-IsOrdered (obj d) c v = ack_if-IsOrdered _ c v
  handle_telemetry_ack-IsOrdered null c v = v
  handle_telemetry_ack-IsOrdered (flag b) c v = v
  handle_telemetry_ack-IsOrdered (num n) c v = v
  handle_telemetry_ack-IsOrdered (decimal t) c v = v
  handle_telemetry_ack-IsOrdered (text t) c v = v
  handle_telemetry_ack-IsOrdered (arr a) c v = v

  call_back-IsOrdered :
      (o : Option (Json → W → Bool × W)) (j : Json) (c : Client tr.State W)
      → Ordered c
      → Ordered (call_back p cd tr o j c).1
  call_back-IsOrdered none j c v = v
  call_back-IsOrdered (some f) j c v = v

  if-IsOrdered :
      (b : Bool) (r s : Bool × Client tr.State W)
      → Ordered r.1
      → Ordered s.1
      → Ordered (if b then r else s).1
  if-IsOrdered b r s v w = elim (Bool-cases b) [ inl e ↦ rw e v | inr e ↦ rw e w ]

  handle_incoming-IsOrdered :
      (j : Json) (c : Client tr.State W) → Ordered c → Ordered (handle_incoming p cd tr j c).1
  unfolding handle_incoming
  handle_incoming-IsOrdered (obj msg) c v =
      let msg_type = get_or (get "type" msg) (text "") in
      let payload = get_or (get "payload" msg) (obj end) in
      if-IsOrdered (type_is "TELEMETRY_ACK" msg_type) _ _
        (handle_telemetry_ack-IsOrdered payload c v)
        (if-IsOrdered (type_is "PLAN_UPLOAD" msg_type) _ _
          (call_back-IsOrdered c.on_plan_received payload
            (record c { stats = record c.stats { plans_received = c.stats.plans_received + 1 } }) v)
          v)
  handle_incoming-IsOrdered null c v = v
  handle_incoming-IsOrdered (flag b) c v = v
  handle_incoming-IsOrdered (num n) c v = v
  handle_incoming-IsOrdered (decimal t) c v = v
  handle_incoming-IsOrdered (text t) c v = v
  handle_incoming-IsOrdered (arr a) c v = v

  receive_message-IsOrdered :
      (o : Option Json) (c : Client tr.State W)
      → Ordered c
      → Ordered (receive_message p cd tr o c).1
  receive_message-IsOrdered none c v = v
  receive_message-IsOrdered (some j) c v = handle_incoming-IsOrdered j c v

  receive_raw-IsOrdered :
      (o : Option String) (c : Client tr.State W) → Ordered c → Ordered (receive_raw p cd tr o c).1
  receive_raw-IsOrdered none c v = v
  receive_raw-IsOrdered (some raw) c v = receive_message-IsOrdered (cd.loads raw) c v

  receive_one-IsOrdered : (c : Client tr.State W) → Ordered c → Ordered (receive_one p cd tr c).1
  unfolding receive_one
  receive_one-IsOrdered c v =
      receive_raw-IsOrdered (tr.recv c.transport).0
        (record c { transport = (tr.recv c.transport).1 }) v

  note_sent-IsOrdered :
      (e : Fields) (sent : Bool) (c : Client tr.State W)
      → Ordered c
      → Ordered (note_sent p cd tr e sent c)
  note_sent-IsOrdered e true c v = v
  note_sent-IsOrdered e false c v = v

  send_transport-IsOrdered :
      (e : Fields) (c : Client tr.State W) → Ordered c → Ordered (send_transport p cd tr e c).1
  unfolding send_transport
  send_transport-IsOrdered e c v =
      note_sent-IsOrdered e (tr.send (cd.dumps e) c.transport).0
        (record c { transport = (tr.send (cd.dumps e) c.transport).1 }) v

  if-replayed :
      (b : Bool) (r s : ℕ × Client tr.State W)
      → Ordered r.1
      → Ordered s.1
      → Ordered (if b then r else s).1
  if-replayed b r s v w = elim (Bool-cases b) [ inl e ↦ rw e v | inr e ↦ rw e w ]

  replay_each-IsOrdered :
      (msgs : List Fields) (c : Client tr.State W)
      → Ordered c
      → Ordered (replay_each p cd tr msgs c).1
  unfolding replay_each
  replay_each-IsOrdered [] c v = v
  replay_each-IsOrdered (m ∷ msgs) c v =
      let (sent, after) = send_transport p cd tr m c in
      let w = send_transport-IsOrdered m c v in
      if-replayed sent _ _ (replay_each-IsOrdered msgs after w) w

  connect-IsOrdered : (c : Client tr.State W) → Ordered c → Ordered (connect p cd tr c).1
  unfolding connect replay_queued
  connect-IsOrdered c v = elim (Bool-cases (tr.connect c.transport).0) [
    | inr down ↦ rw down v
    | inl up ↦ rw up (replay_each-IsOrdered (get_from (c.highest_ack_seq_id + 1) c.queue) _ v)
  ]

  -- One call of the client, with numbers of six digits for the messages that it sends.
  pub data Step (c : Client tr.State W) : Client tr.State W → Type 0 where
    sends :
        (msg_type : String) (payload : Json)
        → c.next_seq_id < 1000000
        → Step c (send p cd tr msg_type payload c).1
    receives : Step c (receive_one p cd tr c).1
    connects : Step c (connect p cd tr c).1
    disconnects : Step c (disconnect p cd tr c)

  pub data Run (first : Client tr.State W) : Client tr.State W → Type 0 where
    here : Run first first
    more : {c c' : Client tr.State W} → Run first c → Step c c' → Run first c'

  Step-IsOrdered : {c c' : Client tr.State W} → Step c c' → Ordered c → Ordered c'
  unfolding disconnect
  Step-IsOrdered (sends msg_type payload lt) v = send-IsOrdered msg_type payload _ lt v
  Step-IsOrdered receives v = receive_one-IsOrdered _ v
  Step-IsOrdered connects v = connect-IsOrdered _ v
  Step-IsOrdered disconnects v = v

  -- Over any run of sends, of messages whose numbers are below a million, receptions, connections
  -- and disconnections, whatever the transport does and the ground sends: a queue that represents a
  -- backlog with all numbers below the client's next one, and whose files can all be removed, does so
  -- at the end.
  pub Run-IsOrdered :
      {first c : Client tr.State W}
      → Run first c
      → IsOrdered first.queue first.next_seq_id
      → IsOrdered c.queue c.next_seq_id
  Run-IsOrdered here v = v
  Run-IsOrdered (more r s) v = Step-IsOrdered s (Run-IsOrdered r v)
