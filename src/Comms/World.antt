-- ===== src/Comms/World.antt =====
-- flight/comms_client.py: what the client's operations keep of the audit log and of the state that the
-- callback for plans acts on.
use asterion_one.Base.{
  ℕ, zero, suc, ◌+◌, ◌≡◌, inl, inr, Bool, true, false, Option, none, some, List, [], ◌∷◌, String,
  if◌then◌else◌, Bool-cases, get_or,
}
use asterion_one.Json.{Json, Fields, null, flag, num, decimal, text, arr, obj, end, get}
use asterion_one.Audit.{Platform}
use asterion_one.Audit.Chain.{Inv, log-Inv}
use asterion_one.Queue.{Queue, Result, ok, err, enqueue, get_from}
use asterion_one.Comms.Links.{Transport}
use asterion_one.Comms.State.{Codec, Client, get_number}
use asterion_one.Comms.{
  note_sent, send_transport, stored_as, queue_to_disk, envelope, numbered, send, note_latency,
  acknowledge, ack_if, handle_telemetry_ack, call_back, handle_incoming, receive_message,
  receive_raw, receive_one, drain_receives, replay_each, replay_queued, connect, disconnect,
  type_is,
}

module _ (p : Platform) (cd : Codec) (tr : Transport) {W : Type 0} (f : Json → W → Bool × W)
    (P : W → Type 0) where
  -- The log is whole, the callback is in place, and its state has the property.
  abbrev pub Wired : Client tr.State W → Type 0
  Wired c = Inv p c.audit × (c.on_plan_received ≡ some f) × P c.world

  -- The callback keeps the property.
  abbrev pub Keeps : Type 0
  Keeps = (j : Json) (w : W) → P w → P (f j w).1

  pub if-Wired :
      (b : Bool) (c d : Client tr.State W) → Wired c → Wired d → Wired (if b then c else d)
  if-Wired b c d v w = elim (Bool-cases b) [ inl e ↦ rw e v | inr e ↦ rw e w ]

  note_sent-Wired :
      (e : Fields) (sent : Bool) (c : Client tr.State W)
      → Wired c
      → Wired (note_sent p cd tr e sent c)
  note_sent-Wired e true c v = v
  note_sent-Wired e false c v = v

  send_transport-Wired :
      (e : Fields) (c : Client tr.State W) → Wired c → Wired (send_transport p cd tr e c).1
  unfolding send_transport
  send_transport-Wired e c v =
      note_sent-Wired e (tr.send (cd.dumps e) c.transport).0
        (record c { transport = (tr.send (cd.dumps e) c.transport).1 }) v

  stored_as-Wired :
      (r : Result Queue) (c : Client tr.State W) → Wired c → Wired (stored_as p cd tr r c)
  stored_as-Wired (ok q) c v = v
  stored_as-Wired (err _) c v = v

  queue_to_disk-Wired :
      (e : Fields) (c : Client tr.State W) → Wired c → Wired (queue_to_disk p cd tr e c)
  unfolding queue_to_disk
  queue_to_disk-Wired e c v = stored_as-Wired (enqueue e c.queue) c v

  pub send-Wired :
      (msg_type : String) (payload : Json) (c : Client tr.State W)
      → Wired c
      → Wired (send p cd tr msg_type payload c).1
  unfolding send
  send-Wired msg_type payload c (whole, wired, holds) =
      let e = envelope p cd tr msg_type payload c in
      let c' = numbered p cd tr c in
      let v : Wired c' =
        (record { chained = whole.chained; pointed = whole.pointed }, wired, holds) in
      let w = send_transport-Wired e c' v in
      if-Wired (tr.is_connected c'.transport) _ _
        (if-Wired (send_transport p cd tr e c').0 _ _ w (queue_to_disk-Wired e _ w))
        (queue_to_disk-Wired e c' v)

  if-replayed-Wired :
      (b : Bool) (r s : ℕ × Client tr.State W)
      → Wired r.1
      → Wired s.1
      → Wired (if b then r else s).1
  if-replayed-Wired b r s v w = elim (Bool-cases b) [ inl e ↦ rw e v | inr e ↦ rw e w ]

  replay_each-Wired :
      (msgs : List Fields) (c : Client tr.State W) → Wired c → Wired (replay_each p cd tr msgs c).1
  unfolding replay_each
  replay_each-Wired [] c v = v
  replay_each-Wired (m ∷ msgs) c v =
      let (sent, after) = send_transport p cd tr m c in
      let w = send_transport-Wired m c v in
      if-replayed-Wired sent _ _ (replay_each-Wired msgs after w) w

  pub connect-Wired : (c : Client tr.State W) → Wired c → Wired (connect p cd tr c).1
  unfolding connect replay_queued
  connect-Wired c (whole, wired, holds) = elim (Bool-cases (tr.connect c.transport).0) [
    | inr down ↦ rw down (whole, wired, holds)
    | inl up ↦ rw up (
        replay_each-Wired (get_from (c.highest_ack_seq_id + 1) c.queue) _
          ((log-Inv p _ _ _ _ c.audit whole).0, wired, holds))
  ]

  pub disconnect-Wired : (c : Client tr.State W) → Wired c → Wired (disconnect p cd tr c)
  unfolding disconnect
  disconnect-Wired c (whole, wired, holds) = ((log-Inv p _ _ _ _ c.audit whole).0, wired, holds)

  note_latency-Wired :
      (o : Option ℕ) (ack : ℕ) (c : Client tr.State W)
      → Wired c
      → Wired (note_latency p cd tr o ack c)
  note_latency-Wired none ack c v = v
  note_latency-Wired (some t) ack c v = v

  acknowledge-Wired : (n : ℕ) (c : Client tr.State W) → Wired c → Wired (acknowledge p cd tr n c)
  unfolding acknowledge
  acknowledge-Wired n c v =
      if-Wired _ _ _
        (note_latency-Wired (get_number n c.send_timestamps) n
          (record c {
            highest_ack_seq_id = n;
            stats = record c.stats { acks_received = c.stats.acks_received + 1 };
          })
          v)
        v

  ack_if-Wired : (o : Option ℕ) (c : Client tr.State W) → Wired c → Wired (ack_if p cd tr o c).1
  ack_if-Wired none c v = v
  ack_if-Wired (some n) c v = acknowledge-Wired n c v

  handle_telemetry_ack-Wired :
      (j : Json) (c : Client tr.State W) → Wired c → Wired (handle_telemetry_ack p cd tr j c).1
  unfolding handle_telemetry_ack
  handle_telemetry_ack-Wired (obj d) c v = ack_if-Wired _ c v
  handle_telemetry_ack-Wired null c v = v
  handle_telemetry_ack-Wired (flag b) c v = v
  handle_telemetry_ack-Wired (num n) c v = v
  handle_telemetry_ack-Wired (decimal t) c v = v
  handle_telemetry_ack-Wired (text t) c v = v
  handle_telemetry_ack-Wired (arr a) c v = v

  if-handled-Wired :
      (b : Bool) (r s : Bool × Client tr.State W)
      → Wired r.1
      → Wired s.1
      → Wired (if b then r else s).1
  if-handled-Wired b r s v w = elim (Bool-cases b) [ inl e ↦ rw e v | inr e ↦ rw e w ]

  call_back-Wired :
      (o : Option (Json → W → Bool × W)) (j : Json) (c : Client tr.State W)
      → Keeps
      → o ≡ some f
      → Wired c
      → Wired (call_back p cd tr o j c).1
  call_back-Wired o j c keeps e (whole, wired, holds) = rw e (whole, wired, keeps j c.world holds)

  handle_incoming-Wired :
      (j : Json) (c : Client tr.State W) → Keeps → Wired c → Wired (handle_incoming p cd tr j c).1
  unfolding handle_incoming
  handle_incoming-Wired (obj msg) c keeps v =
      let msg_type = get_or (get "type" msg) (text "") in
      let payload = get_or (get "payload" msg) (obj end) in
      if-handled-Wired (type_is "TELEMETRY_ACK" msg_type) _ _
        (handle_telemetry_ack-Wired payload c v)
        (if-handled-Wired (type_is "PLAN_UPLOAD" msg_type) _ _
          (call_back-Wired c.on_plan_received payload
            (record c { stats = record c.stats { plans_received = c.stats.plans_received + 1 } })
            keeps v.1 v)
          v)
  handle_incoming-Wired null c keeps v = v
  handle_incoming-Wired (flag b) c keeps v = v
  handle_incoming-Wired (num n) c keeps v = v
  handle_incoming-Wired (decimal t) c keeps v = v
  handle_incoming-Wired (text t) c keeps v = v
  handle_incoming-Wired (arr a) c keeps v = v

  receive_message-Wired :
      (o : Option Json) (c : Client tr.State W)
      → Keeps
      → Wired c
      → Wired (receive_message p cd tr o c).1
  receive_message-Wired none c keeps v = v
  receive_message-Wired (some j) c keeps v = handle_incoming-Wired j c keeps v

  receive_raw-Wired :
      (o : Option String) (c : Client tr.State W)
      → Keeps
      → Wired c
      → Wired (receive_raw p cd tr o c).1
  receive_raw-Wired none c keeps v = v
  receive_raw-Wired (some raw) c keeps v = receive_message-Wired (cd.loads raw) c keeps v

  receive_one-Wired : (c : Client tr.State W) → Keeps → Wired c → Wired (receive_one p cd tr c).1
  unfolding receive_one
  receive_one-Wired c keeps v =
      receive_raw-Wired (tr.recv c.transport).0 (record c { transport = (tr.recv c.transport).1 })
        keeps v

  pub drain_receives-Wired :
      (n : ℕ) (c : Client tr.State W) → Keeps → Wired c → Wired (drain_receives p cd tr n c)
  unfolding drain_receives
  drain_receives-Wired zero c keeps v = v
  drain_receives-Wired (suc n) c keeps v =
      let w = receive_one-Wired c keeps v in if-Wired _ _ _ w (drain_receives-Wired n _ keeps w)
