-- ===== src/Comms/Replay.antt =====
-- flight/comms_client.py: the replay of the stored messages when the link comes up.
use asterion_one.Base.{◌+◌, ◌≡◌, refl, sym, ◌∙◌, ap, true, List, [], ◌∷◌, ◌++◌, length, map, arith}
use asterion_one.Json.{Fields}
use asterion_one.Audit.{Platform}
use asterion_one.Queue.{get_from}
use asterion_one.Queue.Spec.{Backlog, Represents, messages, from_number}
use asterion_one.Queue.Refinement.{get_from-Represents}
use asterion_one.Comms.Links.{InProcess, in_process}
use asterion_one.Comms.State.{Codec, Client}
use asterion_one.Comms.{send_transport, replay_each, replay_queued, connect, log_link}

append_assoc : {A : Type 0} (xs ys zs : List A) → (xs ++ ys) ++ zs ≡ xs ++ (ys ++ zs)
append_assoc [] ys zs = refl
append_assoc (x ∷ xs) ys zs = ap (◌∷◌ x) (append_assoc xs ys zs)

append_nil : {A : Type 0} (xs : List A) → xs ++ [] ≡ xs
append_nil [] = refl
append_nil (x ∷ xs) = ap (◌∷◌ x) (append_nil xs)

module _ (p : Platform) (cd : Codec) {W : Type 0} where
  send_transport-in_process :
      (e : Fields) (c : Client InProcess W)
      → c.transport.connected ≡ true
      → let (sent, c') = send_transport p cd in_process e c in
        (sent ≡ true)
        × (c'.transport ≡ record c.transport {
          flight_to_ground = c.transport.flight_to_ground ++ cd.dumps e ∷ [];
        })
        × (c'.queue ≡ c.queue)
        × (c'.stats.messages_replayed ≡ c.stats.messages_replayed)
  unfolding send_transport
  send_transport-in_process e c h = rw h (refl, refl, refl, refl)

  replay_each-in_process :
      (msgs : List Fields) (c : Client InProcess W)
      → c.transport.connected ≡ true
      → let (count, c') = replay_each p cd in_process msgs c in
        (count ≡ length msgs)
        × (c'.transport.flight_to_ground ≡ c.transport.flight_to_ground ++ map cd.dumps msgs)
        × (c'.queue ≡ c.queue)
        × (c'.stats.messages_replayed ≡ c.stats.messages_replayed)
  unfolding replay_each
  replay_each-in_process [] c h = (refl, sym (append_nil c.transport.flight_to_ground), refl, refl)
  replay_each-in_process (m ∷ msgs) c h =
      let (sent, transport, queue, replayed) = send_transport-in_process m c h in
      let after = (send_transport p cd in_process m c).1 in
      let (count, ground, queue', replayed') =
        replay_each-in_process msgs after (ap (λ (s : InProcess). s.connected) transport ∙ h) in
      rw sent (
        rw count (omega arith),
        ground
            ∙ rw transport
                (append_assoc c.transport.flight_to_ground (cd.dumps m ∷ []) (map cd.dumps msgs)),
        queue' ∙ queue,
        replayed' ∙ replayed,
      )

  -- With the transport within the process, which always connects, and a queue that represents a
  -- backlog, a connection sends the ground every stored message above the highest acknowledged number,
  -- in the order of the numbers and behind what is already on its way, counts them, and leaves the
  -- queue as it is.
  pub connect-replays :
      (c : Client InProcess W) (b : Backlog)
      → Represents c.queue b
      → let (up, c') = connect p cd in_process c in
        let replayed = from_number (c.highest_ack_seq_id + 1) b in
        (up ≡ true)
        × (c'.transport.flight_to_ground
            ≡ c.transport.flight_to_ground ++ map cd.dumps (messages replayed))
        × (c'.queue ≡ c.queue)
        × (c'.stats.messages_replayed ≡ c.stats.messages_replayed + length (messages replayed))
  unfolding connect replay_queued
  connect-replays c b v =
      let linked = log_link p cd in_process "COMMS_CONNECTED" "Transport connected" (record c {
        transport = record c.transport { connected = true };
        stats = record c.stats { connect_count = c.stats.connect_count + 1 };
      }) in
      let same = get_from-Represents c.queue b (c.highest_ack_seq_id + 1) v in
      let (count, ground, queue, replayed) =
        replay_each-in_process (get_from (c.highest_ack_seq_id + 1) c.queue) linked refl in
      (
        refl,
        ground ∙ ap (λ ms. c.transport.flight_to_ground ++ map cd.dumps ms) same,
        queue,
        rw (count, replayed) (ap (λ ms. c.stats.messages_replayed + length ms) same),
      )
