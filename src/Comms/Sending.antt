-- ===== src/Comms/Sending.antt =====
-- flight/comms_client.py: what becomes of a message that is sent.
use asterion_one.Base.{
  ◌+◌, ◌<◌, ◌≡◌, refl, ap, inl, inr, Bool, true, false, ◌&&◌, String, if◌then◌else◌, Bool-cases,
}
use asterion_one.Json.{Json, Fields}
use asterion_one.Audit.{Platform}
use asterion_one.Queue.{Queue, ok, enqueue}
use asterion_one.Queue.Spec.{Backlog, Represents, put_message}
use asterion_one.Queue.Enqueueing.{make_room, enqueue-Represents}
use asterion_one.Queue.Refinement.{AllUnlinkable}
use asterion_one.Comms.Links.{Transport}
use asterion_one.Comms.State.{Codec, Client}
use asterion_one.Comms.{
  send_transport, queue_to_disk, envelope, numbered, note_sent, stored_as, send,
}

module _ (p : Platform) (cd : Codec) (tr : Transport) {W : Type 0} where
  -- The transport is up and takes the message.
  abbrev pub accepts : Fields → Client tr.State W → Bool
  accepts e c = tr.is_connected c.transport && (tr.send (cd.dumps e) c.transport).0

  abbrev pub Sent : Fields → Backlog → Client tr.State W → Client tr.State W → Type 0
  Sent e b c c' =
      Represents c'.queue
        (if accepts e c then b else put_message c.next_seq_id e (make_room c.queue.max_depth b))
      × (c'.next_seq_id ≡ c.next_seq_id + 1)
      × (c'.highest_ack_seq_id ≡ c.highest_ack_seq_id)
      × (c'.transport ≡ (
          if tr.is_connected c.transport
          then (tr.send (cd.dumps e) c.transport).1
          else c.transport))
      × (c'.queue.unlinkable ≡ c.queue.unlinkable)

  queue_to_disk-stores :
      (e : Fields) (c : Client tr.State W) (q : Queue)
      → enqueue e c.queue ≡ ok q
      → queue_to_disk p cd tr e c ≡ record c {
        queue = q;
        stats = record c.stats { messages_queued = c.stats.messages_queued + 1 };
      }
  unfolding queue_to_disk
  queue_to_disk-stores e c q h = ap (λ r. stored_as p cd tr r c) h

  -- After the transport was asked: what is kept.
  attempted : (e : Fields) (sent : Bool) (c : Client tr.State W) → Client tr.State W
  attempted e sent c =
      let after = note_sent p cd tr e sent c in
      if sent then after else queue_to_disk p cd tr e after

  abbrev Keeps : Backlog → Client tr.State W → Client tr.State W → Type 0
  Keeps b c c' =
      Represents c'.queue b
      × (c'.next_seq_id ≡ c.next_seq_id)
      × (c'.highest_ack_seq_id ≡ c.highest_ack_seq_id)
      × (c'.transport ≡ c.transport)
      × (c'.queue.unlinkable ≡ c.queue.unlinkable)

  queue_to_disk-Keeps :
      (e : Fields) (c : Client tr.State W) (q : Queue) (b : Backlog)
      → enqueue e c.queue ≡ ok q
      → Represents q b
      → q.unlinkable ≡ c.queue.unlinkable
      → Keeps b c (queue_to_disk p cd tr e c)
  queue_to_disk-Keeps e c q b h w u = rw (queue_to_disk-stores e c q h) (w, refl, refl, refl, u)

  attempted-Keeps :
      (e : Fields) (sent : Bool) (c : Client tr.State W) (q : Queue) (b d : Backlog)
      → enqueue e c.queue ≡ ok q
      → Represents c.queue b
      → Represents q d
      → q.unlinkable ≡ c.queue.unlinkable
      → Keeps (if sent then b else d) c (attempted e sent c)
  unfolding attempted
  attempted-Keeps e true c q b d h v w u = (v, refl, refl, refl, refl)
  attempted-Keeps e false c q b d h v w u = queue_to_disk-Keeps e c q d h w u

  -- A message that is sent gets the next number. Where the queue represents a backlog, its files can
  -- all be removed and the next number is below a million: if the transport is up and takes the
  -- message, the queue stays as it was; in every other case the queue stores it in its place, within
  -- its bound. The highest acknowledgement stays, and the transport moves only by being asked, where
  -- it is up, to take the message.
  pub send-Represents :
      (msg_type : String) (payload : Json) (c : Client tr.State W) (b : Backlog)
      → AllUnlinkable c.queue
      → Represents c.queue b
      → c.next_seq_id < 1000000
      → let (seq, c') = send p cd tr msg_type payload c in
        (seq ≡ c.next_seq_id) × Sent (envelope p cd tr msg_type payload c) b c c'
  unfolding send send_transport
  send-Represents msg_type payload c b able v lt =
      let e = envelope p cd tr msg_type payload c in
      let (q, stored, w, _, u) = enqueue-Represents c.queue b c.next_seq_id e able v refl lt in
      let (sent, s) = tr.send (cd.dumps e) c.transport in
      elim (Bool-cases (tr.is_connected c.transport)) [
        | inr down ↦ rw down (refl, queue_to_disk-Keeps e (numbered p cd tr c) q _ stored w u)
        | inl up ↦ rw up (
          refl,
          unfold attempted in
              attempted-Keeps e sent (record (numbered p cd tr c) { transport = s }) q b _ stored v
                w u,
        )
      ]
