-- ===== src/Comms/Acks.antt =====
-- flight/comms_client.py: acknowledgements.
use asterion_one.Base.{
  ℕ, ◌+◌, ◌≡◌, refl, inl, inr, Option, none, some, ltb, if◌then◌else◌, Bool-cases,
}
use asterion_one.Audit.{Platform}
use asterion_one.Queue.Spec.{Backlog, Represents, above_number}
use asterion_one.Queue.Refinement.{AllUnlinkable, remove_up_to-Represents}
use asterion_one.Comms.Links.{Transport}
use asterion_one.Comms.State.{Codec, Client, get_number}
use asterion_one.Comms.{note_latency, acknowledge}

module _ (p : Platform) (cd : Codec) (tr : Transport) {W : Type 0} where
  note_latency-queue :
      (o : Option ℕ) (ack : ℕ) (c : Client tr.State W)
      → ((note_latency p cd tr o ack c).queue ≡ c.queue)
        × ((note_latency p cd tr o ack c).highest_ack_seq_id ≡ c.highest_ack_seq_id)
        × ((note_latency p cd tr o ack c).next_seq_id ≡ c.next_seq_id)
  note_latency-queue none ack c = (refl, refl, refl)
  note_latency-queue (some t) ack c = (refl, refl, refl)

  -- Where the queue represents a backlog and its files can all be removed, an acknowledgement of a
  -- number above the highest so far removes from the queue the messages up to it and no others, and
  -- becomes the highest; one that is not above it changes neither. The number of the next message
  -- stays.
  pub acknowledge-Represents :
      (n : ℕ) (c : Client tr.State W) (b : Backlog)
      → AllUnlinkable c.queue
      → Represents c.queue b
      → let c' = acknowledge p cd tr n c in
        Represents c'.queue (if ltb c.highest_ack_seq_id n then above_number n b else b)
        × (c'.highest_ack_seq_id ≡ (if ltb c.highest_ack_seq_id n then n else c.highest_ack_seq_id))
        × (c'.next_seq_id ≡ c.next_seq_id)
        × (c'.queue.unlinkable ≡ c.queue.unlinkable)
  unfolding acknowledge
  acknowledge-Represents n c b able v = elim (Bool-cases (ltb c.highest_ack_seq_id n)) [
    | inr old ↦ rw old (v, refl, refl, refl)
    | inl new ↦
        let (queue, highest, next) =
          note_latency-queue (get_number n c.send_timestamps) n (record c {
            highest_ack_seq_id = n;
            stats = record c.stats { acks_received = c.stats.acks_received + 1 };
          }) in
        let (left, _, _, same) = remove_up_to-Represents c.queue b n able v in
        rw (new, queue) (left, highest, next, same)
  ]
