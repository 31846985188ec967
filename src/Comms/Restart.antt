-- ===== src/Comms/Restart.antt =====
-- flight/comms_client.py: a restarted client numbers from 1 again.
use mathlib.Core.Path.{subst}
use asterion_one.Base.{ℕ, ◌<◌, ◌≡◌, Bool, false, Option, ◌∷◌, String, length, arith}
use asterion_one.Json.{Json, Fields}
use asterion_one.Audit.{Platform, Logger}
use asterion_one.Queue.{Queue}
use asterion_one.Queue.Spec.{Backlog, Represents, put_message}
use asterion_one.Queue.Enqueueing.{make_room}
use asterion_one.Queue.Refinement.{AllUnlinkable}
use asterion_one.Comms.Links.{Transport}
use asterion_one.Comms.State.{Codec, new_client}
use asterion_one.Comms.{envelope, send}
use asterion_one.Comms.Sending.{send-Represents}

overwritten :
    (m e : Fields) (b : Backlog) (k : ℕ)
    → length ((1, m) ∷ b) < k
    → put_message 1 e (make_room k ((1, m) ∷ b)) ≡ (1, e) ∷ b
unfolding put_message
overwritten m e b k lt = ground arith

-- A message 1 that an earlier run of the process left in the queue is lost when the restarted client
-- sends its first message while the link is down: that message takes the number 1 and its place. This
-- is where the queue represents a backlog, has room, and its files can all be removed.
pub restart_overwrites :
    (p : Platform) (cd : Codec) (tr : Transport) {W : Type 0} (s : tr.State) (q : Queue)
    (l : Logger) (callback : Option (Json → W → Bool × W)) (w : W) (m : Fields) (b : Backlog)
    (msg_type : String) (payload : Json)
    → tr.is_connected s ≡ false
    → AllUnlinkable q
    → Represents q ((1, m) ∷ b)
    → length ((1, m) ∷ b) < q.max_depth
    → let c = new_client s q l callback w in
      let (seq, c') = send p cd tr msg_type payload c in
      (seq ≡ 1) × Represents c'.queue ((1, envelope p cd tr msg_type payload c) ∷ b)
restart_overwrites p cd t s q l callback w m b msg_type payload down able v room =
    let c = new_client s q l callback w in
    let e = envelope p cd t msg_type payload c in
    let (seq, stored) =
      send-Represents p cd t msg_type payload c ((1, m) ∷ b) able v (omega arith) in
    (
      seq,
      subst (Represents (send p cd t msg_type payload c).1.queue)
          (rw down (overwritten m e b q.max_depth room)) stored.0,
    )
