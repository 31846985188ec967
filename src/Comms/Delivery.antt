-- ===== src/Comms/Delivery.antt =====
-- flight/comms_client.py: the gateway and the client together, on one link.
use mathlib.Core.Path.{subst}
use asterion_one.Base.{
  ℕ, suc, ◌≤◌, ◌≡◌, refl, sym, ap, ◌∙◌, true, none, List, [], ◌∷◌, ◌++◌, length, arith, All,
}
use asterion_one.Json.{Fields}
use asterion_one.Audit.{Platform}
use asterion_one.Queue.Spec.{Backlog, Represents}
use asterion_one.Queue.Refinement.{AllUnlinkable}
use asterion_one.Comms.State.{Codec, Client}
use asterion_one.Comms.Links.{InProcess, in_process}
use asterion_one.Comms.Gateway.{Gateway, serve}
use asterion_one.Comms.Exchange.{
  IsTelemetry, top, raised_to, raw, ReadsBack, acks, acks-IsAck, serve-Served, raised_to-acks,
}
use asterion_one.Comms.Drain.{settled, Drained, drain_receives-Drained}
use asterion_one.Comms.{drain_receives}

module _ (p : Platform) (cd : Codec) where
  length-acks : (ms : List (ℕ × Fields)) (g : Gateway) → length (acks p cd ms g) ≡ length ms
  length-acks [] g = refl
  length-acks (m ∷ ms) g = ap suc (length-acks ms _)

module _ (p : Platform) (cd : Codec) {W : Type 0} where
  -- The messages wait for a running gateway that has no plan to send, and the client knows of the
  -- gateway's acknowledgements so far.
  pub record IsReady (ms : List (ℕ × Fields)) (g : Gateway) (c : Client InProcess W) : Type 0 where
    pub waiting : g.link.flight_to_ground ≡ raw p cd ms
    pub idle : g.link.ground_to_flight ≡ []
    pub up : g.link.connected ≡ true
    pub no_plan : g.plan_to_send ≡ none
    pub runs : g.running ≡ true
    pub lives : g.alive ≡ true
    pub same : c.highest_ack_seq_id ≡ g.highest_ack

  -- Where a running gateway with no plan to send shares with the client a link that is up, on which
  -- telemetry messages wait for it and nothing for the client, where the client's highest
  -- acknowledged number is the gateway's, the text of these messages and of their acknowledgements is
  -- read back as what was written, and the client's queue represents a backlog whose files can all be
  -- removed: one round of the gateway for each message, and then a `drain_receives` with a count that
  -- is no less than the messages, leave both sides with the highest of the numbers and that before as
  -- their highest acknowledged number, nothing on the link in either direction, and a queue that has
  -- lost the messages up to this number, if it has risen, and no others.
  pub drain_receives-serve :
      (ms : List (ℕ × Fields)) (n : ℕ) (g : Gateway) (c : Client InProcess W) (b : Backlog)
      → All (ReadsBack p cd) ms
      → All (ReadsBack p cd) (acks p cd ms g)
      → All IsTelemetry ms
      → IsReady ms g c
      → length ms ≤ n
      → AllUnlinkable c.queue
      → Represents c.queue b
      → let g' = serve p cd (length ms) g in
        let c' = drain_receives p cd in_process n (record c { transport = g'.link }) in
        let h = top c.highest_ack_seq_id ms in
        Represents c'.queue (settled c.highest_ack_seq_id h b)
        × (c'.highest_ack_seq_id ≡ h)
        × (g'.highest_ack ≡ h)
        × (g'.link.flight_to_ground ≡ [])
        × (c'.transport.ground_to_flight ≡ [])
  drain_receives-serve ms n g c b back acks_back all ready le able v =
      let (top_eq, served, sent, up) =
        serve-Served p cd ms g back all ready.waiting ready.no_plan ready.runs ready.lives in
      let raised =
        ap (λ h. raised_to h (acks p cd ms g)) ready.same
        ∙ raised_to-acks p cd ms g
        ∙ ap (λ h. top h ms) (sym ready.same) in
      let (left, highest, empty, _) =
        subst
          (λ h. Drained p cd h b c (
            drain_receives p cd in_process n
              (record c { transport = (serve p cd (length ms) g).link })))
          raised
          (drain_receives-Drained p cd (acks p cd ms g) n
            (record c { transport = (serve p cd (length ms) g).link }) b acks_back
            (acks-IsAck p cd ms g) (omega (arith, length-acks p cd ms g)) (up ∙ ready.up)
            (sent ∙ ap (λ l. l ++ raw p cd (acks p cd ms g)) ready.idle) able v) in
      (left, highest, top_eq ∙ ap (λ h. top h ms) (sym ready.same), served, empty)
