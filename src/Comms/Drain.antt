-- ===== src/Comms/Drain.antt =====
-- flight/comms_client.py: what the client makes of the gateway's acknowledgements.
use mathlib.Core.Path.{subst}
use asterion_one.Base.{
  ℕ, zero, suc, ◌≤◌, ◌≡◌, refl, sym, ap, ◌∙◌, ltb, true, Option, none, some, List, [], ◌∷◌, String,
  if◌then◌else◌, arith, length, All, Bool-cases, inl, inr,
}
use asterion_one.Json.{obj, Fields}
use asterion_one.Audit.{Platform}
use asterion_one.Queue.Spec.{Backlog, Represents, above_number}
use asterion_one.Queue.Refinement.{AllUnlinkable}
use asterion_one.Comms.State.{Codec, Client, get_number}
use asterion_one.Comms.Links.{InProcess, in_process}
use asterion_one.Comms.Exchange.{IsAck, raised_to, raw, ReadsBack}
use asterion_one.Comms.Acks.{acknowledge-Represents}
use asterion_one.Comms.{
  note_latency, acknowledge, receive_one, handle_incoming, handle_telemetry_ack, drain_receives,
}

-- A backlog once the highest number has gone from one number to another.
abbrev pub settled : ℕ → ℕ → Backlog → Backlog
settled h t b = if ltb h t then above_number t b else b

above_number-above_number :
    (s t : ℕ) (b : Backlog) → s ≤ t → above_number t (above_number s b) ≡ above_number t b
above_number-above_number s t [] le = refl
above_number-above_number s t (e ∷ b) le = ground (arith, above_number-above_number s t b le)

raised_to-le : (h : ℕ) (acks : List (ℕ × Fields)) → h ≤ raised_to h acks
raised_to-le h [] = omega arith
raised_to-le h (a ∷ acks) = ground (arith, raised_to-le (if ltb h a.0 then a.0 else h) acks)

settled-same : (h : ℕ) (b : Backlog) → settled h h b ≡ b
settled-same h b = ground arith

settled-step :
    (h n t : ℕ) (b : Backlog)
    → (if ltb h n then n else h) ≤ t
    → settled (if ltb h n then n else h) t (if ltb h n then above_number n b else b) ≡ settled h t b
settled-step h n t b le = ground (arith, above_number-above_number n t b)

module _ (p : Platform) (cd : Codec) {W : Type 0} where
  note_latency-transport :
      (o : Option ℕ) (ack : ℕ) (c : Client InProcess W)
      → (note_latency p cd in_process o ack c).transport ≡ c.transport
  note_latency-transport none ack c = refl
  note_latency-transport (some t) ack c = refl

  acknowledge-transport :
      (n : ℕ) (c : Client InProcess W) → (acknowledge p cd in_process n c).transport ≡ c.transport
  unfolding acknowledge
  acknowledge-transport n c = elim (Bool-cases (ltb c.highest_ack_seq_id n)) [
    | inr old ↦ rw old refl
    | inl new ↦ rw new (note_latency-transport (get_number n c.send_timestamps) n _)
  ]

  receive_one-ack :
      (a : ℕ × Fields) (rest : List String) (c : Client InProcess W)
      → ReadsBack p cd a
      → IsAck a
      → c.transport.connected ≡ true
      → c.transport.ground_to_flight ≡ cd.dumps a.1 ∷ rest
      → receive_one p cd in_process c ≡ (
        some (obj a.1),
        acknowledge p cd in_process a.0
            (record c { transport = record c.transport { ground_to_flight = rest } }),
      )
  unfolding receive_one handle_incoming handle_telemetry_ack
  receive_one-ack a rest c back ack up waiting =
      simp (up, waiting, back, ack.kind, ack.payload, ack.highest) refl

  receive_one-idle :
      (c : Client InProcess W)
      → c.transport.connected ≡ true
      → c.transport.ground_to_flight ≡ []
      → receive_one p cd in_process c
        ≡ (none, record c { transport = record c.transport { ground_to_flight = [] } })
  unfolding receive_one
  receive_one-idle c up idle = simp (up, idle) refl

  -- The client once it has read one acknowledgement.
  abbrev noted : ℕ × Fields → List String → Client InProcess W → Client InProcess W
  noted a rest c =
      acknowledge p cd in_process a.0
        (record c { transport = record c.transport { ground_to_flight = rest } })

  drain_receives-suc :
      (n : ℕ) (a : ℕ × Fields) (rest : List String) (c : Client InProcess W)
      → receive_one p cd in_process c ≡ (some (obj a.1), noted a rest c)
      → drain_receives p cd in_process (suc n) c ≡ drain_receives p cd in_process n (noted a rest c)
  unfolding drain_receives
  drain_receives-suc n a rest c e = simp e refl

  drain_receives-idle :
      (n : ℕ) (c c' : Client InProcess W)
      → receive_one p cd in_process c ≡ (none, c')
      → drain_receives p cd in_process (suc n) c ≡ c'
  unfolding drain_receives
  drain_receives-idle n c c' e = simp e refl

  -- The client has read acknowledgements that raise its highest number to `t`.
  abbrev pub Drained : ℕ → Backlog → Client InProcess W → Client InProcess W → Type 0
  Drained t b c c' =
      Represents c'.queue (settled c.highest_ack_seq_id t b)
      × (c'.highest_ack_seq_id ≡ t)
      × (c'.transport.ground_to_flight ≡ [])
      × (c'.next_seq_id ≡ c.next_seq_id)

  pub drain_receives-Drained :
      (acks : List (ℕ × Fields)) (n : ℕ) (c : Client InProcess W) (b : Backlog)
      → All (ReadsBack p cd) acks
      → All IsAck acks
      → length acks ≤ n
      → c.transport.connected ≡ true
      → c.transport.ground_to_flight ≡ raw p cd acks
      → AllUnlinkable c.queue
      → Represents c.queue b
      → Drained (raised_to c.highest_ack_seq_id acks) b c (drain_receives p cd in_process n c)
  unfolding drain_receives
  drain_receives-Drained [] zero c b back all le up waiting able v = (
    subst (Represents c.queue) (sym (settled-same c.highest_ack_seq_id b)) v,
    refl,
    waiting,
    refl,
  )
  drain_receives-Drained [] (suc n) c b back all le up waiting able v =
      subst (Drained c.highest_ack_seq_id b c)
        (sym (drain_receives-idle n c _ (receive_one-idle c up waiting)))
        (subst (Represents c.queue) (sym (settled-same c.highest_ack_seq_id b)) v, refl, refl, refl)
  drain_receives-Drained (a ∷ acks) zero c b back all le up waiting able v = absurd (omega arith)
  drain_receives-Drained (a ∷ acks) (suc n) c b (back, backs) (ack, all) le up waiting able v =
      let c1 : Client InProcess W = record c {
        transport = record c.transport { ground_to_flight = raw p cd acks };
      } in
      let c' = noted a (raw p cd acks) c in
      let h' = if ltb c.highest_ack_seq_id a.0 then a.0 else c.highest_ack_seq_id in
      let (left, highest, next, same) = acknowledge-Represents p cd in_process a.0 c1 b able v in
      let b' = if ltb c.highest_ack_seq_id a.0 then above_number a.0 b else b in
      let link = acknowledge-transport a.0 c1 in
      subst (Drained _ b c)
        (sym (drain_receives-suc n a _ c (receive_one-ack a _ c back ack up waiting)))
        (let (left', highest', empty, next') =
            drain_receives-Drained acks n c' b' backs all (omega arith)
              (ap (λ x. x.connected) link ∙ up) (ap (λ x. x.ground_to_flight) link)
              (λ m. ap (λ f. f m) same ∙ able m) left in
          (
            subst (Represents (drain_receives p cd in_process n c').queue)
                (ap (λ h. settled h (raised_to h acks) b') highest
                  ∙ settled-step c.highest_ack_seq_id a.0 (raised_to h' acks) b
                      (raised_to-le h' acks))
                left',
            highest' ∙ ap (λ h. raised_to h acks) highest,
            empty,
            next' ∙ next,
          ))
