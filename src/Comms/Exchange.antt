-- ===== src/Comms/Exchange.antt =====
-- flight/comms_client.py: the gateway's acknowledgements, and what the client makes of them.
use asterion_one.Base.{
  ℕ, suc, ◌+◌, ◌≡◌, refl, sym, ap, ◌∙◌, ltb, true, none, some, List, [], ◌∷◌, ◌++◌, String,
  if◌then◌else◌, arith, length, map, All,
}
use mathlib.Core.Path.{subst}
use mathlib.Core.List.{append_assoc, append-nil}
use asterion_one.Json.{Json, num, text, obj, Fields, get}
use asterion_one.Audit.{Platform}
use asterion_one.Comms.State.{Codec}
use asterion_one.Comms.Links.{InProcess}
use asterion_one.Comms.Gateway.{Gateway, ack_message, serve_one, serve}

-- A telemetry message with its number.
pub record IsTelemetry (m : ℕ × Fields) : Type 0 where
  pub kind : get "type" m.1 ≡ some (text "TELEMETRY")
  pub numbered : get "seq_id" m.1 ≡ some (num m.0)

-- The highest number so far, and at the end.
abbrev pub top : ℕ → List (ℕ × Fields) → ℕ
top h [] = h
top h (m ∷ ms) = top (if ltb h m.0 then m.0 else h) ms

module _ (p : Platform) (cd : Codec) where
  open cd use {dumps, loads}

  -- What is dumped is read again.
  abbrev pub ReadsBack : ℕ × Fields → Type 0
  ReadsBack m = loads (dumps m.1) ≡ some (obj m.1)

  abbrev pub raw : List (ℕ × Fields) → List String
  raw = map (λ m. dumps m.1)

  serve_one-acks :
      (m : ℕ × Fields) (rest : List String) (g : Gateway)
      → ReadsBack m
      → IsTelemetry m
      → g.link.flight_to_ground ≡ dumps m.1 ∷ rest
      → g.plan_to_send ≡ none
      → let h = if ltb g.highest_ack m.0 then m.0 else g.highest_ack in
        (serve_one p cd g ≡ record g {
          link = record g.link {
            flight_to_ground = rest;
            ground_to_flight =
                g.link.ground_to_flight ++ dumps (ack_message p cd (num m.0) h g) ∷ [];
          };
          received = g.received ++ obj m.1 ∷ [];
          highest_ack = h;
          readings = g.readings + 1;
        })
  unfolding serve_one
  serve_one-acks m rest g back tele waiting no_plan =
      simp (waiting, back, tele.kind, tele.numbered, no_plan) refl

-- An acknowledgement, with the highest number that it names.
pub record IsAck (a : ℕ × Fields) : Type 0 where
  pub details : Fields
  pub kind : get "type" a.1 ≡ some (text "TELEMETRY_ACK")
  pub payload : get "payload" a.1 ≡ some (obj details)
  pub highest : get "highest_ack_seq_id" details ≡ some (num a.0)

-- A client acknowledges a number only if it is above the highest so far.
abbrev pub raised_to : ℕ → List (ℕ × Fields) → ℕ
raised_to h [] = h
raised_to h (a ∷ rest) = raised_to (if ltb h a.0 then a.0 else h) rest

module _ (p : Platform) (cd : Codec) where
  open cd use {dumps, loads}

  abbrev next_ack : ℕ × Fields → Gateway → ℕ
  next_ack m g = if ltb g.highest_ack m.0 then m.0 else g.highest_ack

  abbrev answered : ℕ × Fields → Gateway → Gateway
  answered m g = record g { highest_ack = next_ack m g; readings = g.readings + 1 }

  abbrev ack_for : ℕ × Fields → Gateway → ℕ × Fields
  ack_for m g = (next_ack m g, ack_message p cd (num m.0) (next_ack m g) g)

  -- What the gateway sends for the messages, from its state on.
  abbrev pub acks : List (ℕ × Fields) → Gateway → List (ℕ × Fields)
  acks [] g = []
  acks (m ∷ ms) g = ack_for m g ∷ acks ms (answered m g)

  pub acks-IsAck : (ms : List (ℕ × Fields)) (g : Gateway) → All IsAck (acks ms g)
  acks-IsAck [] g = tt
  acks-IsAck (m ∷ ms) g =
      (record { details = _; kind = refl; payload = refl; highest = refl }, acks-IsAck ms _)

  -- The acknowledgements do not depend on the link, nor on what was received.
  acks-heed :
      (ms : List (ℕ × Fields)) (g : Gateway) (l : InProcess) (r : List Json)
      → acks ms (record g { link = l; received = r }) ≡ acks ms g
  acks-heed [] g l r = refl
  acks-heed (m ∷ ms) g l r = ap (ack_for m g ∷◌) (acks-heed ms (answered m g) l r)

  next_ack-raised :
      (m : ℕ × Fields) (g : Gateway)
      → (if ltb g.highest_ack (next_ack m g) then next_ack m g else g.highest_ack) ≡ next_ack m g
  next_ack-raised m g = ground arith

  serve-suc :
      (n : ℕ) (g : Gateway)
      → g.running ≡ true
      → g.alive ≡ true
      → serve p cd (suc n) g ≡ serve p cd n (serve_one p cd g)
  unfolding serve
  serve-suc n g runs lives = simp (runs, lives) refl

  -- The gateway has served the messages: its highest number, and what it has sent.
  abbrev pub Served : List (ℕ × Fields) → Gateway → Gateway → Type 0
  Served ms g g' =
      (g'.highest_ack ≡ top g.highest_ack ms)
      × (g'.link.flight_to_ground ≡ [])
      × (g'.link.ground_to_flight ≡ g.link.ground_to_flight ++ raw p cd (acks ms g))
      × (g'.link.connected ≡ g.link.connected)

  pub serve-Served :
      (ms : List (ℕ × Fields)) (g : Gateway)
      → All (ReadsBack p cd) ms
      → All IsTelemetry ms
      → g.link.flight_to_ground ≡ raw p cd ms
      → g.plan_to_send ≡ none
      → g.running ≡ true
      → g.alive ≡ true
      → Served ms g (serve p cd (length ms) g)
  unfolding serve
  serve-Served [] g back all waiting no_plan runs lives = (refl, waiting, sym (append-nil _), refl)
  serve-Served (m ∷ ms) g (back, backs) (tele, all) waiting no_plan runs lives =
      let e = serve_one-acks p cd m (raw p cd ms) g back tele waiting no_plan in
      let (top_eq, none_left, sent, up) =
        serve-Served ms (serve_one p cd g) backs all (ap (λ x. x.link.flight_to_ground) e)
          (ap (λ x. x.plan_to_send) e ∙ no_plan) (ap (λ x. x.running) e ∙ runs)
          (ap (λ x. x.alive) e ∙ lives) in
      subst (Served (m ∷ ms) g) (sym (serve-suc (length ms) g runs lives)) (
        top_eq ∙ ap (λ x. top x.highest_ack ms) e,
        none_left,
        sent
            ∙ ap (λ x. x.link.ground_to_flight ++ raw p cd (acks ms x)) e
            ∙ append_assoc g.link.ground_to_flight _ _
            ∙ ap (λ x. g.link.ground_to_flight ++ raw p cd (ack_for m g ∷ x))
                (acks-heed ms (answered m g) _ _),
        up ∙ ap (λ x. x.link.connected) e,
      )

  -- The client's highest number is the gateway's, if it was before.
  pub raised_to-acks :
      (ms : List (ℕ × Fields)) (g : Gateway)
      → raised_to g.highest_ack (acks ms g) ≡ top g.highest_ack ms
  raised_to-acks [] g = refl
  raised_to-acks (m ∷ ms) g =
      ap (λ h. raised_to h (acks ms (answered m g))) (next_ack-raised m g)
      ∙ raised_to-acks ms (answered m g)
