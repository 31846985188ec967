-- ===== src/Flight/Phases.antt =====
-- flight/__main__.py: what a connection and a tick keep of the shared log and of the executor.
use asterion_one.Base.{ℕ, ◌≡◌, inl, inr, Bool, some, List, [], ◌∷◌, if◌then◌else◌, Bool-cases}
use asterion_one.Json.{Json}
use asterion_one.Audit.{Platform}
use asterion_one.Audit.Chain.{Inv}
use asterion_one.Floats.{Floats}
use asterion_one.Crypto.{Crypto}
use asterion_one.Executor.{Formats}
use asterion_one.Comms.Links.{Transport}
use asterion_one.Comms.State.{Codec, Client}
use asterion_one.Comms.World.{Wired, send-Wired, connect-Wired}
use asterion_one.Fsw.State.{Readings, TelemetryFrame, Input}
use asterion_one.Fsw.{tick}
use asterion_one.Fsw.Trail.{tick-audit}
use asterion_one.Flight.{
  Commanded, Process, on_plan, with_log, on_telemetry, forward, reconnect, tick_and_send,
}

module _ (p : Platform) (fl : Floats) (cr : Crypto) (fm : Formats) (cd : Codec) (tr : Transport)
    {H : Type 0} (interval : ℕ) (js : Readings fl.Float → Json) where
  abbrev pub callback : Json → Commanded H → Bool × Commanded H
  callback = on_plan p fl cr fm cd tr interval js

module _ (p : Platform) (fl : Floats) (cr : Crypto) (fm : Formats) (cd : Codec) (tr : Transport)
    {H : Type 0} (interval : ℕ) (js : Readings fl.Float → Json) (P : Commanded H → Type 0) where
  open fl use {Float}

  -- The log is whole, the client calls the executor, and this has the property.
  abbrev pub Holds : Process Float tr.State H → Type 0
  Holds s =
      Inv p s.core.audit
      × (s.comms.on_plan_received ≡ some (callback p fl cr fm cd tr interval js))
      × P s.comms.world

  abbrev IsWired : Client tr.State (Commanded H) → Type 0
  IsWired = Wired p cd tr (callback p fl cr fm cd tr interval js) P

  pub if-Holds :
      (b : Bool) (s t : Process Float tr.State H) → Holds s → Holds t → Holds (if b then s else t)
  if-Holds b s t v w = elim (Bool-cases b) [ inl e ↦ rw e v | inr e ↦ rw e w ]

  pub reconnect-Holds :
      (now : ℕ) (s : Process Float tr.State H)
      → Holds s
      → Holds (reconnect p fl cr fm cd tr interval js now s)
  unfolding reconnect
  reconnect-Holds now s (whole, calls, holds) =
      let (whole', calls', holds') =
        connect-Wired p cd tr (callback p fl cr fm cd tr interval js) P
          (with_log p fl cr fm cd tr interval js s.core.audit s.comms) (whole, calls, holds) in
      if-Holds (tr.is_connected s.comms.transport) _ _ (whole, calls, holds)
        (if-Holds _ _ _ (whole', calls', holds') (whole, calls, holds))

  forward-IsWired :
      (frames : List (TelemetryFrame Float)) (c : Client tr.State (Commanded H))
      → IsWired c
      → IsWired (forward p fl cr fm cd tr interval js frames c)
  unfolding on_telemetry
  forward-IsWired [] c v = v
  forward-IsWired (frame ∷ frames) c v =
      forward-IsWired frames _
        (send-Wired p cd tr (callback p fl cr fm cd tr interval js) P _ _ c v)

  pub tick_and_send-Holds :
      (i : Input Float) (s : Process Float tr.State H)
      → Holds s
      → Holds (tick_and_send p fl cr fm cd tr interval js i s)
  unfolding tick_and_send
  tick_and_send-Holds i s (whole, calls, holds) =
      let core = tick p fl i (record s.core { frames = [] }) in
      let (whole', calls', holds') =
        forward-IsWired core.frames (with_log p fl cr fm cd tr interval js core.audit s.comms)
          (tick-audit p fl i (record s.core { frames = [] }) whole, calls, holds) in
      (whole', calls', holds')
