-- ===== src/Flight/Commanding.antt =====
-- flight/__main__.py: plans, and the state of the core.
use asterion_one.Base.{
  ℕ, ◌≡◌, refl, ◌∙◌, inl, inr, Bool, true, false, ◌-◌, Option, none, some, [], leb, if◌then◌else◌,
  Bool-cases,
}
use asterion_one.Json.{Json}
use asterion_one.Models.{FswState}
use asterion_one.Audit.{Platform}
use asterion_one.Floats.{Floats}
use asterion_one.Crypto.{Crypto, Plan}
use asterion_one.Executor.{Executor, Formats, is_nominal}
use asterion_one.Executor.Gates.{execute_plan-verdict}
use asterion_one.Comms.Links.{Transport}
use asterion_one.Comms.State.{Codec}
use asterion_one.Comms.World.{Keeps, drain_receives-Wired}
use asterion_one.Fsw.State.{Readings, Input}
use asterion_one.Fsw.{stop}
use asterion_one.Fsw.Transitions.{next_state, state-tick}
use asterion_one.Flight.Whole.{IsWhole}
use asterion_one.Flight.Phases.{callback, Holds, reconnect-Holds, tick_and_send-Holds}
use asterion_one.Flight.{
  Commanded, Process, Round, plan_of, executed, on_plan, reconnect, tick_and_send, lent, drain,
  handle_signal, round,
}

-- Nothing has acted on what the handlers act on, and the handlers and keys are the same.
abbrev pub IsUntouched : {H : Type 0} → Executor H → Executor H → Type 0
IsUntouched x y = (y.world ≡ x.world) × (y.handlers ≡ x.handlers) × (y.crypto ≡ x.crypto)

module _ (p : Platform) (fl : Floats) (cr : Crypto) (fm : Formats) (cd : Codec) (tr : Transport)
    {H : Type 0} (interval : ℕ) (js : Readings fl.Float → Json) where
  open fl use {Float}

  -- A plan finds the core in this state, and leaves the executor alone.
  abbrev Held : FswState → Executor H → Commanded H → Type 0
  Held st x w = (w.fsw_state ≡ st) × IsUntouched x w.executor

  executed-Held :
      (st : FswState) (x : Executor H) (o : Option Plan) (w : Commanded H)
      → is_nominal st ≡ false
      → Held st x w
      → Held st x (executed p fl cr fm cd tr interval js o w).1
  executed-Held st x none w elsewhere v = v
  executed-Held st x (some plan) w elsewhere (same, (world, handlers, crypto)) =
      let (_, world', handlers', crypto') =
        execute_plan-verdict p cr fm plan w.fsw_state w.executor in
      (same, (world' ∙ rw (same, elsewhere) world, handlers' ∙ handlers, crypto' ∙ crypto))

  callback-Keeps :
      (st : FswState) (x : Executor H)
      → is_nominal st ≡ false
      → Keeps p cd tr (callback p fl cr fm cd tr interval js) (Held st x)
  unfolding on_plan
  callback-Keeps st x elsewhere j w v = executed-Held st x (plan_of j) w elsewhere v

  -- What the state machine sees of the core is not touched by a connection.
  next_state-reconnect :
      (now : ℕ) (i : Input Float) (s : Process Float tr.State H)
      → next_state fl i (reconnect p fl cr fm cd tr interval js now s).core ≡ next_state fl i s.core
  unfolding reconnect
  next_state-reconnect now i s = elim (Bool-cases (tr.is_connected s.comms.transport)) [
    | inl up ↦ rw up refl
    | inr down ↦ elim (Bool-cases (leb interval (now - s.last_connect_attempt))) [
      | inl due ↦ rw (down, due) refl
      | inr early ↦ rw (down, early) refl
    ]
  ]

  state-tick_and_send :
      (i : Input Float) (s : Process Float tr.State H)
      → (tick_and_send p fl cr fm cd tr interval js i s).core.state ≡ next_state fl i s.core
  unfolding tick_and_send
  state-tick_and_send i s = state-tick p fl i (record s.core { frames = [] })

  if-Untouched :
      (b : Bool) (st : FswState) (x : Executor H) (s t : Process Float tr.State H)
      → (s.core.state ≡ st) × IsUntouched x s.comms.world.executor
      → (t.core.state ≡ st) × IsUntouched x t.comms.world.executor
      → let r = if b then s else t in (r.core.state ≡ st) × IsUntouched x r.comms.world.executor
  if-Untouched b st x s t v w = elim (Bool-cases b) [ inl e ↦ rw e v | inr e ↦ rw e w ]

  drain-Untouched :
      (st : FswState) (x : Executor H) (s : Process Float tr.State H)
      → is_nominal st ≡ false
      → s.core.state ≡ st
      → Holds p fl cr fm cd tr interval js (λ w. IsUntouched x w.executor) s
      → let s' = drain p fl cr fm cd tr interval js s in
        (s'.core.state ≡ st) × IsUntouched x s'.comms.world.executor
  unfolding drain
  drain-Untouched st x s elsewhere same (whole, calls, untouched) =
      let (_, _, held) =
        drain_receives-Wired p cd tr (callback p fl cr fm cd tr interval js) (Held st x) 50
          (lent p fl cr fm cd tr interval js s) (callback-Keeps st x elsewhere)
          (whole, calls, (same, untouched)) in
      if-Untouched _ st x _ _ (same, held.1) (same, untouched)

  handle_signal-Untouched :
      (b : Bool) (st : FswState) (x : Executor H) (s : Process Float tr.State H)
      → (s.core.state ≡ st) × IsUntouched x s.comms.world.executor
      → let s' = handle_signal p fl cr fm cd tr interval js b s in
        (s'.core.state ≡ st) × IsUntouched x s'.comms.world.executor
  unfolding handle_signal stop
  handle_signal-Untouched true st x s v = v
  handle_signal-Untouched false st x s v = v

  -- In a process whose log is whole and whose client calls the executor, a round whose tick leads the
  -- state machine anywhere but to NOMINAL leaves the core there, and leaves the handlers' state, the
  -- handlers and the trusted keys alone, whatever plans and other messages the ground has sent.
  pub round-Untouched :
      (r : Round Float) (s : Process Float tr.State H)
      → IsWhole p fl cr fm cd tr interval js s
      → is_nominal (next_state fl r.input s.core) ≡ false
      → let s' = round p fl cr fm cd tr interval js r s in
        (s'.core.state ≡ next_state fl r.input s.core)
        × IsUntouched s.comms.world.executor s'.comms.world.executor
  unfolding round
  round-Untouched r s (whole, calls, _) elsewhere =
      let x = s.comms.world.executor in
      let P : Commanded H → Type 0 = λ w. IsUntouched x w.executor in
      let s1 = reconnect p fl cr fm cd tr interval js r.now s in
      let held = tick_and_send-Holds p fl cr fm cd tr interval js P r.input s1 (
        reconnect-Holds p fl cr fm cd tr interval js P r.now s
          (whole, calls, (refl, refl, refl))) in
      let same = state-tick_and_send r.input s1 ∙ next_state-reconnect r.now r.input s in
      handle_signal-Untouched r.signalled _ x _ (drain-Untouched _ x _ elsewhere same held)
