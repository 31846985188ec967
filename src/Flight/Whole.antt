-- ===== src/Flight/Whole.antt =====
-- flight/__main__.py: the audit log that the core, the client and the executor share.
use asterion_one.Base.{
  ℕ, refl, Bool, true, false, Option, none, some, List, [], ◌∷◌, String, if◌then◌else◌,
}
use asterion_one.Json.{Json}
use asterion_one.Audit.{Platform}
use asterion_one.Audit.Chain.{Inv}
use asterion_one.Floats.{Floats}
use asterion_one.Crypto.{Crypto, Plan}
use asterion_one.Executor.{Executor, Formats}
use asterion_one.Executor.Trail.{execute_plan-audit}
use asterion_one.Queue.{Queue}
use asterion_one.Comms.Links.{Transport}
use asterion_one.Comms.State.{Codec}
use asterion_one.Comms.World.{Keeps, disconnect-Wired, drain_receives-Wired}
use asterion_one.Fsw.State.{Readings, Core}
use asterion_one.Fsw.{stop}
use asterion_one.Fsw.Trail.{start-audit}
use asterion_one.Flight.Phases.{callback, Holds, if-Holds, reconnect-Holds, tick_and_send-Holds}
use asterion_one.Flight.{
  Commanded, Process, Round, plan_of, executed, on_plan, with_log, lent, drain, wired,
  handle_signal, round, loop, finish, main,
}

module _ (p : Platform) (fl : Floats) (cr : Crypto) (fm : Formats) (cd : Codec) (tr : Transport)
    {H : Type 0} (interval : ℕ) (js : Readings fl.Float → Json) where
  open fl use {Float}

  abbrev Logged : Commanded H → Type 0
  Logged w = Inv p w.executor.audit

  executed-Logged :
      (o : Option Plan) (w : Commanded H)
      → Logged w
      → Logged (executed p fl cr fm cd tr interval js o w).1
  executed-Logged none w v = v
  executed-Logged (some plan) w v = execute_plan-audit p cr fm plan w.fsw_state w.executor v

  callback-Keeps : Keeps p cd tr (callback p fl cr fm cd tr interval js) Logged
  unfolding on_plan
  callback-Keeps j w v = executed-Logged (plan_of j) w v

  -- The log is whole, and the client calls the executor.
  abbrev pub IsWhole : Process Float tr.State H → Type 0
  IsWhole = Holds p fl cr fm cd tr interval js (λ w. Unit)

  if-IsWhole :
      (b : Bool) (s t : Process Float tr.State H)
      → IsWhole s
      → IsWhole t
      → IsWhole (if b then s else t)
  if-IsWhole = if-Holds p fl cr fm cd tr interval js (λ w. Unit)

  drain-IsWhole :
      (s : Process Float tr.State H) → IsWhole s → IsWhole (drain p fl cr fm cd tr interval js s)
  unfolding drain
  drain-IsWhole s (whole, calls, _) =
      let (_, calls', whole') =
        drain_receives-Wired p cd tr (callback p fl cr fm cd tr interval js) Logged 50
          (lent p fl cr fm cd tr interval js s) callback-Keeps (whole, calls, whole) in
      if-IsWhole _ _ _ (whole', calls', tt) (whole, calls, tt)

  handle_signal-IsWhole :
      (b : Bool) (s : Process Float tr.State H)
      → IsWhole s
      → IsWhole (handle_signal p fl cr fm cd tr interval js b s)
  unfolding handle_signal stop
  handle_signal-IsWhole true s v = v
  handle_signal-IsWhole false s v = v

  loop-IsWhole :
      (rs : List (Round Float)) (s : Process Float tr.State H)
      → IsWhole s
      → IsWhole (loop p fl cr fm cd tr interval js rs s)
  unfolding loop round
  loop-IsWhole [] s v = v
  loop-IsWhole (r ∷ rs) s v =
      if-IsWhole _ _ _
        (loop-IsWhole rs _ (
          handle_signal-IsWhole r.signalled _ (
            drain-IsWhole _ (
              tick_and_send-Holds p fl cr fm cd tr interval js (λ w. Unit) r.input _
                (reconnect-Holds p fl cr fm cd tr interval js (λ w. Unit) r.now s v)))))
        v

  finish-IsWhole :
      (s : Process Float tr.State H) → IsWhole s → IsWhole (finish p fl cr fm cd tr interval js s)
  unfolding finish
  finish-IsWhole s (whole, calls, _) =
      let (whole', calls', _) =
        disconnect-Wired p cd tr (callback p fl cr fm cd tr interval js) (λ w. Unit)
          (with_log p fl cr fm cd tr interval js s.core.audit s.comms) (whole, calls, tt) in
      if-IsWhole _ _ _ (whole', calls', tt) (whole, calls, tt)

  -- Whatever the environment, the sensors, the clock, the transport and the ground do, the process
  -- leaves the audit log, to which the core, the client and the executor write in turn, with a whole
  -- hash chain and the pointer at its end, if it was so at the start.
  pub main-audit :
      (recovery_mode : String) (rounds : List (Round Float)) (core : Core Float)
      (transport : tr.State) (queue : Queue) (executor : Executor H)
      → Inv p core.audit
      → Inv p
          (main p fl cr fm cd tr interval js recovery_mode rounds
            (wired p fl cr fm cd tr interval js core transport queue executor)).core.audit
  unfolding main
  main-audit recovery_mode rounds core transport queue executor whole =
      (finish-IsWhole _
        (loop-IsWhole rounds _ (start-audit p fl recovery_mode _ whole, refl, tt))).0
