-- ===== src/Fsw/Live.antt =====
-- flight/fsw_core.py: a core that runs outside CRITICAL goes on so, tick by tick.
use asterion_one.Base.{
  ℕ, String, ◌≤◌, ◌≡◌, refl, inl, inr, Bool, true, false, Option, none, some, List, [], ◌∷◌, ltb,
  ◌-◌, ◌+◌, arith, if◌then◌else◌, Bool-cases,
}
use asterion_one.Models.{FswState, boot, nominal, safe, critical}
use asterion_one.Audit.{Platform}
use asterion_one.Floats.{Floats}
use asterion_one.Fsw.State.{
  Core, Input, SelfTest, all_return, sensors_raise, audit_raises, queue_raises, Readings,
  Notification, watchdog,
}
use asterion_one.Fsw.Faults.{evaluate_faults, conditions_clear}
use asterion_one.Fsw.Changes.{transition_to, save_boot_counter, notified, state_code}
use asterion_one.Fsw.{
  run_self_test, do_boot, do_nominal, do_safe, do_safe_due, evaluate_recovery, emit_telemetry, tick,
  on_faults, timer_step, after_recovery, self_test_from, dispatch, watched,
}

abbrev pub is_critical : FswState → Bool
is_critical critical = true
is_critical _ = false

-- A core that runs, with no more restarts than are allowed.
pub record IsRunning {F : Type 0} (c : Core F) : Type 0 where
  pub runs : c.running ≡ true
  pub restarts : c.wd_restarts ≤ c.config.max_wd_restarts

-- It does so outside CRITICAL.
pub record IsLive {F : Type 0} (c : Core F) : Type 0 where
  pub is_running : IsRunning c
  pub not_critical : is_critical c.state ≡ false

module _ (p : Platform) (fl : Floats) where
  open fl use {Float}

  alike :
      {c : Core Float}
      → c.running ≡ true
      → c.wd_restarts ≤ c.config.max_wd_restarts
      → is_critical c.state ≡ false
      → IsLive c
  alike h k l = record { is_running = record { runs = h; restarts = k }; not_critical = l }

  if-IsLive : (b : Bool) (c d : Core Float) → IsLive c → IsLive d → IsLive (if b then c else d)
  if-IsLive b c d v w = elim (Bool-cases b) [ inl e ↦ rw e v | inr e ↦ rw e w ]

  pub transition_to-IsLive :
      (new : FswState) (reason : String) (c : Core Float)
      → is_critical new ≡ false
      → IsRunning c
      → IsLive (transition_to p fl new reason c)
  unfolding transition_to
  transition_to-IsLive new reason c h v =
      if-IsLive c.has_state_callback _ _ (alike v.runs v.restarts h) (alike v.runs v.restarts h)

  save_boot_counter-IsLive :
      (n : ℕ) (c : Core Float) → IsLive c → IsLive (save_boot_counter p fl n c)
  unfolding save_boot_counter
  save_boot_counter-IsLive n c v =
      if-IsLive c.boot_writable _ _ (alike v.is_running.runs v.is_running.restarts v.not_critical) v

  no_restarts-IsLive : (c : Core Float) → IsLive c → IsLive (record c { wd_restarts = 0 })
  no_restarts-IsLive c v = record {
    is_running = record { runs = v.is_running.runs; restarts = omega arith };
    not_critical = v.not_critical;
  }

  emit_telemetry-IsLive :
      (i : Input Float) (c : Core Float)
      → IsLive c
      → IsLive (emit_telemetry p fl i.readings i.now_emit c)
  unfolding emit_telemetry
  emit_telemetry-IsLive i c v = alike v.is_running.runs v.is_running.restarts v.not_critical

  -- The self-test changes nothing but the log.
  self_test_from-IsRunning :
      (t : SelfTest) (r : Readings Float) (c : Core Float)
      → IsRunning c
      → IsRunning (self_test_from p fl t r c).1
  self_test_from-IsRunning sensors_raise r c v = v
  self_test_from-IsRunning all_return r c v = record {
    runs = ground arith;
    restarts = ground arith;
  }
  self_test_from-IsRunning audit_raises r c v = record {
    runs = ground arith;
    restarts = ground arith;
  }
  self_test_from-IsRunning queue_raises r c v = record {
    runs = ground arith;
    restarts = ground arith;
  }

  do_boot-IsLive : (i : Input Float) (c : Core Float) → IsRunning c → IsLive (do_boot p fl i c)
  unfolding do_boot run_self_test
  do_boot-IsLive i c v =
      let (passed, tested) = self_test_from p fl i.self_test i.readings c in
      let w = self_test_from-IsRunning i.self_test i.readings c v in
      if-IsLive passed _ _
        (no_restarts-IsLive _ (
          save_boot_counter-IsLive 0 _
            (transition_to-IsLive nominal "Self-test passed, entering NOMINAL" tested refl w)))
        (transition_to-IsLive safe "Self-test failed, entering SAFE" tested refl w)

  on_faults-IsLive :
      (fs : List String) (i : Input Float) (c : Core Float)
      → IsLive c
      → IsLive (on_faults p fl fs i c)
  on_faults-IsLive [] i c v = emit_telemetry-IsLive i c v
  on_faults-IsLive (f ∷ fs) i c v =
      transition_to-IsLive safe _ (record c { active_faults = f ∷ fs }) refl
        (record { runs = v.is_running.runs; restarts = v.is_running.restarts })

  do_nominal-IsLive : (i : Input Float) (c : Core Float) → IsLive c → IsLive (do_nominal p fl i c)
  unfolding do_nominal
  do_nominal-IsLive i c v =
      on_faults-IsLive (evaluate_faults fl c.config i.readings) i
        (record c { last_sensors = i.readings })
        (alike v.is_running.runs v.is_running.restarts v.not_critical)

  timer_step-IsLive :
      (o : Option ℕ) (i : Input Float) (c : Core Float)
      → IsLive c
      → IsLive (timer_step p fl o i.now_recovery c).1
  timer_step-IsLive none i c v = alike v.is_running.runs v.is_running.restarts v.not_critical
  timer_step-IsLive (some t) i c v = v

  evaluate_recovery-IsLive :
      (i : Input Float) (c : Core Float)
      → IsLive c
      → IsLive (evaluate_recovery p fl i.readings i.now_recovery c).1
  unfolding evaluate_recovery
  evaluate_recovery-IsLive i c v = elim (Bool-cases (conditions_clear fl c.config i.readings)) [
    | inl e ↦ rw e (timer_step-IsLive c.stability_start i c v)
    | inr e ↦ rw e (alike v.is_running.runs v.is_running.restarts v.not_critical)
  ]

  after_recovery-IsLive :
      (r : Bool × Core Float) (i : Input Float) → IsLive r.1 → IsLive (after_recovery p fl r i)
  after_recovery-IsLive (true, c) i v = no_restarts-IsLive _ (
      save_boot_counter-IsLive 0 _ (
        transition_to-IsLive nominal _ (record c { active_faults = []; stability_start = none })
          refl (record { runs = v.is_running.runs; restarts = v.is_running.restarts })))
  after_recovery-IsLive (false, c) i v = emit_telemetry-IsLive i c v

  do_safe-IsLive : (i : Input Float) (c : Core Float) → IsLive c → IsLive (do_safe p fl i c)
  unfolding do_safe do_safe_due
  do_safe-IsLive i c v =
      let read : Core Float = record c { last_sensors = i.readings } in
      let within : ltb c.config.max_wd_restarts c.wd_restarts ≡ false =
        ground (arith, v.is_running.restarts) in
      let as_read : IsLive read = alike v.is_running.runs v.is_running.restarts v.not_critical in
      if-IsLive (ltb (i.now - c.last_telem_time) c.config.telemetry_rate_safe) _ _ v (
        rw within (
          after_recovery-IsLive (evaluate_recovery p fl i.readings i.now_recovery read) i
            (evaluate_recovery-IsLive i read as_read)))

  dispatch-IsLive :
      (s : FswState) (i : Input Float) (c : Core Float)
      → is_critical s ≡ false
      → IsLive c
      → IsLive (dispatch p fl s i c)
  dispatch-IsLive boot i c h v = do_boot-IsLive i c v.is_running
  dispatch-IsLive nominal i c h v = do_nominal-IsLive i c v
  dispatch-IsLive safe i c h v = do_safe-IsLive i c v
  dispatch-IsLive critical i c h v = cc

  notified-IsLive : (n : Notification) (c : Core Float) → IsLive c → IsLive (notified p fl n c)
  notified-IsLive n c v =
      if-IsLive c.has_sdnotify _ _ (alike v.is_running.runs v.is_running.restarts v.not_critical) v

  watched-IsLive : (s : FswState) (c : Core Float) → IsLive c → IsLive (watched p fl s c)
  watched-IsLive critical c v = v
  watched-IsLive boot c v = notified-IsLive watchdog c v
  watched-IsLive nominal c v = notified-IsLive watchdog c v
  watched-IsLive safe c v = notified-IsLive watchdog c v

  pub tick-IsLive : (i : Input Float) (c : Core Float) → IsLive c → IsLive (tick p fl i c)
  unfolding tick
  tick-IsLive i c v =
      let counted : Core Float = record c { tick_count = c.tick_count + 1 } in
      let done = dispatch p fl c.state i counted in
      let w =
        dispatch-IsLive c.state i counted v.not_critical
          (alike v.is_running.runs v.is_running.restarts v.not_critical) in
      watched-IsLive done.state (record done { sensor_state_code = state_code done.state })
        (alike w.is_running.runs w.is_running.restarts w.not_critical)
