-- ===== src/Fsw/Trail.antt =====
-- flight/fsw_core.py: the audit trail that the ticks write.
use asterion_one.Base.{
  ℕ, String, Bool-cases, inl, inr, ◌+◌, ◌-◌, Bool, true, false, Option, none, some, List, [], ◌∷◌,
  ltb, ◌==◌, str_eq, if◌then◌else◌, length,
}
use asterion_one.Json.{Fields}
use asterion_one.Models.{Severity, FswState, boot, nominal, safe, critical}
use asterion_one.Audit.{Platform, Logger, log, read_clock}
use asterion_one.Audit.Chain.{Inv, log-Inv}
use asterion_one.Floats.{Floats}
use asterion_one.Fsw.State.{
  Core, Input, Readings, Notification, ready, SelfTest, all_return, sensors_raise, audit_raises,
  queue_raises,
}
use asterion_one.Fsw.Faults.{evaluate_faults, conditions_clear}
use asterion_one.Fsw.Changes.{transition_to, save_boot_counter, audited, notified}
use asterion_one.Fsw.{
  run_self_test, do_boot, do_nominal, do_safe, do_safe_due, do_critical, evaluate_recovery,
  emit_telemetry, tick, watched, dispatch, on_faults, timer_step, after_recovery, self_test_from,
  self_test_calls, start, start_recovery, start_normal,
}

-- A property of a log that entries and readings of the clock keep.
pub record IsKept (p : Platform) (Q : Logger → Type 0) : Type 0 where
  pub by_log :
      (event_type : String) (severity : Severity) (description : String) (metadata : Fields)
      (l : Logger)
      → Q l
      → Q (log p event_type severity description metadata l).1
  pub by_clock : (l : Logger) → Q l → Q (read_clock l)

module _ (p : Platform) (fl : Floats) (Q : Logger → Type 0) (kept : IsKept p Q) where
  open fl use {Float}

  -- The audit trail of a core has the property.
  abbrev IsAudited : Core Float → Type 0
  IsAudited c = Q c.audit

  if-IsAudited :
      (b : Bool) (c d : Core Float) → IsAudited c → IsAudited d → IsAudited (if b then c else d)
  if-IsAudited b c d v w = elim (Bool-cases b) [ inl e ↦ rw e v | inr e ↦ rw e w ]

  audited-IsAudited :
      (event_type : String) (severity : Severity) (description : String) (metadata : Fields)
      (c : Core Float)
      → IsAudited c
      → IsAudited (audited p fl event_type severity description metadata c)
  audited-IsAudited event_type severity description metadata c v =
      kept.by_log event_type severity description metadata c.audit v

  transition_to-IsAudited :
      (new : FswState) (reason : String) (c : Core Float)
      → IsAudited c
      → IsAudited (transition_to p fl new reason c)
  unfolding transition_to
  transition_to-IsAudited new reason c v =
      let logged =
        audited-IsAudited _ _ _ _ (record c { prev_state = some c.state; state = new }) v in
      if-IsAudited c.has_state_callback _ _ logged logged

  save_boot_counter-IsAudited :
      (n : ℕ) (c : Core Float) → IsAudited c → IsAudited (save_boot_counter p fl n c)
  unfolding save_boot_counter
  save_boot_counter-IsAudited n c v = if-IsAudited c.boot_writable _ _ v v

  self_test_calls-IsAudited :
      (t : SelfTest) (c : Core Float) → IsAudited c → IsAudited (self_test_calls p fl t c).1
  self_test_calls-IsAudited audit_raises c v = v
  self_test_calls-IsAudited queue_raises c v = audited-IsAudited _ _ _ _ c v
  self_test_calls-IsAudited all_return c v = audited-IsAudited _ _ _ _ c v
  self_test_calls-IsAudited sensors_raise c v = audited-IsAudited _ _ _ _ c v

  gated-IsAudited :
      (b : Bool) (t : SelfTest) (c : Core Float)
      → IsAudited c
      → IsAudited (if b then self_test_calls p fl t c else (false, c)).1
  gated-IsAudited b t c v = elim (Bool-cases b) [
    | inl e ↦ rw e (self_test_calls-IsAudited t c v)
    | inr e ↦ rw e v
  ]

  self_test_from-IsAudited :
      (t : SelfTest) (r : Readings Float) (c : Core Float)
      → IsAudited c
      → IsAudited (self_test_from p fl t r c).1
  self_test_from-IsAudited sensors_raise r c v = v
  self_test_from-IsAudited all_return r c v = gated-IsAudited (length r == 5) all_return c v
  self_test_from-IsAudited audit_raises r c v = gated-IsAudited (length r == 5) audit_raises c v
  self_test_from-IsAudited queue_raises r c v = gated-IsAudited (length r == 5) queue_raises c v

  run_self_test-IsAudited :
      (i : Input Float) (c : Core Float) → IsAudited c → IsAudited (run_self_test p fl i c).1
  unfolding run_self_test
  run_self_test-IsAudited i c v = self_test_from-IsAudited i.self_test i.readings c v

  emit_telemetry-IsAudited :
      (i : Input Float) (c : Core Float)
      → IsAudited c
      → IsAudited (emit_telemetry p fl i.readings i.now_emit c)
  unfolding emit_telemetry
  emit_telemetry-IsAudited i c v = kept.by_clock c.audit v

  do_boot-IsAudited :
      (i : Input Float) (c : Core Float) → IsAudited c → IsAudited (do_boot p fl i c)
  unfolding do_boot
  do_boot-IsAudited i c v =
      let (passed, tested) = run_self_test p fl i c in
      let w = run_self_test-IsAudited i c v in
      if-IsAudited passed _ _
        (save_boot_counter-IsAudited 0 _ (transition_to-IsAudited nominal _ tested w))
        (transition_to-IsAudited safe _ tested w)

  on_faults-IsAudited :
      (fs : List String) (i : Input Float) (c : Core Float)
      → IsAudited c
      → IsAudited (on_faults p fl fs i c)
  on_faults-IsAudited [] i c v = emit_telemetry-IsAudited i c v
  on_faults-IsAudited (f ∷ fs) i c v =
      transition_to-IsAudited safe _ (record c { active_faults = f ∷ fs }) v

  do_nominal-IsAudited :
      (i : Input Float) (c : Core Float) → IsAudited c → IsAudited (do_nominal p fl i c)
  unfolding do_nominal
  do_nominal-IsAudited i c v =
      on_faults-IsAudited (evaluate_faults fl c.config i.readings) i
        (record c { last_sensors = i.readings }) v

  timer_step-IsAudited :
      (o : Option ℕ) (i : Input Float) (c : Core Float)
      → IsAudited c
      → IsAudited (timer_step p fl o i.now_recovery c).1
  timer_step-IsAudited none i c v = v
  timer_step-IsAudited (some t) i c v = v

  evaluate_recovery-IsAudited :
      (i : Input Float) (c : Core Float)
      → IsAudited c
      → IsAudited (evaluate_recovery p fl i.readings i.now_recovery c).1
  unfolding evaluate_recovery
  evaluate_recovery-IsAudited i c v = elim (Bool-cases (conditions_clear fl c.config i.readings)) [
    | inl e ↦ rw e (timer_step-IsAudited c.stability_start i c v)
    | inr e ↦ rw e v
  ]

  after_recovery-IsAudited :
      (r : Bool × Core Float) (i : Input Float)
      → IsAudited r.1
      → IsAudited (after_recovery p fl r i)
  after_recovery-IsAudited (true, c) i v = save_boot_counter-IsAudited 0 _ (
      transition_to-IsAudited nominal _ (record c { active_faults = []; stability_start = none }) v)
  after_recovery-IsAudited (false, c) i v = emit_telemetry-IsAudited i c v

  do_safe-IsAudited :
      (i : Input Float) (c : Core Float) → IsAudited c → IsAudited (do_safe p fl i c)
  unfolding do_safe do_safe_due
  do_safe-IsAudited i c v =
      let read : Core Float = record c { last_sensors = i.readings } in
      if-IsAudited (ltb (i.now - c.last_telem_time) c.config.telemetry_rate_safe) _ _ v (
        if-IsAudited (ltb c.config.max_wd_restarts c.wd_restarts) _ _
          (transition_to-IsAudited critical _ read v)
          (after_recovery-IsAudited (evaluate_recovery p fl i.readings i.now_recovery read) i
            (evaluate_recovery-IsAudited i read v)))

  do_critical-IsAudited :
      (i : Input Float) (c : Core Float) → IsAudited c → IsAudited (do_critical p fl i c)
  unfolding do_critical
  do_critical-IsAudited i c v = if-IsAudited c.running _ _ (audited-IsAudited _ _ _ _ c v) v

  dispatch-IsAudited :
      (s : FswState) (i : Input Float) (c : Core Float)
      → IsAudited c
      → IsAudited (dispatch p fl s i c)
  dispatch-IsAudited boot i c v = do_boot-IsAudited i c v
  dispatch-IsAudited nominal i c v = do_nominal-IsAudited i c v
  dispatch-IsAudited safe i c v = do_safe-IsAudited i c v
  dispatch-IsAudited critical i c v = do_critical-IsAudited i c v

  watched-IsAudited : (s : FswState) (c : Core Float) → IsAudited c → IsAudited (watched p fl s c)
  watched-IsAudited critical c v = v
  watched-IsAudited boot c v = if-IsAudited c.has_sdnotify _ _ v v
  watched-IsAudited nominal c v = if-IsAudited c.has_sdnotify _ _ v v
  watched-IsAudited safe c v = if-IsAudited c.has_sdnotify _ _ v v

  pub tick-IsAudited : (i : Input Float) (c : Core Float) → Q c.audit → Q (tick p fl i c).audit
  unfolding tick
  tick-IsAudited i c v =
      watched-IsAudited _ _
        (dispatch-IsAudited c.state i (record c { tick_count = c.tick_count + 1 }) v)

  notified-IsAudited :
      (n : Notification) (c : Core Float) → IsAudited c → IsAudited (notified p fl n c)
  notified-IsAudited n c v = if-IsAudited c.has_sdnotify _ _ v v

  start_recovery-IsAudited :
      (n : ℕ) (c : Core Float) → IsAudited c → IsAudited (start_recovery p fl n c)
  unfolding start_recovery
  start_recovery-IsAudited n c v =
      let saved = save_boot_counter-IsAudited n (record c { wd_restarts = n }) v in
      if-IsAudited (ltb c.config.max_wd_restarts n) _ _ (transition_to-IsAudited critical _ _ saved)
        (notified-IsAudited ready _ (transition_to-IsAudited safe _ _ saved))

  start_normal-IsAudited : (c : Core Float) → IsAudited c → IsAudited (start_normal p fl c)
  unfolding start_normal
  start_normal-IsAudited c v =
      notified-IsAudited ready _
        (transition_to-IsAudited boot _ _ (save_boot_counter-IsAudited 0 c v))

  pub start-IsAudited :
      (recovery_mode : String) (c : Core Float) → Q c.audit → Q (start p fl recovery_mode c).audit
  unfolding start
  start-IsAudited recovery_mode c v =
      if-IsAudited (str_eq recovery_mode "SAFE") _ _ (start_recovery-IsAudited _ c v)
        (start_normal-IsAudited c v)

pub Inv-IsKept : (p : Platform) → IsKept p (Inv p)
Inv-IsKept p = record {
  by_log = λ event_type severity description metadata l v.
      (log-Inv p event_type severity description metadata l v).0;
  by_clock = λ l v. record { chained = v.chained; pointed = v.pointed };
}

module _ (p : Platform) (fl : Floats) where
  open fl use {Float}

  -- Whatever state and input a tick has, what it writes to the audit log keeps the hash chain whole
  -- and the logger's pointer at its end.
  pub tick-audit : (i : Input Float) (c : Core Float) → Inv p c.audit → Inv p (tick p fl i c).audit
  tick-audit = tick-IsAudited p fl (Inv p) (Inv-IsKept p)

  pub start-audit :
      (recovery_mode : String) (c : Core Float)
      → Inv p c.audit
      → Inv p (start p fl recovery_mode c).audit
  start-audit = start-IsAudited p fl (Inv p) (Inv-IsKept p)
