-- ===== src/Fsw/Telemetry.antt =====
-- flight/fsw_core.py: the telemetry of the ticks.
use asterion_one.Base.{
  ℕ, String, Bool-cases, ap, ◌∙◌, inl, inr, ◌+◌, ◌-◌, ◌≡◌, refl, Bool, true, false, not, ◌&&◌, List,
  [], ◌∷◌, ◌++◌, ltb, arith, if◌then◌else◌,
}
use asterion_one.Models.{FswState, boot, nominal, safe, critical}
use asterion_one.Audit.{Platform}
use asterion_one.Floats.{Floats}
use asterion_one.Fsw.State.{
  Core, Input, TelemetryFrame, Readings, SelfTest, all_return, sensors_raise, audit_raises,
  queue_raises,
}
use asterion_one.Fsw.Faults.{evaluate_faults, conditions_clear}
use asterion_one.Fsw.Transitions.{has_waited, FswState-cases}
use asterion_one.Fsw.Changes.{transition_to, save_boot_counter, state_code}
use asterion_one.Fsw.{
  run_self_test, do_boot, do_nominal, do_safe, do_safe_due, do_critical, evaluate_recovery,
  emit_telemetry, tick, watched, dispatch, self_test_from,
}

module _ (fl : Floats) where
  open fl use {Float}

  -- When the state machine on paper sends a frame.
  abbrev pub emits : Input Float → Core Float → Bool
  emits i c = elim c.state [
    | nominal ↦ elim (evaluate_faults fl c.config i.readings) [ [] ↦ true | _ ∷ _ ↦ false ]
    | safe ↦
        not (ltb (i.now - c.last_telem_time) c.config.telemetry_rate_safe)
        && (not (ltb c.config.max_wd_restarts c.wd_restarts)
            && not (
                conditions_clear fl c.config i.readings
                && has_waited c.stability_start c.config.stability_timer i.now_recovery))
    | _ ↦ false
  ]

-- What the telemetry has come to.
abbrev sent : {F : Type 0} → Core F → List (TelemetryFrame F) × ℕ × ℕ
sent c = (c.frames, c.telem_seq_id, c.last_telem_time)

module _ (p : Platform) (fl : Floats) where
  open fl use {Float}

  if-sent :
      (b : Bool) (c d : Core Float) (e : Core Float)
      → sent c ≡ sent e
      → sent d ≡ sent e
      → sent (if b then c else d) ≡ sent e
  if-sent b c d e h k = elim (Bool-cases b) [ inl t ↦ rw t h | inr f ↦ rw f k ]

  transition_to-sent :
      (new : FswState) (reason : String) (c : Core Float)
      → sent (transition_to p fl new reason c) ≡ sent c
  unfolding transition_to
  transition_to-sent new reason c = if-sent c.has_state_callback _ _ c refl refl

  save_boot_counter-sent : (n : ℕ) (c : Core Float) → sent (save_boot_counter p fl n c) ≡ sent c
  unfolding save_boot_counter
  save_boot_counter-sent n c = if-sent c.boot_writable _ _ c refl refl

  self_test_from-sent :
      (t : SelfTest) (r : Readings Float) (c : Core Float)
      → sent (self_test_from p fl t r c).1 ≡ sent c
  self_test_from-sent sensors_raise r c = refl
  self_test_from-sent all_return r c = ground arith
  self_test_from-sent audit_raises r c = ground arith
  self_test_from-sent queue_raises r c = ground arith

  run_self_test-sent : (i : Input Float) (c : Core Float) → sent (run_self_test p fl i c).1 ≡ sent c
  unfolding run_self_test
  run_self_test-sent i c = self_test_from-sent i.self_test i.readings c

  do_boot-sent : (i : Input Float) (c : Core Float) → sent (do_boot p fl i c) ≡ sent c
  unfolding do_boot
  do_boot-sent i c =
      let (passed, tested) = run_self_test p fl i c in
      if-sent passed _ _ c
        (save_boot_counter-sent 0
            (transition_to p fl nominal "Self-test passed, entering NOMINAL" tested)
          ∙ transition_to-sent nominal "Self-test passed, entering NOMINAL" tested
          ∙ run_self_test-sent i c)
        (transition_to-sent safe "Self-test failed, entering SAFE" tested ∙ run_self_test-sent i c)

  dispatch-boot_sent :
      (s : FswState) (i : Input Float) (c : Core Float)
      → s ≡ boot
      → sent (dispatch p fl s i c) ≡ sent c
  dispatch-boot_sent s i c h = rw h (do_boot-sent i c)

  watched-sent : (s : FswState) (c : Core Float) → sent (watched p fl s c) ≡ sent c
  watched-sent critical c = refl
  watched-sent boot c = if-sent c.has_sdnotify _ _ c refl refl
  watched-sent nominal c = if-sent c.has_sdnotify _ _ c refl refl
  watched-sent safe c = if-sent c.has_sdnotify _ _ c refl refl

module _ (p : Platform) (fl : Floats) (i : Input fl.Float) (c : Core fl.Float) where
  -- What the frame of this tick ought to hold.
  abbrev pub due_frame : TelemetryFrame fl.Float
  due_frame = record {
    seq_id = c.telem_seq_id + 1;
    timestamp = p.utc_now c.audit.readings;
    fsw_state = c.state;
    subsystems = i.readings;
  }

  abbrev pub Sends : Type 0
  Sends =
      ((tick p fl i c).frames ≡ (if emits fl i c then c.frames ++ due_frame ∷ [] else c.frames))
      × ((tick p fl i c).telem_seq_id
          ≡ (if emits fl i c then c.telem_seq_id + 1 else c.telem_seq_id))
      × ((tick p fl i c).last_telem_time ≡ (if emits fl i c then i.now_emit else c.last_telem_time))

  emits-boot : c.state ≡ boot → emits fl i c ≡ false
  emits-boot h = rw h refl

  tick-sends_boot : c.has_telemetry_callback ≡ true → c.state ≡ boot → Sends
  unfolding tick
  tick-sends_boot k h =
      let counted : Core fl.Float = record c { tick_count = c.tick_count + 1 } in
      let done = dispatch p fl c.state i counted in
      let same =
        watched-sent p fl done.state (record done { sensor_state_code = state_code done.state })
        ∙ dispatch-boot_sent p fl c.state i counted h in
      rw (emits-boot h) (ap (λ s. s.0) same, ap (λ s. s.1) same, ap (λ s. s.2) same)

  tick-sends_nominal : c.has_telemetry_callback ≡ true → c.state ≡ nominal → Sends
  unfolding tick do_nominal transition_to emit_telemetry
  tick-sends_nominal k h = (ground arith, ground arith, ground arith)

  tick-sends_safe : c.has_telemetry_callback ≡ true → c.state ≡ safe → Sends
  unfolding tick do_safe do_safe_due evaluate_recovery transition_to emit_telemetry
      save_boot_counter
  tick-sends_safe k h = (ground arith, ground arith, ground arith)

  tick-sends_critical : c.has_telemetry_callback ≡ true → c.state ≡ critical → Sends
  unfolding tick do_critical
  tick-sends_critical k h = (ground arith, ground arith, ground arith)

-- With a telemetry callback, a tick sends one frame or none: in NOMINAL without a fault, and in SAFE
-- once the rate limit lets the tick through and it neither escalates nor recovers. The frame has the
-- next number, the wall clock's time, the state before the tick and the tick's readings; the number and the time of the
-- last frame move with it alone.
pub tick-sends :
    (p : Platform) (fl : Floats) (i : Input fl.Float) (c : Core fl.Float)
    → c.has_telemetry_callback ≡ true
    → Sends p fl i c
tick-sends p fl i c k = elim (FswState-cases c.state) [
  | inl e ↦ tick-sends_boot p fl i c k e
  | inr (inl e) ↦ tick-sends_nominal p fl i c k e
  | inr (inr (inl e)) ↦ tick-sends_safe p fl i c k e
  | inr (inr (inr e)) ↦ tick-sends_critical p fl i c k e
]
