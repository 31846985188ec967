-- ===== src/Fsw/Stability.antt =====
-- flight/fsw_core.py: the stability timer, over every run of ticks.
use mathlib.Core.Path.{subst}
use asterion_one.Base.{
  ℕ, ◌-◌, ◌≤◌, ◌≡◌, refl, sym, ◌∙◌, ap, ◌⊎◌, inl, inr, Bool, true, false, not, ◌&&◌, Option, none,
  some, List, [], ◌∷◌, ltb, leb, arith, if◌then◌else◌, Option-cases,
}
use asterion_one.Models.{FswState, boot, nominal, safe}
use asterion_one.Audit.{Platform}
use asterion_one.Floats.{Floats}
use asterion_one.Fsw.State.{Config, Core, Input}
use asterion_one.Fsw.Faults.{conditions_clear}
use asterion_one.Fsw.Transitions.{state-tick}
use asterion_one.Fsw.Changes.{transition_to, save_boot_counter}
use asterion_one.Fsw.{
  run_self_test, do_boot, do_nominal, do_safe, do_safe_due, do_critical, evaluate_recovery,
  emit_telemetry, tick,
}

abbrev is_safe : FswState → Bool
is_safe safe = true
is_safe _ = false

abbrev is_active : FswState → Bool
is_active boot = true
is_active nominal = true
is_active _ = false

module _ (fl : Floats) where
  open fl use {Float}

  -- A tick in SAFE that gets as far as the recovery conditions.
  abbrev evaluates : Input Float → Core Float → Bool
  evaluates i c =
      is_safe c.state
      && (not (ltb (i.now - c.last_telem_time) c.config.telemetry_rate_safe)
          && not (ltb c.config.max_wd_restarts c.wd_restarts))

  -- The evaluations of the present stay in SAFE, the latest first.
  abbrev pub next_history : Input Float → Core Float → List (Input Float) → List (Input Float)
  next_history i c h = if evaluates i c then i ∷ h else if is_safe c.state then h else []

  -- The latest evaluations were all clear, back to one at time `t`.
  abbrev pub ClearSince : Config Float → ℕ → List (Input Float) → Type 0
  ClearSince cfg t [] = ⊥
  ClearSince cfg t (i ∷ h) =
      (conditions_clear fl cfg i.readings ≡ true) × ((i.now_recovery ≡ t) ⊎ ClearSince cfg t h)

  abbrev timer_after : Input Float → Core Float → Option ℕ
  timer_after i c =
      if conditions_clear fl c.config i.readings
      then (elim c.stability_start [
        | none ↦ some i.now_recovery
        | some t ↦ if leb c.config.stability_timer (i.now_recovery - t) then none else some t
      ])
      else none

module _ (p : Platform) (fl : Floats) where
  open fl use {Float}

  stability_start-tick :
      (i : Input Float) (c : Core Float)
      → (tick p fl i c).stability_start
        ≡ (if evaluates fl i c then timer_after fl i c else c.stability_start)
  unfolding tick do_boot run_self_test do_nominal do_safe do_safe_due do_critical evaluate_recovery
      transition_to emit_telemetry save_boot_counter
  stability_start-tick i c = ground arith

  config-tick : (i : Input Float) (c : Core Float) → (tick p fl i c).config ≡ c.config
  unfolding tick do_boot run_self_test do_nominal do_safe do_safe_due do_critical evaluate_recovery
      transition_to emit_telemetry save_boot_counter
  config-tick i c = ground arith

  -- Any number of ticks from a core, with the evaluations of the present stay in SAFE.
  pub data Ticks (first : Core Float) : Core Float → List (Input Float) → Type 0 where
    here : Ticks first first []
    more :
        {c : Core Float} {h : List (Input Float)} (i : Input Float)
        → Ticks first c h
        → Ticks first (tick p fl i c) (next_history fl i c h)

  record Inv (cfg : Config Float) (c : Core Float) (h : List (Input Float)) : Type 0 where
    kept : c.config ≡ cfg
    idle : is_active c.state ≡ true → c.stability_start ≡ none
    since : (t : ℕ) → c.stability_start ≡ some t → is_safe c.state ≡ true → ClearSince fl cfg t h

  tick-idle :
      (i : Input Float) (c : Core Float)
      → (is_active c.state ≡ true → c.stability_start ≡ none)
      → is_active (tick p fl i c).state ≡ true
      → (tick p fl i c).stability_start ≡ none
  tick-idle i c idle h = ground (arith, state-tick p fl i c, stability_start-tick i c)

  tick-since :
      (i : Input Float) (c : Core Float) (h : List (Input Float)) (t : ℕ)
      → (is_active c.state ≡ true → c.stability_start ≡ none)
      → ((u : ℕ) → c.stability_start ≡ some u → is_safe c.state ≡ true → ClearSince fl c.config u h)
      → (tick p fl i c).stability_start ≡ some t
      → is_safe (tick p fl i c).state ≡ true
      → ClearSince fl c.config t (next_history fl i c h)
  tick-since i c h t idle since e s =
      ground (arith, state-tick p fl i c, stability_start-tick i c, since t)

  tick-Inv :
      (cfg : Config Float) (i : Input Float) (c : Core Float) (h : List (Input Float))
      → Inv cfg c h
      → Inv cfg (tick p fl i c) (next_history fl i c h)
  tick-Inv cfg i c h v = record {
    kept = config-tick i c ∙ v.kept;
    idle = tick-idle i c v.idle;
    since = λ t e s.
        subst (λ k. ClearSince fl k t (next_history fl i c h)) v.kept
          (tick-since i c h t v.idle
            (λ u f g. subst (λ k. ClearSince fl k u h) (sym v.kept) (v.since u f g)) e s);
  }

  Ticks-Inv :
      {first c : Core Float} {h : List (Input Float)}
      → first.stability_start ≡ none
      → Ticks first c h
      → Inv first.config c h
  Ticks-Inv e here = record { kept = refl; idle = λ a. e; since = λ t f s. cc }
  Ticks-Inv e (more i r) = tick-Inv _ i _ _ (Ticks-Inv e r)

  recovery-step :
      (cfg : Config Float) (i : Input Float) (c : Core Float) (h : List (Input Float)) (t : ℕ)
      → c.config ≡ cfg
      → c.state ≡ safe
      → c.stability_start ≡ some t
      → (tick p fl i c).state ≡ nominal
      → ClearSince fl cfg t h
      → (cfg.stability_timer ≤ i.now_recovery - t) × ClearSince fl cfg t (next_history fl i c h)
  recovery-step cfg i c h t k s e n before =
      (ground (arith, state-tick p fl i c), ground (arith, state-tick p fl i c))

  -- When a run that began with the timer off recovers from SAFE to NOMINAL, the readings of this
  -- stay in SAFE were evaluated as clear at some time, at least the stability time ago, and at
  -- every evaluation from then on, the present one included.
  pub recovery_is_stable :
      (first c : Core Float) (h : List (Input Float)) (i : Input Float)
      → first.stability_start ≡ none
      → Ticks first c h
      → c.state ≡ safe
      → (tick p fl i c).state ≡ nominal
      → (t : ℕ) × (first.config.stability_timer ≤ i.now_recovery - t)
        × ClearSince fl first.config t (next_history fl i c h)
  recovery_is_stable first c h i off r s n =
      let v = Ticks-Inv off r in
      elim (Option-cases c.stability_start) [
        | inl none_yet ↦ absurd (ground (arith, state-tick p fl i c))
        | inr (t, e) ↦
            let (waited, last) =
              recovery-step first.config i c h t v.kept s e n (v.since t e (ap is_safe s)) in
            (t, waited, last)
      ]
