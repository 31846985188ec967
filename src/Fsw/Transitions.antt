-- ===== src/Fsw/Transitions.antt =====
-- flight/fsw_core.py: which state each tick leads to.
use asterion_one.Base.{
  ℕ, ◌-◌, ◌≡◌, refl, ◌⊎◌, inl, inr, Bool, true, false, ◌&&◌, Option, none, some, [], ◌∷◌, ltb, leb,
  ◌==◌, length, arith, if◌then◌else◌,
}
use asterion_one.Models.{FswState, boot, nominal, safe, critical}
use asterion_one.Audit.{Platform}
use asterion_one.Floats.{Floats}
use asterion_one.Fsw.State.{Core, all_return, Input}
use asterion_one.Fsw.Faults.{evaluate_faults, conditions_clear}
use asterion_one.Fsw.Changes.{transition_to, save_boot_counter}
use asterion_one.Fsw.{
  run_self_test, do_boot, do_nominal, do_safe, do_safe_due, do_critical, evaluate_recovery,
  emit_telemetry, tick,
}

abbrev pub has_waited : Option ℕ → ℕ → ℕ → Bool
has_waited none timer now = false
has_waited (some since) timer now = leb timer (now - since)

module _ (fl : Floats) where
  open fl use {Float}

  abbrev passes_self_test : Input Float → Bool
  passes_self_test i =
      length i.readings == 5 && (elim i.self_test [ all_return ↦ true | _ ↦ false ])

  -- The state machine on paper.
  abbrev pub next_state : Input Float → Core Float → FswState
  next_state i c = elim c.state [
    | boot ↦ if passes_self_test i then nominal else safe
    | nominal ↦ elim (evaluate_faults fl c.config i.readings) [ [] ↦ nominal | _ ∷ _ ↦ safe ]
    | safe ↦
        if ltb (i.now - c.last_telem_time) c.config.telemetry_rate_safe
        then safe
        else if ltb c.config.max_wd_restarts c.wd_restarts
        then critical
        else if conditions_clear fl c.config i.readings
            && has_waited c.stability_start c.config.stability_timer i.now_recovery
        then nominal
        else safe
    | critical ↦ critical
  ]

module _ (p : Platform) (fl : Floats) (i : Input fl.Float) (c : Core fl.Float) where
  tick-boot : c.state ≡ boot → (tick p fl i c).state ≡ next_state fl i c
  unfolding tick do_boot run_self_test transition_to save_boot_counter
  tick-boot h = ground arith

  tick-nominal : c.state ≡ nominal → (tick p fl i c).state ≡ next_state fl i c
  unfolding tick do_nominal transition_to emit_telemetry
  tick-nominal h = ground arith

  tick-safe : c.state ≡ safe → (tick p fl i c).state ≡ next_state fl i c
  unfolding tick do_safe do_safe_due evaluate_recovery transition_to emit_telemetry
      save_boot_counter
  tick-safe h = ground arith

  tick-critical : c.state ≡ critical → (tick p fl i c).state ≡ next_state fl i c
  unfolding tick do_critical
  tick-critical h = ground arith

pub FswState-cases : (s : FswState) → (s ≡ boot) ⊎ (s ≡ nominal) ⊎ (s ≡ safe) ⊎ (s ≡ critical)
FswState-cases boot = inl refl
FswState-cases nominal = inr (inl refl)
FswState-cases safe = inr (inr (inl refl))
FswState-cases critical = inr (inr (inr refl))

-- In every state and on every input a tick leads where the state machine says: out of BOOT by the
-- self-test, to SAFE on the first fault, out of SAFE, once the rate limit lets the tick through, to
-- CRITICAL on too many restarts and to NOMINAL on clear readings after the stability time, and
-- never out of CRITICAL.
pub state-tick :
    (p : Platform) (fl : Floats) (i : Input fl.Float) (c : Core fl.Float)
    → (tick p fl i c).state ≡ next_state fl i c
state-tick p fl i c = elim (FswState-cases c.state) [
  | inl e ↦ tick-boot p fl i c e
  | inr (inl e) ↦ tick-nominal p fl i c e
  | inr (inr (inl e)) ↦ tick-safe p fl i c e
  | inr (inr (inr e)) ↦ tick-critical p fl i c e
]
