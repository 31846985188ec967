-- ===== src/Infra/Recovery.antt =====
-- infra/fault_injector.py: what the restart commands find.
use asterion_one.Base.{
  ℕ, zero, suc, ◌+◌, ◌≤◌, ◌≡◌, refl, ◌∙◌, ltb, leb, Bool, true, ◌&&◌, some, if◌then◌else◌, length,
  arith,
}
use asterion_one.Models.{boot, nominal, safe, critical}
use asterion_one.Audit.{Platform, Logger}
use asterion_one.Floats.{Floats}
use asterion_one.Fsw.State.{Config, Core, Input, counts, all_return, new_core}
use asterion_one.Fsw.{start, start_normal, tick, stop, do_boot, run_self_test}
use asterion_one.Fsw.Changes.{transition_to, save_boot_counter}
use asterion_one.Fsw.Transitions.{state-tick}
use asterion_one.Fsw.Watchdog.{start-recovery_state}
use asterion_one.Infra.Restarts.{
  is_state, create_fsw, after_kill, all_in, all_but_last, last_in, restarts_from, restarted_core,
  cascade_failure, kill_process, KillReport,
}

module _ (p : Platform) (fl : Floats) (config : Config fl.Float) (has_sdnotify : Bool) where
  open fl use {Float}

  restarted_core-state :
      (max now : ℕ) (log : Logger) (n : ℕ)
      → (restarted_core p fl config has_sdnotify max now log n).state
        ≡ (if ltb max (n + 1) then critical else safe)
  restarted_core-state max now log n = (start-recovery_state p fl n _ refl).0

  restarts_from-cascade :
      (max now : ℕ) (log : Logger) (rounds n : ℕ)
      → n + rounds ≡ max
      → (last_in critical (restarts_from p fl config has_sdnotify max now log n (suc rounds))
          ≡ true)
        × (all_in safe
              (all_but_last (restarts_from p fl config has_sdnotify max now log n (suc rounds)))
            ≡ true)
        × (length (restarts_from p fl config has_sdnotify max now log n (suc rounds)) ≡ suc rounds)
  unfolding restarts_from
  restarts_from-cascade max now log zero n e =
      let last : (restarted_core p fl config has_sdnotify max now log n).state ≡ critical =
        ground (arith, restarted_core-state max now log n) in
      (rw last refl, refl, refl)
  restarts_from-cascade max now log (suc rounds) n e =
      let low : (restarted_core p fl config has_sdnotify max now log n).state ≡ safe =
        ground (arith, restarted_core-state max now log n) in
      let (last, before, count) = restarts_from-cascade max now log rounds (n + 1) (omega arith) in
      (last, rw low before, omega (arith, count))

  -- The cascade passes whatever the limit is: as many restarts as are allowed come up in SAFE, and the next one in
  -- CRITICAL.
  pub cascade_failure-passes :
      (max now : ℕ) (log : Logger)
      → ((cascade_failure p fl config has_sdnotify max now log).passed ≡ true)
        × (length (cascade_failure p fl config has_sdnotify max now log).restarts ≡ max + 1)
  unfolding cascade_failure
  cascade_failure-passes max now log =
      let e : max + 1 ≡ suc max = omega arith in
      let (last, before, count) = restarts_from-cascade max now log max 0 (omega arith) in
      rw e (ground (arith, last, before), count)

  abbrev pub started : (now : ℕ) (log : Logger) → Core Float
  started now log = start p fl "" (create_fsw p fl config has_sdnotify now log)

  pub started-boot :
      (now : ℕ) (log : Logger)
      → ((started now log).state ≡ boot)
        × ((started now log).boot_file ≡ counts 0)
        × ((started now log).boot_writable ≡ true)
  unfolding start start_normal transition_to save_boot_counter
  started-boot now log = ground arith

  tick-boot_file :
      (i : Input Float) (c : Core Float)
      → c.state ≡ boot
      → c.boot_file ≡ counts 0
      → (tick p fl i c).boot_file ≡ counts 0
  unfolding tick do_boot run_self_test transition_to save_boot_counter
  tick-boot_file i c h k = ground arith

  -- Where at least one restart is allowed and the self-test of the first tick passes, the core comes up in SAFE
  -- after the kill, and the command passes exactly if that took three seconds at most.
  pub kill_process-recovers :
      (now : ℕ) (log : Logger) (i : Input Float) (recovery_ms : ℕ)
      → 1 ≤ config.max_wd_restarts
      → length i.readings ≡ 5
      → i.self_test ≡ all_return
      → (r : KillReport) × (kill_process p fl config has_sdnotify now log i recovery_ms ≡ some r)
        × (r.fsw_state_after ≡ safe)
        × (r.passed ≡ leb recovery_ms 3000)
  unfolding kill_process stop
  kill_process-recovers now log i recovery_ms limit whole test =
      let ticked = tick p fl i (started now log) in
      let (booting, file, _) = started-boot now log in
      let up : ticked.state ≡ nominal =
        state-tick p fl i (started now log) ∙ rw (booting, whole, test) in
      let kept : ticked.boot_file ≡ counts 0 = tick-boot_file i (started now log) booting file in
      let restarted = after_kill p fl config has_sdnotify now (stop p fl ticked) in
      let down : restarted.state ≡ safe = ground (
        arith,
        (start-recovery_state p fl 0
            (new_core config ticked.audit ticked.boot_file true has_sdnotify now) kept).0,
      ) in
      (
        record {
          fsw_state_after = restarted.state;
          wd_restarts = restarted.wd_restarts;
          passed = is_state restarted.state safe && leb recovery_ms 3000;
        },
        rw up refl,
        down,
        rw down refl,
      )
