-- ===== src/Fsw/Watchdog.antt =====
-- flight/fsw_core.py: watchdog restarts, and which runs end in CRITICAL.
use mathlib.Core.Path.{subst}
use asterion_one.Base.{
  ℕ, zero, suc, not, ◌&&◌, ◌+◌, ◌≡◌, refl, sym, ap, ◌∙◌, ◌↔◌, inl, inr, Bool, true, false, List, [],
  ◌∷◌, String, str_eq, ltb, arith, if◌then◌else◌, Bool-cases,
}
use asterion_one.Models.{safe, critical}
use asterion_one.Audit.{Platform}
use asterion_one.Floats.{Floats}
use asterion_one.Fsw.Live.{IsLive, tick-IsLive}
use asterion_one.Fsw.State.{Core, Input, counts}
use asterion_one.Fsw.Changes.{boot_count, load_boot_counter, transition_to, save_boot_counter}
use asterion_one.Fsw.{start_recovery, start_normal, start, tick, run_ticks, run_loop}

module _ (p : Platform) (fl : Floats) where
  open fl use {Float}

  run_ticks-cons :
      (i : Input Float) (is : List (Input Float)) (c : Core Float)
      → c.running ≡ true
      → run_ticks p fl (i ∷ is) c ≡ run_ticks p fl is (tick p fl i c)
  unfolding run_ticks
  run_ticks-cons i is c h = ground arith

  run_ticks-IsLive :
      (is : List (Input Float)) (c : Core Float) → IsLive c → IsLive (run_ticks p fl is c)
  run_ticks-IsLive [] c v = unfold run_ticks in v
  run_ticks-IsLive (i ∷ is) c v =
      subst IsLive (sym (run_ticks-cons i is c v.is_running.runs))
        (run_ticks-IsLive is (tick p fl i c) (tick-IsLive p fl i c v))

  run_ticks-stopped :
      (is : List (Input Float)) (c : Core Float) → c.running ≡ false → run_ticks p fl is c ≡ c
  unfolding run_ticks
  run_ticks-stopped [] c h = refl
  run_ticks-stopped (i ∷ is) c h = ground arith

  -- Whether a start escalates at once.
  abbrev pub escalates : String → Core Float → Bool
  escalates mode c = str_eq mode "SAFE" && ltb c.config.max_wd_restarts (boot_count c.boot_file + 1)

  -- A watchdog restart within the limit, beyond the limit, and a normal start.
  start_recovery-IsLive :
      (restarts : ℕ) (c : Core Float)
      → ltb c.config.max_wd_restarts restarts ≡ false
      → IsLive (start_recovery p fl restarts c) × ((start_recovery p fl restarts c).state ≡ safe)
  unfolding start_recovery transition_to save_boot_counter
  start_recovery-IsLive restarts c h = (
    record {
      is_running = record { runs = ground arith; restarts = ground arith };
      not_critical = ground arith;
    },
    ground arith,
  )

  start_recovery-escalates :
      (restarts : ℕ) (c : Core Float)
      → ltb c.config.max_wd_restarts restarts ≡ true
      → ((start_recovery p fl restarts c).running ≡ false)
        × ((start_recovery p fl restarts c).state ≡ critical)
  unfolding start_recovery transition_to save_boot_counter
  start_recovery-escalates restarts c h = (ground arith, ground arith)

  start_normal-IsLive : (c : Core Float) → IsLive (start_normal p fl c)
  unfolding start_normal transition_to save_boot_counter
  start_normal-IsLive c = record {
    is_running = record { runs = ground arith; restarts = ground arith };
    not_critical = ground arith;
  }

  start-IsLive :
      (mode : String) (c : Core Float) → escalates mode c ≡ false → IsLive (start p fl mode c)
  unfolding start load_boot_counter
  start-IsLive mode c h = elim (Bool-cases (str_eq mode "SAFE")) [
    | inl recovery ↦
        rw recovery (start_recovery-IsLive (boot_count c.boot_file + 1) c (ground arith)).0
    | inr normal ↦ rw normal (start_normal-IsLive c)
  ]

  start-escalates :
      (mode : String) (c : Core Float)
      → escalates mode c ≡ true
      → ((start p fl mode c).running ≡ false) × ((start p fl mode c).state ≡ critical)
  unfolding start load_boot_counter
  start-escalates mode c h =
      let recovery : str_eq mode "SAFE" ≡ true = ground arith in
      rw recovery (start_recovery-escalates (boot_count c.boot_file + 1) c (ground arith))

  -- A start under RECOVERY_MODE=SAFE on a boot file that counts `n` restarts.
  pub start-recovery_state :
      (n : ℕ) (c : Core Float)
      → c.boot_file ≡ counts n
      → ((start p fl "SAFE" c).state
          ≡ (if ltb c.config.max_wd_restarts (n + 1) then critical else safe))
        × ((start p fl "SAFE" c).running ≡ not (ltb c.config.max_wd_restarts (n + 1)))
  unfolding start load_boot_counter
  start-recovery_state n c e = elim (Bool-cases (ltb c.config.max_wd_restarts (n + 1))) [
    | inl over ↦
        let (stopped, up) = start_recovery-escalates (n + 1) c over in
        rw (over, ap boot_count e) (up, stopped)
    | inr within ↦
        let (live, down) = start_recovery-IsLive (n + 1) c within in
        rw (within, ap boot_count e) (down, live.is_running.runs)
  ]

  -- However the sensors, the clock and the self-test go, a run of the loop is in CRITICAL exactly
  -- when its start under RECOVERY_MODE=SAFE found more restarts than are allowed; then it has
  -- stopped without a tick. No tick of a run escalates to CRITICAL.
  pub run_loop-critical_iff :
      (mode : String) (is : List (Input Float)) (c : Core Float)
      → (((run_loop p fl mode is c).state ≡ critical) ↔ (escalates mode c ≡ true))
        × (escalates mode c ≡ true → run_loop p fl mode is c ≡ start p fl mode c)
  unfolding run_loop
  run_loop-critical_iff mode is c = elim (Bool-cases (escalates mode c)) [
    | inl up ↦
        let (stopped, at_critical) = start-escalates mode c up in
        (
          (λ h. up, λ h. rw (run_ticks-stopped is (start p fl mode c) stopped) at_critical),
          λ h. run_ticks-stopped is (start p fl mode c) stopped,
        )
    | inr down ↦
        let v = run_ticks-IsLive is (start p fl mode c) (start-IsLive mode c down) in
        ((λ h. ground (arith, v.not_critical), λ h. cc), λ h. cc)
  ]

  -- The process dies and is restarted `n` times, each time as a new core over the same boot file.
  pub restarted : ℕ → Core Float → Core Float
  restarted zero c = start p fl "" c
  restarted (suc n) c = start p fl "SAFE" (record c { boot_file = (restarted n c).boot_file })

  start_recovery-boot_file :
      (restarts : ℕ) (c : Core Float)
      → (start_recovery p fl restarts c).boot_file
        ≡ (if c.boot_writable then counts restarts else c.boot_file)
  unfolding start_recovery transition_to save_boot_counter
  start_recovery-boot_file restarts c = ground arith

  start_normal-boot_file :
      (c : Core Float)
      → (start_normal p fl c).boot_file ≡ (if c.boot_writable then counts 0 else c.boot_file)
  unfolding start_normal transition_to save_boot_counter
  start_normal-boot_file c = ground arith

  restarted-suc :
      (n : ℕ) (c : Core Float)
      → (restarted n c).boot_file ≡ counts n
      → restarted (suc n) c ≡ start_recovery p fl (suc n) (record c { boot_file = counts n })
  unfolding restarted start load_boot_counter
  restarted-suc n c e =
      ap (λ f. start_recovery p fl (boot_count f + 1) (record c { boot_file = f })) e
      ∙ ap (λ k. start_recovery p fl k (record c { boot_file = counts n })) (omega arith)

  boot_file-restarted :
      (n : ℕ) (c : Core Float) → c.boot_writable ≡ true → (restarted n c).boot_file ≡ counts n
  boot_file-restarted zero c w = unfold restarted start in (start_normal-boot_file c ∙ rw w)
  boot_file-restarted (suc n) c w =
      ap (λ (k : Core Float). k.boot_file) (restarted-suc n c (boot_file-restarted n c w))
      ∙ start_recovery-boot_file (suc n) (record c { boot_file = counts n })
      ∙ rw w

  -- With a writable boot file, the n-th watchdog restart in a row after a normal start comes up in
  -- SAFE and runs as long as n is at most the limit, and beyond it comes up stopped in CRITICAL.
  pub restarted-state :
      (n : ℕ) (c : Core Float)
      → c.boot_writable ≡ true
      → ((restarted (suc n) c).state
          ≡ (if ltb c.config.max_wd_restarts (suc n) then critical else safe))
        × ((restarted (suc n) c).running ≡ not (ltb c.config.max_wd_restarts (suc n)))
  restarted-state n c w =
      let again : Core Float = record c { boot_file = counts n } in
      rw (restarted-suc n c (boot_file-restarted n c w))
        (elim (Bool-cases (ltb c.config.max_wd_restarts (suc n))) [
          | inl over ↦
              let (stopped, up) = start_recovery-escalates (suc n) again over in
              (rw over up, rw over stopped)
          | inr within ↦
              let (live, down) = start_recovery-IsLive (suc n) again within in
              (rw within down, rw within live.is_running.runs)
        ])
