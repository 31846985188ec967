-- ===== src/Executor/Gates.antt =====
-- flight/cmd_executor.py: which plans run, and what of them.
use asterion_one.Base.{
  ℕ, ◌≡◌, refl, ◌∙◌, ap, inl, inr, Bool, true, false, not, ◌&&◌, Option, none, some, List, [], ◌∷◌,
  String, length, get_or, if◌then◌else◌, Bool-cases,
}
use asterion_one.Base.Assoc.{Assoc}
use asterion_one.Json.{Fields}
use asterion_one.Models.{FswState, PlanResult, CmdResult, completed}
use asterion_one.Audit.{Platform, read_clock}
use asterion_one.Crypto.{Crypto, Plan, verify}
use asterion_one.Executor.{
  Handler, Executor, Formats, Found, is_failed, call_found, find_handler, absent, found, raises,
  command_type, payload, is_nominal, finish_command, execute_single, reject, run_commands,
  key_trusted, execute_plan,
}

abbrev is_none : {A : Type 0} → Option A → Bool
is_none none = true
is_none (some _) = false

abbrev effect_found : {W : Type 0} → Found W → Fields → W → Bool × W
effect_found absent c w = (true, w)
effect_found raises c w = (false, w)
effect_found (found h) c w = let (error, v) = h (payload c) w in (is_none error, v)

-- The handlers on their own: one command, and commands up to the first that fails.
abbrev pub effect : {W : Type 0} → Assoc (Handler W) → Fields → W → Bool × W
effect hs c w = effect_found (find_handler (command_type c) hs) c w

abbrev pub effects : {W : Type 0} → Assoc (Handler W) → List Fields → W → Bool × W
effects hs [] w = (true, w)
effects hs (c ∷ cs) w =
    let (ok, v) = effect hs c w in let rest = effects hs cs v in if ok then rest else (false, v)

abbrev pub outcome : Bool → PlanResult
outcome all_succeed =
    if all_succeed then record { status = completed; reason = none } else reject "EXECUTION_ERROR"

-- What a plan comes to in a state of the software.
abbrev pub verdict : Bool → Bool → Bool → Bool → PlanResult
verdict in_nominal trusted verified all_succeed =
    if in_nominal
    then (if trusted
        then (if verified then outcome all_succeed else reject "SIG_INVALID")
        else reject "UNKNOWN_KEY")
    else reject "NOT_IN_NOMINAL"

module _ (p : Platform) (cr : Crypto) (fm : Formats) {W : Type 0} where
  abbrev Runs : List Fields → Executor W → PlanResult × Executor W → Type 0
  Runs cs x (r, y) =
      (r ≡ outcome (effects x.handlers cs x.world).0)
      × (y.world ≡ (effects x.handlers cs x.world).1)
      × (y.handlers ≡ x.handlers)
      × (y.crypto ≡ x.crypto)

  -- One command against its handler.
  abbrev Does : Fields → Found W → Executor W → CmdResult × Executor W → Type 0
  Does c f x (r, y) =
      (is_failed r.status ≡ not (effect_found f c x.world).0)
      × (y.world ≡ (effect_found f c x.world).1)
      × (y.handlers ≡ x.handlers)
      × (y.crypto ≡ x.crypto)

  finish_command-status :
      (c : Fields) (plan_id : String) (t : ℕ) (error : Option String) (x : Executor W)
      → (is_failed (finish_command p cr fm c plan_id t error x).0.status ≡ not (is_none error))
        × ((finish_command p cr fm c plan_id t error x).1.world ≡ x.world)
        × ((finish_command p cr fm c plan_id t error x).1.handlers ≡ x.handlers)
        × ((finish_command p cr fm c plan_id t error x).1.crypto ≡ x.crypto)
  finish_command-status c plan_id t none x = (refl, refl, refl, refl)
  finish_command-status c plan_id t (some e) x = (refl, refl, refl, refl)

  call_found-Does :
      (c : Fields) (plan_id : String) (t : ℕ) (f : Found W) (x : Executor W)
      → Does c f x
          (finish_command p cr fm c plan_id t (call_found fm c f x).0 (call_found fm c f x).1)
  call_found-Does c plan_id t absent x = (refl, refl, refl, refl)
  call_found-Does c plan_id t raises x = (refl, refl, refl, refl)
  call_found-Does c plan_id t (found h) x =
      finish_command-status c plan_id t (h (payload c) x.world).0
        (record x { world = (h (payload c) x.world).1 })

  execute_single-Does :
      (c : Fields) (plan_id : String) (x : Executor W)
      → Does c (find_handler (command_type c) x.handlers) x (execute_single p cr fm c plan_id x)
  unfolding execute_single
  execute_single-Does c plan_id x =
      call_found-Does c plan_id (p.utc_now x.audit.readings)
        (find_handler (command_type c) x.handlers) (record x { audit = read_clock x.audit })

  run_commands-Runs :
      (plan_id : String) (total : ℕ) (cs : List Fields) (x : Executor W)
      → Runs cs x (run_commands p cr fm plan_id total cs x)
  unfolding run_commands
  run_commands-Runs plan_id total [] x = (refl, refl, refl, refl)
  run_commands-Runs plan_id total (c ∷ cs) x =
      let (status, world, handlers, crypto) = execute_single-Does c plan_id x in
      let after = (execute_single p cr fm c plan_id x).1 in
      let (r, w, h, k) = run_commands-Runs plan_id total cs after in
      let same : effects after.handlers cs after.world
          ≡ effects x.handlers cs (effect x.handlers c x.world).1 =
        rw (handlers, world) refl in
      elim (Bool-cases (effect x.handlers c x.world).0) [
        | inl ok ↦
            rw (status, ok)
              (r ∙ ap (λ e. outcome e.0) same, w ∙ ap (λ e. e.1) same, h ∙ handlers, k ∙ crypto)
        | inr bad ↦ rw (status, bad) (refl, world, handlers, crypto)
      ]

  -- A plan comes to what its verdict says: its commands run only in NOMINAL, with a trusted key and
  -- a verified signature, in order up to the first that fails, and it is COMPLETED only if none
  -- fails. The handlers' state afterwards is what the executed handlers make of it, and is untouched
  -- by a plan that a gate rejects; the registered handlers and the keys stay.
  pub execute_plan-verdict :
      (plan : Plan) (s : FswState) (x : Executor W)
      → let commands = get_or plan.commands [] in
        let trusted = key_trusted cr (get_or plan.public_key "") x.crypto in
        let verified = verify cr plan x.crypto in
        let ran = effects x.handlers commands x.world in
        let (r, y) = execute_plan p cr fm plan s x in
        (r ≡ verdict (is_nominal s) trusted verified ran.0)
        × (y.world ≡ (if is_nominal s && (trusted && verified) then ran.1 else x.world))
        × (y.handlers ≡ x.handlers)
        × (y.crypto ≡ x.crypto)
  unfolding execute_plan
  execute_plan-verdict plan s x = elim (Bool-cases (is_nominal s)) [
    | inr elsewhere ↦ rw elsewhere (refl, refl, refl, refl)
    | inl in_nominal ↦ elim (Bool-cases (key_trusted cr (get_or plan.public_key "") x.crypto)) [
      | inr unknown ↦ rw (in_nominal, unknown) (refl, refl, refl, refl)
      | inl trusted ↦ elim (Bool-cases (verify cr plan x.crypto)) [
        | inr invalid ↦ rw (in_nominal, trusted, invalid) (refl, refl, refl, refl)
        | inl verified ↦
            rw (in_nominal, trusted, verified)
              (run_commands-Runs (get_or plan.plan_id "unknown") (length (get_or plan.commands []))
                (get_or plan.commands []) _)
      ]
    ]
  ]
