-- ===== src/Executor/Trail.antt =====
-- flight/cmd_executor.py: the audit trail of a plan.
use asterion_one.Base.{
  ℕ, inl, inr, Bool, Option, none, some, List, [], ◌∷◌, String, length, get_or, if◌then◌else◌,
  Bool-cases,
}
use asterion_one.Json.{Fields}
use asterion_one.Models.{FswState, Severity, PlanResult}
use asterion_one.Audit.{Platform, read_clock}
use asterion_one.Audit.Chain.{Inv, log-Inv}
use asterion_one.Crypto.{Crypto, Plan, verify}
use asterion_one.Executor.{
  Executor, Formats, Found, absent, found, raises, find_handler, command_type, is_failed,
  is_nominal, call_found, logged, finish_command, execute_single, run_commands, key_trusted,
  execute_plan,
}

module _ (p : Platform) (cr : Crypto) (fm : Formats) {W : Type 0} where
  -- The audit trail of an executor is whole.
  abbrev IsAudited : Executor W → Type 0
  IsAudited x = Inv p x.audit

  if-IsAudited :
      (b : Bool) (r s : PlanResult × Executor W)
      → IsAudited r.1
      → IsAudited s.1
      → IsAudited (if b then r else s).1
  if-IsAudited b r s v w = elim (Bool-cases b) [ inl e ↦ rw e v | inr e ↦ rw e w ]

  logged-IsAudited :
      (event_type : String) (severity : Severity) (description : String) (metadata : Fields)
      (x : Executor W)
      → IsAudited x
      → IsAudited (logged p cr fm event_type severity description metadata x)
  logged-IsAudited event_type severity description metadata x v =
      (log-Inv p event_type severity description metadata x.audit v).0

  call_found-IsAudited :
      (c : Fields) (f : Found W) (x : Executor W) → IsAudited x → IsAudited (call_found fm c f x).1
  call_found-IsAudited c absent x v = v
  call_found-IsAudited c raises x v = v
  call_found-IsAudited c (found h) x v = v

  finish_command-IsAudited :
      (c : Fields) (plan_id : String) (t : ℕ) (error : Option String) (x : Executor W)
      → IsAudited x
      → IsAudited (finish_command p cr fm c plan_id t error x).1
  finish_command-IsAudited c plan_id t none x v = logged-IsAudited _ _ _ _ x v
  finish_command-IsAudited c plan_id t (some e) x v = logged-IsAudited _ _ _ _ x v

  execute_single-IsAudited :
      (c : Fields) (plan_id : String) (x : Executor W)
      → IsAudited x
      → IsAudited (execute_single p cr fm c plan_id x).1
  unfolding execute_single
  execute_single-IsAudited c plan_id x v =
      let x' : Executor W = record x { audit = read_clock x.audit } in
      let f = find_handler (command_type c) x.handlers in
      finish_command-IsAudited c plan_id _ _ _
        (call_found-IsAudited c f x' (record { chained = v.chained; pointed = v.pointed }))

  run_commands-IsAudited :
      (plan_id : String) (total : ℕ) (cs : List Fields) (x : Executor W)
      → IsAudited x
      → IsAudited (run_commands p cr fm plan_id total cs x).1
  unfolding run_commands
  run_commands-IsAudited plan_id total [] x v = logged-IsAudited _ _ _ _ x v
  run_commands-IsAudited plan_id total (c ∷ cs) x v =
      let (result, after) = execute_single p cr fm c plan_id x in
      let w = execute_single-IsAudited c plan_id x v in
      if-IsAudited (is_failed result.status) _ _ (logged-IsAudited _ _ _ _ after w)
        (run_commands-IsAudited plan_id total cs after w)

  -- Whatever the plan, the state and the handlers do, the executor keeps the hash chain of the audit
  -- log whole.
  pub execute_plan-audit :
      (plan : Plan) (s : FswState) (x : Executor W)
      → Inv p x.audit
      → Inv p (execute_plan p cr fm plan s x).1.audit
  unfolding execute_plan
  execute_plan-audit plan s x v =
      let received = logged-IsAudited "PLAN_RECEIVED" Severity.info _ _ x v in
      if-IsAudited (is_nominal s) _ _
        (if-IsAudited (key_trusted cr (get_or plan.public_key "") x.crypto) _ _
          (if-IsAudited (verify cr plan x.crypto) _ _
            (run_commands-IsAudited (get_or plan.plan_id "unknown")
              (length (get_or plan.commands [])) (get_or plan.commands []) _ received)
            (log-Inv p _ _ _ _ _ (log-Inv p _ _ _ _ _ received).0).0)
          (log-Inv p _ _ _ _ _ (log-Inv p _ _ _ _ _ received).0).0)
        (log-Inv p _ _ _ _ _ received).0
