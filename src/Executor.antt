-- ===== src/Executor.antt =====
-- flight/cmd_executor.py: `CmdExecutor`. A command is a dict of the plan; its values may be any JSON.
-- What the handlers act on is a state `W`; a handler gives the text of the exception that it raises,
-- if any, and the state that it leaves.
pub mod Gates
pub mod Trail
mod Tests
use asterion_one.Base.{
  ℕ, ◌+◌, Bool, true, false, Option, none, some, List, [], ◌∷◌, String, ◌<>◌, length, get_or,
  if◌then◌else◌,
}
use asterion_one.Base.Assoc.{Assoc, lookup, insert, remove}
use asterion_one.Json.{Json, null, num, text, arr, obj, Fields, end, field, get}
use asterion_one.Models.{
  FswState, nominal, CommandStatus, Severity, PlanResult, completed, rejected, CmdResult, executed,
  failed, state_value,
}
use asterion_one.Audit.{Platform, Logger, log, read_clock}
use asterion_one.Crypto.{Crypto, Plan, Verifier, is_trusted_key, verify}

abbrev pub Handler : Type 0 → Type 0
Handler W = Json → W → Option String × W

pub record Executor (W : Type 0) : Type 0 where
  pub crypto : Verifier
  pub audit : Logger
  pub handlers : Assoc (Handler W)
  pub world : W

-- `str` of a value, the first 16 characters of a text, and the text of the `TypeError` for a list or
-- a dict as a key.
pub record Formats : Type 0 where
  pub str_json : Json → String
  pub first_16 : String → String
  pub unhashable : Json → String

-- `self._handlers.get(cmd_type)`
pub data Found (W : Type 0) : Type 0 where
  absent : Found W
  found : Handler W → Found W
  raises : Found W

abbrev of_option : {W : Type 0} → Option (Handler W) → Found W
of_option none = absent
of_option (some h) = found h

abbrev pub find_handler : {W : Type 0} → Json → Assoc (Handler W) → Found W
find_handler (text t) d = of_option (lookup t d)
find_handler (arr _) d = raises
find_handler (obj _) d = raises
find_handler _ d = absent

abbrev pub sequence_id : Fields → Json
sequence_id c = get_or (get "sequence_id" c) (num 0)

abbrev pub command_type : Fields → Json
command_type c = get_or (get "command_type" c) (text "UNKNOWN")

abbrev pub payload : Fields → Json
payload c = get_or (get "payload" c) (obj end)

abbrev pub is_failed : CommandStatus → Bool
is_failed failed = true
is_failed executed = false

abbrev pub is_nominal : FswState → Bool
is_nominal nominal = true
is_nominal _ = false

abbrev pub reject : String → PlanResult
reject reason = record { status = rejected; reason = some reason }

abbrev reason_metadata : String → String → Fields → Fields
reason_metadata plan_id reason more =
    field "plan_id" (text plan_id) (field "reason" (text reason) more)

abbrev command_text : Formats → Fields → String
command_text fm c =
    "Command seq=" <> (fm.str_json (sequence_id c) <> (" type=" <> fm.str_json (command_type c)))

abbrev command_metadata : Fields → String → String → Json → Fields
command_metadata c plan_id key value = field "plan_id" (text plan_id) (
    field "sequence_id" (sequence_id c)
      (field "command_type" (command_type c) (field key value end)))

-- The check of the key in the second gate.
abbrev pub key_trusted : Crypto → String → Verifier → Bool
key_trusted cr public_key_hex v = elim (cr.fromhex public_key_hex) [
  | none ↦ false
  | some k ↦ is_trusted_key cr k v
]

module _ {W : Type 0} where
  unfoldable pub register_handler : String → Handler W → Executor W → Executor W
  register_handler name h x = record x { handlers = insert name h x.handlers }

  unfoldable pub unregister_handler : String → Executor W → Executor W
  unregister_handler name x = record x { handlers = remove name x.handlers }

  abbrev pub call_found : Formats → Fields → Found W → Executor W → Option String × Executor W
  call_found fm c absent x = (none, x)
  call_found fm c raises x = (some (fm.unhashable (command_type c)), x)
  call_found fm c (found h) x =
      let (error, w) = h (payload c) x.world in (error, record x { world = w })

  -- The `try` block up to the log: the exception raised, if any.
  abbrev pub called : Formats → Fields → Executor W → Option String × Executor W
  called fm c x = call_found fm c (find_handler (command_type c) x.handlers) x

module _ (p : Platform) (cr : Crypto) (fm : Formats) {W : Type 0} where
  open fm use {str_json, first_16}

  abbrev pub logged : String → Severity → String → Fields → Executor W → Executor W
  logged event_type severity description metadata x = record x {
    audit = (log p event_type severity description metadata x.audit).1;
  }

  abbrev pub log_executed : Fields → String → ℕ → Executor W → Executor W
  log_executed c plan_id executed_at =
      logged "COMMAND_EXECUTED" Severity.info (command_text fm c <> " executed")
        (command_metadata c plan_id "executed_at" (text (p.isoformat executed_at)))

  abbrev pub log_failed : Fields → String → String → Executor W → Executor W
  log_failed c plan_id error =
      logged "COMMAND_FAILED" Severity.critical (command_text fm c <> (" failed: " <> error))
        (command_metadata c plan_id "error" (text error))

  abbrev pub finish_command :
      Fields → String → ℕ → Option String → Executor W → CmdResult × Executor W
  finish_command c plan_id executed_at none x = (
    record { sequence_id = sequence_id c; status = executed; executed_at = executed_at },
    log_executed c plan_id executed_at x,
  )
  finish_command c plan_id executed_at (some error) x = (
    record { sequence_id = sequence_id c; status = failed; executed_at = executed_at },
    log_failed c plan_id error x,
  )

  unfoldable pub execute_single : Fields → String → Executor W → CmdResult × Executor W
  execute_single c plan_id x =
      let (error, after) = called fm c (record x { audit = read_clock x.audit }) in
      finish_command c plan_id (p.utc_now x.audit.readings) error after

  abbrev pub log_aborted : Fields → String → Executor W → Executor W
  log_aborted c plan_id =
      logged "COMMAND_REJECTED" Severity.critical
        ("Plan "
          <> (plan_id
              <> (" aborted: command seq="
                  <> (str_json (get_or (get "sequence_id" c) (text "?")) <> " failed"))))
        (field "plan_id" (text plan_id) (
          field "reason" (text "EXECUTION_ERROR")
            (field "failed_at_seq" (get_or (get "sequence_id" c) null) end)))

  abbrev pub log_completed : String → ℕ → Executor W → Executor W
  log_completed plan_id total =
      logged "PLAN_COMPLETED" Severity.info
        ("Plan "
          <> (plan_id <> (": all " <> (p.str_int total <> " commands executed successfully"))))
        (field "plan_id" (text plan_id) (field "commands_executed" (num total) end))

  -- The loop over the commands and what follows it; at its end as many have been executed as the
  -- plan has.
  unfoldable pub run_commands : String → ℕ → List Fields → Executor W → PlanResult × Executor W
  run_commands plan_id total [] x =
      (record { status = completed; reason = none }, log_completed plan_id total x)
  run_commands plan_id total (c ∷ cs) x =
      let (result, after) = execute_single c plan_id x in
      let rest = run_commands plan_id total cs after in
      if is_failed result.status
      then (reject "EXECUTION_ERROR", log_aborted c plan_id after)
      else rest

  abbrev log_received : String → ℕ → Executor W → Executor W
  log_received plan_id count =
      logged "PLAN_RECEIVED" Severity.info
        ("Plan " <> (plan_id <> (": " <> (p.str_int count <> " commands received"))))
        (field "plan_id" (text plan_id) (field "command_count" (num count) end))

  abbrev log_rejected : String → String → Fields → Executor W → Executor W
  log_rejected plan_id why =
      logged "COMMAND_REJECTED" Severity.critical ("Plan " <> (plan_id <> (" rejected: " <> why)))

  abbrev log_signature_invalid : String → String → Fields → Executor W → Executor W
  log_signature_invalid plan_id why =
      logged "SIGNATURE_INVALID" Severity.critical ("Plan " <> (plan_id <> (" rejected: " <> why)))

  abbrev reject_state : String → FswState → Executor W → PlanResult × Executor W
  reject_state plan_id s x = (
    reject "NOT_IN_NOMINAL",
    log_rejected plan_id ("FSW state is " <> (state_value s <> ", not NOMINAL"))
        (reason_metadata plan_id "NOT_IN_NOMINAL" (field "fsw_state" (text (state_value s)) end)) x,
  )

  abbrev reject_key : String → String → Executor W → PlanResult × Executor W
  reject_key plan_id public_key_hex x = (
    reject "UNKNOWN_KEY",
    log_rejected plan_id "untrusted key" (reason_metadata plan_id "UNKNOWN_KEY" end) (
        log_signature_invalid plan_id "public key not in trusted keys list"
          (reason_metadata plan_id "UNKNOWN_KEY"
            (field "public_key" (text (first_16 public_key_hex <> "...")) end))
          x),
  )

  abbrev reject_signature : String → Executor W → PlanResult × Executor W
  reject_signature plan_id x = (
    reject "SIG_INVALID",
    log_rejected plan_id "invalid signature" (reason_metadata plan_id "SIG_INVALID" end) (
        log_signature_invalid plan_id "Ed25519 signature verification failed"
          (reason_metadata plan_id "SIG_INVALID" end) x),
  )

  unfoldable pub execute_plan : Plan → FswState → Executor W → PlanResult × Executor W
  execute_plan plan s x =
      let plan_id = get_or plan.plan_id "unknown" in
      let commands = get_or plan.commands [] in
      let public_key_hex = get_or plan.public_key "" in
      let received = log_received plan_id (length commands) x in
      if is_nominal s
      then (if key_trusted cr public_key_hex received.crypto
          then (if verify cr plan received.crypto
              then run_commands plan_id (length commands) commands received
              else reject_signature plan_id received)
          else reject_key plan_id public_key_hex received)
      else reject_state plan_id s received
