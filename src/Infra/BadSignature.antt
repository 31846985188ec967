-- ===== src/Infra/BadSignature.antt =====
-- infra/fault_injector_bad_sig.py: `inject_bad_signature`.
use asterion_one.Base.{
  ℕ, zero, suc, ◌+◌, ◌-◌, ◌==◌, leb, ltb, Bool, true, ◌&&◌, ◌||◌, Option, none, some, List, [], ◌∷◌,
  String, ◌<>◌, if◌then◌else◌, length,
}
use asterion_one.Base.Partial.{◌>>=◌ as ◌>>?◌}
use asterion_one.Json.{Json, Fields, obj, arr, text, num, null, field, end, nil, cons}
use asterion_one.Infra.Answers.{
  item, item_or, as_text, has_length, id_of, is_text, count_status, listed, chain_of,
}
use asterion_one.Infra.Script.{
  World, Script, pure, ◌>>=◌, ◌>>◌, needed, log_step, finalize_report, expect, api_get, api_post,
  api_patch, read_time, sleep, stuck, returned,
}

abbrev pub corrupted_signature : String
corrupted_signature = "Q09SUlVQVEVEX1NJR05BVFVSRV9GT1JfVEVTVElORw=="

abbrev pub corrupted_public_key : String
corrupted_public_key = "Q09SUlVQVEVEX1BVQkxJQ19LRVk="

abbrev pub poll_timeout : ℕ
poll_timeout = 10_000

-- Enough fuel: a round takes half a second at least.
abbrev pub poll_rounds : ℕ
poll_rounds = 21

-- `plan_status in ("REJECTED", "COMPLETED")`
abbrev pub is_final : Json → Bool
is_final j = is_text "REJECTED" j || is_text "COMPLETED" j

module _ (w : World) where
  open w use {dumps, prefix, contains, strftime, isoformat}

  -- The plan's status after one round, from the answer and the status before.
  abbrev pub polled : Json → Json × ℕ → Option Json
  polled before (resp, status) =
      if status == 200 then (item "data" resp >>? item "status") else some before

  -- The `while` loop; only an answer with status 200 can end it before its time.
  unfoldable pub poll : ℕ → ℕ → String → Json → Script Json
  poll zero start plan_id before = λ s. stuck
  poll (suc fuel) start plan_id before = do
    now ← read_time w
    let round = do
      reply ← api_get w ("/command-plans/" <> plan_id)
      after ← needed (polled before reply)
      (if (reply.1 == 200) && is_final after
          then pure after
          else (sleep 500 >> poll fuel start plan_id after))
    if ltb (now - start) poll_timeout then round else pure before

  -- `plan_id[:8] in description + json.dumps(metadata) or event_type in (...)`
  abbrev pub is_about : String → Json → Option Bool
  is_about plan_id e = item_or "description" (text "") e >>? λ d. as_text d >>? λ description.
      item_or "metadata" (obj end) e >>? λ metadata. item_or "event_type" null e >>? λ kind. some (
        contains (prefix plan_id) (description <> dumps metadata)
        || (is_text "COMMAND_REJECTED" kind || is_text "SIGNATURE_INVALID" kind))

  -- The critical events about the plan, each of which must have a type.
  abbrev pub about : String → List Json → Option (List Json)
  about plan_id [] = some []
  about plan_id (e ∷ es) = is_about plan_id e >>? λ hit. about plan_id es >>? λ rest.
      (if hit then (item "event_type" e >>? λ kind. some (kind ∷ rest)) else some rest)

  abbrev pub window_data : ℕ → Fields
  window_data now = field "name" (text ("FI-BadSig-" <> strftime)) (
      field "aos_time" (text (isoformat (now - 30_000)))
        (field "los_time" (text (isoformat (now + 600_000))) end))

  abbrev pub plan_data : String → Fields
  plan_data window_id = field "contact_window_id" (text window_id) (
      field "operator_name" (text "fault_injector") (
        field "commands"
          (arr (
            cons
              (obj (
                field "command_type" (text "SET_PARAM") (
                  field "payload"
                    (obj (field "param_name" (text "test") (field "param_value" (num 1) end)))
                    end)))
              (cons
                (obj (
                  field "command_type" (text "RUN_DIAGNOSTIC")
                    (field "payload" (obj (field "subsystem" (text "THERMAL") end)) end)))
                nil)))
          end))

  abbrev pub sign_data : Fields
  sign_data =
      field "signature" (text corrupted_signature) (
        field "signature_algo" (text "Ed25519")
          (field "public_key" (text corrupted_public_key) end))

  unfoldable pub mark_injected : Script (Unit {0})
  mark_injected s = returned tt (record s { injected = true })

  -- The part after the upload: the poll, the three queries, and the verdict.
  unfoldable pub verify_rejection : String → Script (Unit {0})
  verify_rejection plan_id = do
    start ← read_time w
    plan_status ← poll poll_rounds start plan_id (text "UPLOADED")
    _ ← read_time w
    let plan_rejected = is_text "REJECTED" plan_status
    log_step "Plan REJECTED by Flight" plan_rejected
    commands ← api_get w ("/commands?plan_id=" <> plan_id)
    rows ← needed (listed commands)
    executed ← needed (count_status "EXECUTED" rows)
    failed ← needed (count_status "FAILED" rows)
    log_step "0 commands EXECUTED" (executed == 0)
    events ← api_get w "/events?severity=CRITICAL&limit=50"
    critical ← needed (listed events)
    found ← needed (about plan_id critical)
    log_step "≥2 CRITICAL events logged" (leb 2 (length found))
    verified ← api_get w "/events/verify"
    chain_valid ← needed (chain_of verified)
    log_step "Audit chain intact" chain_valid
    finalize_report
        (some (record {
          plan_status = plan_status;
          commands_executed = executed;
          commands_failed = failed;
          critical_events_count = length found;
          chain_valid = chain_valid;
        }))
        (plan_rejected && ((executed == 0) && (leb 2 (length found) && chain_valid)))

  -- `len(resp["data"].get("commands", []))`, which is only shown but may raise
  abbrev pub command_count : Json → Option (Unit {0})
  command_count resp = item "data" resp >>? λ d.
      item_or "commands" (arr nil) d >>? λ c. (if has_length c then some tt else none)

  unfoldable pub inject_bad_signature : Script (Unit {0})
  inject_bad_signature = do
    now ← read_time w
    window ← api_post w "/contact-windows" (window_data now)
    expect 201 window.1 "Create window"
    window_id ← needed (id_of window.0)
    log_step "Create contact window" true
    activated ← api_patch w ("/contact-windows/" <> window_id) (field "status" (text "ACTIVE") end)
    expect 200 activated.1 "Activate window"
    log_step "Activate window" true
    plan ← api_post w "/command-plans" (plan_data window_id)
    expect 201 plan.1 "Create plan"
    plan_id ← needed (id_of plan.0)
    _ ← needed (command_count plan.0)
    log_step "Create command plan" true
    signed ← api_patch w ("/command-plans/" <> plan_id) sign_data
    expect 200 signed.1 "Sign with bad signature"
    log_step "Sign with CORRUPTED signature" true
    mark_injected
    uploaded ←
        api_post w ("/command-plans/" <> (plan_id <> "/upload"))
          (field "public_key" (text corrupted_public_key) end)
    expect 202 uploaded.1 "Upload to Flight"
    log_step "Upload to Flight" true
    verify_rejection plan_id
