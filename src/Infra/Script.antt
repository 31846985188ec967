-- ===== src/Infra/Script.antt =====
-- infra/fault_injector_bad_sig.py: the script's calls of the ground API, its report, and the monad that
-- they run in: a call returns, ends the script with its report, raises, or runs out of fuel.
use asterion_one.Base.{
  ℕ, ◌+◌, ◌==◌, Bool, false, Option, none, some, List, [], ◌∷◌, ◌++◌, String, if◌then◌else◌,
}
use asterion_one.Json.{Json, Fields, obj, text, field, end}

pub data Method : Type 0 where
  get_request post_request patch_request : Method

pub record Request : Type 0 where
  pub method : Method
  pub path : String
  pub body : Fields

-- What comes of a request: an answer with JSON, an HTTP error with its text ("{}" if it has none), or
-- any other exception.
pub data Outcome : Type 0 where
  answered : ℕ → Json → Outcome
  refused : ℕ → String → Outcome
  unreachable : Outcome

-- The ground API answers by all requests so far. The wall clock, in milliseconds and without
-- the time that the script sleeps, is numbered by its readings. `dumps` and `loads` are json's, `prefix` is `t[:8]` and `contains` is `s in t`.
pub record World : Type 0 where
  pub respond : List Request → Outcome
  pub time : ℕ → ℕ
  pub loads : String → Option Json
  pub dumps : Json → String
  pub prefix : String → String
  pub contains : String → String → Bool
  pub strftime : String
  pub isoformat : ℕ → String

-- An element of `report["steps"]`, without the detail for the reader.
pub record Step : Type 0 where
  pub step : String
  pub success : Bool

-- The counts at the end of the report.
pub record Summary : Type 0 where
  pub plan_status : Json
  pub commands_executed : ℕ
  pub commands_failed : ℕ
  pub critical_events_count : ℕ
  pub chain_valid : Bool

pub record Report : Type 0 where
  pub steps : List Step
  pub injected : Bool
  pub summary : Option Summary
  pub passed : Bool

pub record State : Type 0 where
  pub requests : List Request
  pub steps : List Step
  pub injected : Bool
  pub readings : ℕ
  pub slept : ℕ

pub data Result (A : Type 0) : Type 0 where
  returned : A → State → Result A
  finished : Report → Result A
  raised : Result A
  stuck : Result A

abbrev pub Script : Type 0 → Type 0
Script A = State → Result A

unfoldable pub pure : {A : Type 0} → A → Script A
pure a s = returned a s

abbrev pub then_run : {A B : Type 0} → Result A → (A → Script B) → Result B
then_run (returned a s) f = f a s
then_run (finished r) f = finished r
then_run raised f = raised
then_run stuck f = stuck

infixl 5 ◌>>=◌ ◌>>◌
unfoldable pub ◌>>=◌ : {A B : Type 0} → Script A → (A → Script B) → Script B
◌>>=◌ m f s = then_run (m s) f

abbrev pub ◌>>◌ : {B : Type 0} → Script (Unit {0}) → Script B → Script B
m >> k = m >>= λ _. k

abbrev pub raise : {A : Type 0} → Script A
raise s = raised

-- What a value is, or an exception.
unfoldable pub needed : {A : Type 0} → Option A → Script A
needed none s = raised
needed (some a) s = returned a s

unfoldable pub log_step : String → Bool → Script (Unit {0})
log_step name success s =
    returned tt (record s { steps = s.steps ++ record { step = name; success = success } ∷ [] })

-- `return _finalize_report(report, passed)`
unfoldable pub finalize_report : {A : Type 0} → Option Summary → Bool → Script A
finalize_report summary passed s =
    finished (record { steps = s.steps; injected = s.injected; summary = summary; passed = passed })

-- `if status != code: log_step(name, False); return _finalize_report(report, False)`
unfoldable pub expect : ℕ → ℕ → String → Script (Unit {0})
unfolding log_step finalize_report ◌>>=◌ pure
expect code status name =
    if status == code then pure tt else (log_step name false >> finalize_report none false)

-- `time.sleep`, in milliseconds
unfoldable pub sleep : ℕ → Script (Unit {0})
sleep t s = returned tt (record s { slept = s.slept + t })

module _ (w : World) where
  open w use {respond, loads, time}

  abbrev unknown_error : String → Json
  unknown_error t =
      obj (field "error" (obj (field "code" (text "UNKNOWN") (field "message" (text t) end))) end)

  abbrev parsed_or : Option Json → Json → Json
  parsed_or none other = other
  parsed_or (some j) other = j

  abbrev pub answer : Outcome → Option (Json × ℕ)
  answer (answered status body) = some (body, status)
  answer (refused code t) = some (parsed_or (loads t) (unknown_error t), code)
  answer unreachable = none

  -- `api_request`
  unfoldable pub api_request : Method → String → Fields → Script (Json × ℕ)
  unfolding needed
  api_request method path body s =
      let requests = s.requests ++ record { method = method; path = path; body = body } ∷ [] in
      needed (answer (respond requests)) (record s { requests = requests })

  abbrev pub api_get : String → Script (Json × ℕ)
  api_get path = api_request get_request path end

  abbrev pub api_post : String → Fields → Script (Json × ℕ)
  api_post path body = api_request post_request path body

  abbrev pub api_patch : String → Fields → Script (Json × ℕ)
  api_patch path body = api_request patch_request path body

  -- `time.time()`
  unfoldable pub read_time : Script ℕ
  read_time s = returned (time s.readings + s.slept) (record s { readings = s.readings + 1 })
