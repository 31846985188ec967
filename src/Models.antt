-- ===== src/Models.antt =====
-- flight/models.py: the enumerations and records that the flight components share.
use asterion_one.Base.{ℕ, String, Bool, Option}
use asterion_one.Json.{Json, Fields}

pub data FswState : Type 0 where
  boot nominal safe critical : FswState

-- `.value` of the enumeration
abbrev pub state_value : FswState → String
state_value boot = "BOOT"
state_value nominal = "NOMINAL"
state_value safe = "SAFE"
state_value critical = "CRITICAL"

pub data Severity : Type 0 where
  info warning critical : Severity

abbrev pub severity_value : Severity → String
severity_value Severity.info = "INFO"
severity_value Severity.warning = "WARNING"
severity_value Severity.critical = "CRITICAL"

-- `PlanResult.status` and `CmdResult.status`, which the source writes as texts.
pub data PlanStatus : Type 0 where
  completed rejected : PlanStatus

pub data CommandStatus : Type 0 where
  executed failed : CommandStatus

pub record PlanResult : Type 0 where
  pub status : PlanStatus
  pub reason : Option String

pub record CmdResult : Type 0 where
  pub sequence_id : Json
  pub status : CommandStatus
  pub executed_at : ℕ

-- Timestamps are instants, in microseconds.
pub record AuditEntry : Type 0 where
  pub timestamp : ℕ
  pub event_type : String
  pub source : String
  pub severity : Severity
  pub description : String
  pub metadata : Fields
  pub hash : String
  pub prev_hash : String

pub record ChainVerificationResult : Type 0 where
  pub chain_valid : Bool
  pub total_events : ℕ
  pub break_at_index : Option ℕ
  pub expected_hash : Option String
  pub actual_hash : Option String
