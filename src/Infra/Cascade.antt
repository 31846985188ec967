-- ===== src/Infra/Cascade.antt =====
-- infra/inject_cascade_live.py: a sequence of audit events that continues the local log's chain. Blank
-- lines of the log file are left out; offsets are in seconds.
use asterion_one.Base.{ℕ, ◌+◌, ◌*◌, Option, none, some, List, [], ◌∷◌, String, ◌<>◌}
use asterion_one.Base.Partial.{◌>>=◌}
use asterion_one.Json.{Fields, field, end, num, decimal, text}
use asterion_one.Models.{Severity, AuditEntry}
use asterion_one.Audit.{Platform, Line, entry, unreadable, genesis_hash}

abbrev hash_of_last : Line → List Line → Option String
hash_of_last (entry e) [] = some e.hash
hash_of_last unreadable [] = none
hash_of_last l (k ∷ ks) = hash_of_last k ks

-- The file may be missing. A last line that is no entry raises.
unfoldable pub last_hash : Option (List Line) → Option String
last_hash none = some genesis_hash
last_hash (some []) = some genesis_hash
last_hash (some (l ∷ ls)) = hash_of_last l ls

-- One element of the list `plan`.
pub record Planned : Type 0 where
  pub offset : ℕ
  pub event_type : String
  pub severity : Severity
  pub description : String
  pub metadata : Fields

abbrev overheated : Planned
overheated = record {
  offset = 0;
  event_type = "STATE_TRANSITION";
  severity = Severity.warning;
  description = "T3: NOMINAL -> SAFE: CPU temperature 85.0C exceeds threshold 75.0C";
  metadata = field "transition" (text "T3") (
      field "from_state" (text "NOMINAL") (
        field "to_state" (text "SAFE") (
          field "reason" (text "CPU temperature 85.0C exceeds threshold 75.0C")
            (field "wd_restarts" (num 0) (field "cpu_temp_c" (decimal "85.0") end)))));
}

abbrev restarted : ℕ → String → Planned
restarted n digit = record {
  offset = 2 * n;
  event_type = "STATE_TRANSITION";
  severity = Severity.warning;
  description = "T2: BOOT -> SAFE: Watchdog recovery (restart #" <> (digit <> ")");
  metadata = field "transition" (text "T2") (
      field "from_state" (text "BOOT") (
        field "to_state" (text "SAFE") (
          field "reason" (text ("Watchdog recovery (restart #" <> (digit <> ")")))
            (field "wd_restarts" (num n) end))));
}

abbrev escalated : Planned
escalated = record {
  offset = 8;
  event_type = "STATE_TRANSITION";
  severity = Severity.critical;
  description = "T6: SAFE -> CRITICAL: Watchdog escalation: 4 consecutive restarts > 3";
  metadata = field "transition" (text "T6") (
      field "from_state" (text "SAFE") (
        field "to_state" (text "CRITICAL") (
          field "reason" (text "Watchdog escalation: 4 consecutive restarts > 3")
            (field "wd_restarts" (num 4) end))));
}

abbrev pub plan : List Planned
plan = overheated ∷ restarted 1 "1" ∷ restarted 2 "2" ∷ restarted 3 "3" ∷ escalated ∷ []

-- The message that carries an event.
pub record Envelope : Type 0 where
  pub seq_id : ℕ
  pub timestamp : ℕ
  pub payload : AuditEntry

abbrev pub source : String
source = "FLIGHT"

module _ (p : Platform) where
  unfoldable pub hash_event : String → ℕ → String → String → String → String
  hash_event prev_hash timestamp event_type source description = p.sha256 (
      prev_hash
      <> ("|"
          <> (p.isoformat timestamp
              <> ("|" <> (event_type <> ("|" <> (source <> ("|" <> description))))))))

  abbrev pub make_event : String → ℕ → Planned → AuditEntry
  make_event prev_hash timestamp e = record {
    timestamp = timestamp;
    event_type = e.event_type;
    source = source;
    severity = e.severity;
    description = e.description;
    metadata = e.metadata;
    hash = hash_event prev_hash timestamp e.event_type source e.description;
    prev_hash = prev_hash;
  }

  -- The loop over `plan`.
  unfoldable pub build_from : ℕ → String → List Planned → List AuditEntry
  build_from now prev [] = []
  build_from now prev (e ∷ es) =
      let event = make_event prev (now + e.offset * 1_000_000) e in
      event ∷ build_from now event.hash es

  unfoldable pub build_cascade : ℕ → Option (List Line) → Option (List AuditEntry)
  build_cascade now file = do prev ← last_hash file; some (build_from now prev plan)

  -- The messages that `main` sends: `enumerate(events, start=10000)`.
  unfoldable pub envelopes : ℕ → List AuditEntry → List Envelope
  envelopes seq_id [] = []
  envelopes seq_id (e ∷ es) =
      record { seq_id = seq_id; timestamp = e.timestamp; payload = e } ∷ envelopes (seq_id + 1) es

  unfoldable pub sent : ℕ → Option (List Line) → Option (List Envelope)
  sent now file = do events ← build_cascade now file; some (envelopes 10000 events)
