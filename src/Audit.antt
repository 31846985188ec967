-- ===== src/Audit.antt =====
-- flight/audit_logger.py: the hash-chained log. The log file is a list of lines, and a line that
-- `_read_all_entries` cannot read is skipped. Each method holds the logger's mutex where it writes,
-- so a method is one step.
pub mod Chain
pub mod Tamper
mod Tests
use asterion_one.Base.{
  ℕ, ◌+◌, Bool, true, false, Option, none, some, List, [], ◌∷◌, ◌++◌, String, ◌<>◌, str_eq, leb,
  if◌then◌else◌, length, keep, last_or, map,
}
use asterion_one.Json.{Fields}
use asterion_one.Models.{Severity, AuditEntry, ChainVerificationResult}

-- What the flight segment takes from the standard library: SHA-256 in hexadecimal, `isoformat`,
-- `str` of an integer, and the wall clock, whose readings are numbered.
pub record Platform : Type 0 where
  pub sha256 : String → String
  pub isoformat : ℕ → String
  pub utc_now : ℕ → ℕ
  pub str_int : ℕ → String

pub data Line : Type 0 where
  entry : AuditEntry → Line
  unreadable : Line

-- `readings` counts the calls of `datetime.now` so far.
pub record Logger : Type 0 where
  pub lines : List Line
  pub source : String
  pub prev_hash : String
  pub readings : ℕ

abbrev pub genesis_hash : String
genesis_hash = "GENESIS"

-- `_read_all_entries`
unfoldable pub read_all : List Line → List AuditEntry
read_all [] = []
read_all (entry e ∷ ls) = e ∷ read_all ls
read_all (unreadable ∷ ls) = read_all ls

abbrev pub hashes : List AuditEntry → List String
hashes = map (λ e. e.hash)

-- `_load_last_hash`
unfoldable pub load_last_hash : List Line → String
load_last_hash ls = last_or genesis_hash (hashes (read_all ls))

-- `AuditLogger(log_path, source)` on a file.
unfoldable pub open_log : List Line → String → ℕ → Logger
open_log ls source readings = record {
  lines = ls;
  source = source;
  prev_hash = load_last_hash ls;
  readings = readings;
}

module _ (p : Platform) where
  -- `f"{prev_hash}|{timestamp.isoformat()}|{event_type}|{source}|{description}"`
  abbrev pub hash_input : String → ℕ → String → String → String → String
  hash_input prev_hash timestamp event_type source description =
      prev_hash
      <> ("|"
          <> (p.isoformat timestamp
              <> ("|" <> (event_type <> ("|" <> (source <> ("|" <> description)))))))

  abbrev pub new_entry : String → Severity → String → Fields → Logger → AuditEntry
  new_entry event_type severity description metadata l =
      let timestamp = p.utc_now l.readings in
      record {
        timestamp = timestamp;
        event_type = event_type;
        source = l.source;
        severity = severity;
        description = description;
        metadata = metadata;
        hash = p.sha256 (hash_input l.prev_hash timestamp event_type l.source description);
        prev_hash = l.prev_hash;
      }

  unfoldable pub log : String → Severity → String → Fields → Logger → AuditEntry × Logger
  log event_type severity description metadata l =
      let e = new_entry event_type severity description metadata l in
      (
        e,
        record l { lines = l.lines ++ entry e ∷ []; prev_hash = e.hash; readings = l.readings + 1 },
      )

  -- The hash that an entry ought to have.
  abbrev pub recomputed : AuditEntry → String
  recomputed e = p.sha256 (hash_input e.prev_hash e.timestamp e.event_type e.source e.description)

  abbrev valid_result : ℕ → ChainVerificationResult
  valid_result total = record {
    chain_valid = true;
    total_events = total;
    break_at_index = none;
    expected_hash = none;
    actual_hash = none;
  }

  abbrev broken_at : ℕ → ℕ → String → String → ChainVerificationResult
  broken_at total i expected actual = record {
    chain_valid = false;
    total_events = total;
    break_at_index = some i;
    expected_hash = some expected;
    actual_hash = some actual;
  }

  -- The loop of `verify_chain` from entry `i` on.
  pub verify_from : ℕ → String → ℕ → List AuditEntry → ChainVerificationResult
  verify_from total prev_hash i [] = valid_result total
  verify_from total prev_hash i (e ∷ es) =
      let rest = verify_from total e.hash (i + 1) es in
      if str_eq e.prev_hash prev_hash
      then (if str_eq e.hash (recomputed e) then rest else broken_at total i (recomputed e) e.hash)
      else broken_at total i prev_hash e.prev_hash

  unfoldable pub verify_chain : Logger → ChainVerificationResult
  verify_chain l =
      let entries = read_all l.lines in verify_from (length entries) genesis_hash 0 entries

-- A reading of the wall clock that writes nothing.
abbrev pub read_clock : Logger → Logger
read_clock l = record l { readings = l.readings + 1 }

abbrev is_since : Option ℕ → AuditEntry → Bool
is_since none e = true
is_since (some instant) e = leb instant e.timestamp

unfoldable pub get_entries : Option ℕ → Logger → List AuditEntry
get_entries since l = keep (is_since since) (read_all l.lines)

unfoldable pub entry_count : Logger → ℕ
entry_count l = length (read_all l.lines)
