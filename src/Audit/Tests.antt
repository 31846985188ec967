-- ===== src/Audit/Tests.antt =====
-- Runs of the audit log, and its theorems at concrete inputs. The stand-in digest is the text itself.
use asterion_one.Base.{◌+◌, ◌≡◌, ◌≢◌, refl, ◌↔◌, true, false, List, [], ◌∷◌, String, eq_iff, arith}
use asterion_one.Json.{end}
use asterion_one.Models.{Severity, AuditEntry}
use asterion_one.Audit.{
  Platform, Line, entry, unreadable, Logger, genesis_hash, read_all, recomputed, verify_from,
  verify_chain, hash_input,
}
use asterion_one.Audit.Chain.{IsChain, Inv, verify_chain_iff}
use asterion_one.Audit.Tamper.{tamper_detected, unprotected_fields}

abbrev plain : Platform
plain = record {
  sha256 = λ s. s;
  isoformat = λ t. "T";
  utc_now = λ n. 1000 + n;
  str_int = λ n. "N";
}

abbrev made : String → String → String → String → AuditEntry
made prev event source description = record {
  timestamp = 1000;
  event_type = event;
  source = source;
  severity = Severity.info;
  description = description;
  metadata = end;
  hash = hash_input plain prev 1000 event source description;
  prev_hash = prev;
}

abbrev first : AuditEntry
first = made genesis_hash "SELF_TEST" "FLIGHT|A" "ok"

abbrev second : AuditEntry
second = made first.hash "COMMAND_EXECUTED" "FLIGHT|A" "done"

abbrev stored : List AuditEntry → List Line
stored [] = []
stored (e ∷ es) = entry e ∷ stored es

abbrev holding : List AuditEntry → Logger
holding es = record {
  lines = unreadable ∷ stored es;
  source = "FLIGHT|A";
  prev_hash = second.hash;
  readings = 5;
}

abbrev two : Logger
two = holding (first ∷ second ∷ [])

two-verifies : (verify_chain plain two).chain_valid ≡ true
unfolding verify_chain verify_from read_all
two-verifies = refl

verify_chain_iff_example :
    ((verify_chain plain two).chain_valid ≡ true) ↔ IsChain plain genesis_hash (read_all two.lines)
verify_chain_iff_example = verify_chain_iff plain two

two-Inv : Inv plain two
unfolding read_all
two-Inv = record { chained = ((refl, refl), ((refl, refl), tt)); pointed = refl }

-- The first description was rewritten.
abbrev forged : AuditEntry
forged = record first { description = "failed" }

forged-broken : (verify_chain plain (holding (forged ∷ second ∷ []))).chain_valid ≡ false
unfolding verify_chain verify_from read_all
forged-broken = refl

first-ne-forged : recomputed plain first ≢ recomputed plain forged
first-ne-forged = ground (arith, eq_iff (recomputed plain first) (recomputed plain forged))

tamper_detected_example : (verify_chain plain (holding (forged ∷ second ∷ []))).chain_valid ≡ false
unfolding read_all
tamper_detected_example =
    tamper_detected plain two (holding (forged ∷ second ∷ [])) [] [] first forged second
      two-verifies refl refl first-ne-forged

-- "FLIGHT" moves from the source "FLIGHT|A" to the event type, and the severity is raised.
abbrev relabelled : AuditEntry
relabelled = record first {
  severity = Severity.critical;
  event_type = "SELF_TEST|FLIGHT";
  source = "A";
}

unprotected_fields_example :
    verify_chain plain (holding (relabelled ∷ second ∷ [])) ≡ verify_chain plain two
unfolding read_all
unprotected_fields_example =
    unprotected_fields plain two (holding (relabelled ∷ second ∷ [])) [] (second ∷ []) first
      Severity.info Severity.critical end end "SELF_TEST" "FLIGHT" "A" refl refl
