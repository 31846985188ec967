-- ===== src/Executor/Tests.antt =====
-- Runs of the executor, and its theorems at concrete inputs. The handlers count in a number.
use asterion_one.Base.{
  ℕ, ◌+◌, ◌≡◌, refl, ◌&&◌, none, some, List, [], ◌∷◌, String, get_or, if◌then◌else◌,
}
use asterion_one.Json.{num, text, Fields, end, field}
use asterion_one.Models.{nominal}
use asterion_one.Audit.{Platform, read_all}
use asterion_one.Audit.Chain.{Inv}
use asterion_one.Crypto.{Plan, verify}
use asterion_one.Crypto.Tests.{bench}
use asterion_one.Executor.{Handler, Executor, Formats, is_nominal, key_trusted, execute_plan}
use asterion_one.Executor.Gates.{effects, verdict, execute_plan-verdict}

abbrev plain : Platform
plain = record {
  sha256 = λ s. s;
  isoformat = λ t. "T";
  utc_now = λ n. 1000 + n;
  str_int = λ n. "N";
}

abbrev formats : Formats
formats = record { str_json = λ j. "J"; first_16 = λ s. s; unhashable = λ j. "unhashable type" }

abbrev counting : Handler ℕ
counting j w = (none, w + 1)

abbrev refusing : Handler ℕ
refusing j w = (some "no power", w)

abbrev ready : Executor ℕ
ready = record {
  crypto = record { trusted_keys = ("00ff", "ground") ∷ [] };
  audit = record { lines = []; source = "FLIGHT"; prev_hash = "GENESIS"; readings = 0 };
  handlers = ("PING", counting) ∷ ("HEAT", refusing) ∷ [];
  world = 0;
}

abbrev command : String → Fields
command name = field "sequence_id" (num 1) (field "command_type" (text name) end)

abbrev plan_of : List Fields → Plan
plan_of cs = record {
  plan_id = some "p1";
  commands = some cs;
  signature = some "33cc";
  public_key = some "00ff";
}

abbrev mixed : Plan
mixed = plan_of (command "PING" ∷ command "HEAT" ∷ command "PING" ∷ [])

execute_plan-verdict_example :
    let trusted = key_trusted bench (get_or mixed.public_key "") ready.crypto in
    let verified = verify bench mixed ready.crypto in
    let ran = effects ready.handlers (get_or mixed.commands []) ready.world in
    let (r, y) = execute_plan plain bench formats mixed nominal ready in
    (r ≡ verdict (is_nominal nominal) trusted verified ran.0)
    × (y.world ≡ (if is_nominal nominal && (trusted && verified) then ran.1 else ready.world))
    × (y.handlers ≡ ready.handlers)
    × (y.crypto ≡ ready.crypto)
execute_plan-verdict_example = execute_plan-verdict plain bench formats mixed nominal ready

ready-Inv : Inv plain ready.audit
unfolding read_all
ready-Inv = record { chained = tt; pointed = refl }
