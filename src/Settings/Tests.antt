-- ===== src/Settings/Tests.antt =====
-- A run of `from_env`, with numbers in hundredths, and its theorem at a concrete input.
use asterion_one.Base.{ℕ, ◌≡◌, refl, true, Option, none, some, String, ◌<>◌, str_eq, if◌then◌else◌}
use asterion_one.Base.Assoc.{lookup}
use asterion_one.Floats.{hundredths}
use asterion_one.Settings.{
  Conversions, Value, flag, int, defaults, read_as, field_from, from_fields, from_env,
}
use asterion_one.Settings.Environment.{signature, from_env-signature}

abbrev conversions : Conversions ℕ
conversions = record {
  Int = ℕ;
  of_nat = λ n. n;
  int_of = λ t. if str_eq t "5" then some 5 else none;
  float_of = λ t. none;
  lower = λ t. t;
}

abbrev variables : String → Option String
variables name =
    if str_eq name "ASTERION_MAX_WD_RESTARTS"
    then some "5"
    else if str_eq name "ASTERION_QUEUE_MAX_DEPTH"
    then some "many"
    else if str_eq name "ASTERION_SENSOR_USE_REAL_TEMP"
    then some "yes"
    else none

more_restarts : lookup "MAX_WD_RESTARTS" (from_env hundredths conversions variables) ≡ some (int 5)
unfolding from_env from_fields field_from read_as
more_restarts = refl

real_temperature :
    lookup "SENSOR_USE_REAL_TEMP" (from_env hundredths conversions variables) ≡ some (flag true)
unfolding from_env from_fields field_from read_as
real_temperature = refl

from_env-signature_example :
    (signature (from_env hundredths conversions variables)
      ≡ signature (defaults hundredths conversions))
    × ((name : String) (v : Value ℕ ℕ) (t : String)
        → lookup name (defaults hundredths conversions) ≡ some v
        → variables ("ASTERION_" <> name) ≡ some t
        → read_as hundredths conversions v t ≡ none
        → lookup name (from_env hundredths conversions variables) ≡ some v)
    × ((name : String) (v : Value ℕ ℕ)
        → lookup name (defaults hundredths conversions) ≡ some v
        → variables ("ASTERION_" <> name) ≡ none
        → lookup name (from_env hundredths conversions variables) ≡ some v)
from_env-signature_example = from_env-signature hundredths conversions variables
