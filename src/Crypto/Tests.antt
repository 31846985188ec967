-- ===== src/Crypto/Tests.antt =====
-- Runs of the verifier, and its theorems at concrete inputs. In the stand-in scheme hexadecimal is
-- the text behind "x", a public key is its private key, and a signature is the signed text.
use asterion_one.Base.{
  ◌≡◌, refl, Bool, true, false, Option, none, some, List, [], ◌∷◌, String, str_eq, if◌then◌else◌,
}
use asterion_one.Json.{Fields, end, field, num, text}
use asterion_one.Crypto.{
  Crypto, Plan, KeyEntry, listed, load_keys, load_trusted_keys, is_trusted_key, verify, sign,
}
use asterion_one.Crypto.Signatures.{IsSigned, verify-IsSigned, verify-sign_plan}

-- Two keys, one digest and one signature.
pub data Token : Type 0 where
  red blue digest signature : Token

abbrev token_hex : Token → String
token_hex red = "00ff"
token_hex blue = "11ee"
token_hex digest = "22dd"
token_hex signature = "33cc"

abbrev token_fromhex : String → Option Token
token_fromhex s =
    if str_eq s "00ff"
    then some red
    else if str_eq s "11ee"
    then some blue
    else if str_eq s "22dd"
    then some digest
    else if str_eq s "33cc"
    then some signature
    else none

abbrev token_round : (b : Token) → token_fromhex (token_hex b) ≡ some b
token_round red = refl
token_round blue = refl
token_round digest = refl
token_round signature = refl

abbrev bench_verify : Token → Token → Token → Bool
bench_verify red signature m = true
bench_verify _ _ _ = false

abbrev pub bench : Crypto
bench = record {
  Bytes = Token;
  fromhex = token_fromhex;
  hex = token_hex;
  dumps = λ cs. "[]";
  sha256_digest = λ s. digest;
  ed25519_verify = bench_verify;
  public_key = λ k. red;
  ed25519_sign = λ k m. signature;
  fromhex-hex = token_round;
  hex-key = λ k. refl;
  hex-signature = λ k m. refl;
  verify-sign = λ k m. refl;
}

abbrev listed_keys : List KeyEntry
listed_keys =
    record { name = some "ground"; public_key_hex = some "00ff" }
    ∷ record { name = none; public_key_hex = some "11EE" }
    ∷ []

abbrev ping : Fields
ping = field "sequence_id" (num 1) (field "command_type" (text "PING") end)

abbrev ping_plan : Plan
ping_plan = record {
  plan_id = some "p1";
  commands = some (ping ∷ []);
  signature = some (token_hex signature);
  public_key = some "00ff";
}

red-trusted : is_trusted_key bench red (load_trusted_keys (listed listed_keys)) ≡ true
unfolding is_trusted_key load_trusted_keys load_keys
red-trusted = refl

ping-verifies : verify bench ping_plan (load_trusted_keys (listed listed_keys)) ≡ true
unfolding verify is_trusted_key load_trusted_keys load_keys
ping-verifies = refl

verify-IsSigned_example : IsSigned bench ping_plan (load_trusted_keys (listed listed_keys))
verify-IsSigned_example =
    verify-IsSigned bench ping_plan (load_trusted_keys (listed listed_keys)) ping-verifies

verify-sign_plan_example :
    verify bench
      (record {
        plan_id = some "p1";
        commands = some (ping ∷ []);
        signature = some (token_hex (sign bench (ping ∷ []) blue));
        public_key = some "00ff";
      })
      (load_trusted_keys (listed listed_keys))
    ≡ true
verify-sign_plan_example =
    verify-sign_plan bench (some "p1") ping [] blue (load_trusted_keys (listed listed_keys))
      red-trusted
