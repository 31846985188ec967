-- ===== src/Crypto.antt =====
-- flight/crypto_verifier.py: the trusted keys and the signature of a command plan. A plan is the
-- dict that the protocol describes: a key is absent or has a value of its type.
pub mod Keys
pub mod Signatures
pub mod Tests
use asterion_one.Base.{
  ℕ, Bool, true, false, ◌||◌, Option, none, some, List, [], ◌∷◌, String, str_eq, map, ◌≡◌,
  if◌then◌else◌, is_some, get_or,
}
use asterion_one.Base.Assoc.{Assoc, lookup, insert, remove}
use asterion_one.Json.{Fields}

-- What the verifier takes from `bytes`, json, hashlib and cryptography. `ed25519_verify` is false
-- where the library raises, for a key or a signature that does not fit or that does not match. The
-- laws are those of hexadecimal and of the signature scheme.
pub record Crypto : Type 1 where
  pub Bytes : Type 0
  pub fromhex : String → Option Bytes
  pub hex : Bytes → String
  pub dumps : List Fields → String
  pub sha256_digest : String → Bytes
  pub ed25519_verify : Bytes → Bytes → Bytes → Bool
  pub public_key : Bytes → Bytes
  pub ed25519_sign : Bytes → Bytes → Bytes
  pub fromhex-hex : (b : Bytes) → fromhex (hex b) ≡ some b
  pub hex-key : (k : Bytes) → str_eq (hex (public_key k)) "" ≡ false
  pub hex-signature : (k m : Bytes) → str_eq (hex (ed25519_sign k m)) "" ≡ false
  pub verify-sign : (k m : Bytes) → ed25519_verify (public_key k) (ed25519_sign k m) m ≡ true

pub record Plan : Type 0 where
  pub plan_id : Option String
  pub commands : Option (List Fields)
  pub signature : Option String
  pub public_key : Option String

-- `_trusted_keys`, names by the keys' hexadecimal text.
pub record Verifier : Type 0 where
  pub trusted_keys : Assoc String

pub record KeyEntry : Type 0 where
  pub name : Option String
  pub public_key_hex : Option String

-- The file of trusted keys: absent, not readable as JSON, or a list.
pub data KeysFile : Type 0 where
  missing unreadable : KeysFile
  listed : List KeyEntry → KeysFile

abbrev load_key : KeyEntry → Assoc String → Assoc String
load_key e d =
    let key_hex = get_or e.public_key_hex "" in
    if str_eq key_hex "" then d else insert key_hex (get_or e.name "unknown") d

pub load_keys : List KeyEntry → Assoc String → Assoc String
load_keys [] d = d
load_keys (e ∷ es) d = load_keys es (load_key e d)

-- `_load_trusted_keys`, from the constructor.
unfoldable pub load_trusted_keys : KeysFile → Verifier
load_trusted_keys missing = record { trusted_keys = [] }
load_trusted_keys unreadable = record { trusted_keys = [] }
load_trusted_keys (listed es) = record { trusted_keys = load_keys es [] }

module _ (cr : Crypto) where
  open cr use {Bytes, fromhex, hex, dumps, sha256_digest, ed25519_verify, ed25519_sign}

  unfoldable pub is_trusted_key : Bytes → Verifier → Bool
  is_trusted_key k v = is_some (lookup (hex k) v.trusted_keys)

  abbrev decode : Assoc String → List (Option Bytes)
  decode = map (λ (k, name). fromhex k)

  -- A key that is not hexadecimal makes the source raise; it is `none` in its place.
  unfoldable pub get_trusted_keys : Verifier → List (Option Bytes)
  get_trusted_keys v = decode v.trusted_keys

  unfoldable pub add_trusted_key : String → Bytes → Verifier → Verifier
  add_trusted_key name k v = record { trusted_keys = insert (hex k) name v.trusted_keys }

  unfoldable pub remove_trusted_key : Bytes → Verifier → Verifier
  remove_trusted_key k v = record { trusted_keys = remove (hex k) v.trusted_keys }

  unfoldable pub compute_canonical_hash : List Fields → Bytes
  compute_canonical_hash commands = sha256_digest (dumps commands)

  unfoldable pub compute_canonical_hash_hex : List Fields → String
  compute_canonical_hash_hex commands = hex (compute_canonical_hash commands)

  unfoldable pub sign : List Fields → Bytes → Bytes
  sign commands private_key = ed25519_sign private_key (compute_canonical_hash commands)

  abbrev is_none_or_empty : List Fields → Bool
  is_none_or_empty [] = true
  is_none_or_empty (_ ∷ _) = false

  -- From the signature's text on, for a trusted key.
  abbrev check_signature : Bytes → String → List Fields → Bool
  check_signature key signature_hex commands = elim (fromhex signature_hex) [
    | none ↦ false
    | some signature ↦ ed25519_verify key signature (compute_canonical_hash commands)
  ]

  abbrev check_key : String → String → List Fields → Verifier → Bool
  check_key public_key_hex signature_hex commands v = elim (fromhex public_key_hex) [
    | none ↦ false
    | some key ↦ if is_trusted_key key v then check_signature key signature_hex commands else false
  ]

  unfoldable pub verify : Plan → Verifier → Bool
  verify plan v =
      let commands = get_or plan.commands [] in
      let signature_hex = get_or plan.signature "" in
      let public_key_hex = get_or plan.public_key "" in
      if is_none_or_empty commands || (str_eq signature_hex "" || str_eq public_key_hex "")
      then false
      else check_key public_key_hex signature_hex commands v
