-- ===== src/Crypto/Keys.antt =====
-- flight/crypto_verifier.py: which keys are trusted.
use asterion_one.Base.{
  ◌≡◌, refl, Bool, true, false, List, [], ◌∷◌, String, str_eq, eq_iff, arith, if◌then◌else◌,
  is_some, get_or,
}
use asterion_one.Base.Assoc.{Assoc, lookup, lookup-insert, lookup-remove}
use asterion_one.Crypto.{
  Crypto, Verifier, KeyEntry, listed, load_key, load_keys, load_trusted_keys, is_trusted_key,
  add_trusted_key, remove_trusted_key,
}

-- Some entry of the list has this text as its key.
abbrev pub lists_key : String → List KeyEntry → Bool
lists_key k [] = false
lists_key k (e ∷ es) = if str_eq (get_or e.public_key_hex "") k then true else lists_key k es

load_keys-lookup :
    (k : String) (es : List KeyEntry) (d : Assoc String)
    → str_eq k "" ≡ false
    → is_some (lookup k (load_keys es d)) ≡ (if lists_key k es then true else is_some (lookup k d))
unfolding load_keys
load_keys-lookup k [] d h = refl
load_keys-lookup k (e ∷ es) d h = ground (
  arith,
  load_keys-lookup k es (load_key e d) h,
  lookup-insert (get_or e.public_key_hex "") k (get_or e.name "unknown") d,
  eq_iff (get_or e.public_key_hex "") "",
  eq_iff (get_or e.public_key_hex "") k,
  eq_iff k "",
)

module _ (cr : Crypto) where
  open cr use {Bytes, hex}

  -- After the keys are loaded from a file that lists some, a key whose hexadecimal text is not empty
  -- is trusted exactly when an entry has that text, letter for letter, as `bytes.hex` writes it.
  pub load_trusted_keys-is_trusted_key :
      (es : List KeyEntry) (k : Bytes)
      → str_eq (hex k) "" ≡ false
      → is_trusted_key cr k (load_trusted_keys (listed es)) ≡ lists_key (hex k) es
  unfolding is_trusted_key load_trusted_keys
  load_trusted_keys-is_trusted_key es k h = ground (arith, load_keys-lookup (hex k) es [] h)

  -- Adding a key makes it trusted, removing it makes it untrusted, and neither changes whether a key
  -- with another hexadecimal text is trusted.
  pub is_trusted_key-changes :
      (name : String) (k j : Bytes) (v : Verifier)
      → (is_trusted_key cr j (add_trusted_key cr name k v)
          ≡ (if str_eq (hex k) (hex j) then true else is_trusted_key cr j v))
        × (is_trusted_key cr j (remove_trusted_key cr k v)
            ≡ (if str_eq (hex k) (hex j) then false else is_trusted_key cr j v))
  unfolding is_trusted_key add_trusted_key remove_trusted_key
  is_trusted_key-changes name k j v = (
    ground (arith, lookup-insert (hex k) (hex j) name v.trusted_keys),
    ground (arith, lookup-remove (hex k) (hex j) v.trusted_keys),
  )
