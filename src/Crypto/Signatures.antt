-- ===== src/Crypto/Signatures.antt =====
-- flight/crypto_verifier.py: what `verify` accepts, and signing before it.
use asterion_one.Base.{
  ◌≡◌, ◌≢◌, refl, inl, inr, true, Option, some, List, [], ◌∷◌, String, arith, get_or, Option-cases,
}
use asterion_one.Json.{Fields}
use asterion_one.Crypto.{
  Crypto, Plan, Verifier, is_trusted_key, compute_canonical_hash, sign, verify,
}

module _ (cr : Crypto) where
  open cr use {Bytes, fromhex, hex, ed25519_verify, public_key}

  -- What a valid plan has: at least one command, a trusted key, and under it a signature of the
  -- canonical hash of exactly these commands.
  pub record IsSigned (plan : Plan) (v : Verifier) : Type 0 where
    pub commands : List Fields
    pub signature : Bytes
    pub key : Bytes
    pub has_commands : get_or plan.commands [] ≡ commands
    pub nonempty : commands ≢ []
    pub has_signature : fromhex (get_or plan.signature "") ≡ some signature
    pub has_key : fromhex (get_or plan.public_key "") ≡ some key
    pub trusted : is_trusted_key cr key v ≡ true
    pub signed : ed25519_verify key signature (compute_canonical_hash cr commands) ≡ true

  -- A plan that verifies has a command, a trusted key and a signature, under this key, of the
  -- canonical hash of exactly its commands.
  pub verify-IsSigned : (plan : Plan) (v : Verifier) → verify cr plan v ≡ true → IsSigned plan v
  unfolding verify
  verify-IsSigned plan v h = elim (Option-cases (fromhex (get_or plan.public_key ""))) [
    | inl no_key ↦ absurd (ground arith)
    | inr (key, has_key) ↦ elim (Option-cases (fromhex (get_or plan.signature ""))) [
      | inl no_signature ↦ absurd (ground arith)
      | inr (signature, has_signature) ↦ record {
        commands = get_or plan.commands [];
        signature = signature;
        key = key;
        has_commands = refl;
        nonempty = ground arith;
        has_signature = has_signature;
        has_key = has_key;
        trusted = ground arith;
        signed = ground arith;
      }
    ]
  ]

  -- Commands signed by a private key whose public key is trusted verify under the signature, where
  -- there is at least one command.
  pub verify-sign_plan :
      (plan_id : Option String) (c : Fields) (cs : List Fields) (k : Bytes) (v : Verifier)
      → is_trusted_key cr (public_key k) v ≡ true
      → verify cr
          (record {
            plan_id = plan_id;
            commands = some (c ∷ cs);
            signature = some (hex (sign cr (c ∷ cs) k));
            public_key = some (hex (public_key k));
          })
          v
        ≡ true
  unfolding verify sign
  verify-sign_plan plan_id c cs k v t = ground (
    arith,
    cr.fromhex-hex (public_key k),
    cr.fromhex-hex (cr.ed25519_sign k (compute_canonical_hash cr (c ∷ cs))),
    cr.hex-key k,
    cr.hex-signature k (compute_canonical_hash cr (c ∷ cs)),
    cr.verify-sign k (compute_canonical_hash cr (c ∷ cs)),
  )
