-- ===== src/Audit/Tamper.antt =====
-- flight/audit_logger.py: which changes of a log file `verify_chain` notices.
use text.Mathlib.TextLemmas.{append_assoc as text_append_assoc}
use asterion_one.Base.{
  ℕ, suc, ◌+◌, ◌≡◌, ◌≢◌, refl, sym, ◌∙◌, ap, true, false, List, [], ◌∷◌, ◌++◌, String, ◌<>◌, length,
  Bool-cases, inl, inr,
}
use asterion_one.Json.{Fields}
use asterion_one.Models.{Severity, AuditEntry}
use asterion_one.Audit.{
  Platform, Logger, genesis_hash, read_all, recomputed, verify_from, verify_chain,
}
use asterion_one.Audit.Chain.{IsSound, IsChain, end_hash, verify_chain_iff}

IsChain-split :
    (p : Platform) (prev : String) (before after : List AuditEntry) (e : AuditEntry)
    → IsChain p prev (before ++ e ∷ after)
    → IsSound p (end_hash prev before) e × IsChain p e.hash after
IsChain-split p prev [] after e h = h
IsChain-split p prev (x ∷ before) after e h = IsChain-split p x.hash before after e h.1

IsChain-prefix :
    (p : Platform) (prev : String) (es fs : List AuditEntry)
    → IsChain p prev (es ++ fs)
    → IsChain p prev es
IsChain-prefix p prev [] fs h = tt
IsChain-prefix p prev (e ∷ es) fs h = (h.0, IsChain-prefix p e.hash es fs h.1)

-- In a log that verifies, replacing an entry that is not the last by one whose text has another
-- digest is noticed, also where the forger gives the new entry its proper hash.
pub tamper_detected :
    (p : Platform) (l l' : Logger) (before after : List AuditEntry) (e e' next : AuditEntry)
    → (verify_chain p l).chain_valid ≡ true
    → read_all l.lines ≡ before ++ e ∷ next ∷ after
    → read_all l'.lines ≡ before ++ e' ∷ next ∷ after
    → recomputed p e ≢ recomputed p e'
    → (verify_chain p l').chain_valid ≡ false
tamper_detected p l l' before after e e' next valid es es' digest =
    elim (Bool-cases (verify_chain p l').chain_valid) [
      | inr caught ↦ caught
      | inl missed ↦
          let old =
            IsChain-split p genesis_hash before (next ∷ after) e
              (rw es at ((verify_chain_iff p l).0 valid)) in
          let new =
            IsChain-split p genesis_hash before (next ∷ after) e'
              (rw es' at ((verify_chain_iff p l').0 missed)) in
          absurd (digest (sym old.0.1 ∙ sym old.1.0.0 ∙ new.1.0.0 ∙ new.0.1))
    ]

module _ (p : Platform) (e e' : AuditEntry) (own : e'.hash ≡ e.hash)
    (link : e'.prev_hash ≡ e.prev_hash) (digest : recomputed p e' ≡ recomputed p e) where
  verify_from-replace :
      (total : ℕ) (prev : String) (i : ℕ) (before after : List AuditEntry)
      → verify_from p total prev i (before ++ e' ∷ after)
        ≡ verify_from p total prev i (before ++ e ∷ after)
  unfolding verify_from
  verify_from-replace total prev i [] after = simp (own, link, digest)
  verify_from-replace total prev i (x ∷ before) after =
      rw (verify_from-replace total x.hash (i + 1) before after)

length-replace {ℓ} :
    {A : Type ℓ} (xs ys : List A) (a b : A) → length (xs ++ a ∷ ys) ≡ length (xs ++ b ∷ ys)
length-replace [] ys a b = refl
length-replace (x ∷ xs) ys a b = ap suc (length-replace xs ys a b)

shift-text :
    (first moved rest tail : String)
    → (first <> ("|" <> moved)) <> ("|" <> (rest <> tail))
      ≡ first <> ("|" <> ((moved <> ("|" <> rest)) <> tail))
shift-text first moved rest tail =
    text_append_assoc first ("|" <> moved) ("|" <> (rest <> tail))
    ∙ ap (λ (t : String). first <> t)
        (text_append_assoc "|" moved ("|" <> (rest <> tail))
          ∙ ap (λ (t : String). "|" <> (moved <> t)) (sym (text_append_assoc "|" rest tail))
          ∙ ap (λ (t : String). "|" <> t) (sym (text_append_assoc moved ("|" <> rest) tail)))

-- An entry with the given fields in place of its own.
abbrev pub edited : AuditEntry → Severity → Fields → String → String → AuditEntry
edited e severity metadata event_type source = record e {
  severity = severity;
  metadata = metadata;
  event_type = event_type;
  source = source;
}

-- The text that is hashed leaves out the severity and the metadata, and does not tell where the
-- event type ends and the source begins: an entry with another severity and other metadata, and
-- with the piece `"|" + moved` taken from the front of its source to the end of its event type,
-- gives the same verification result.
pub unprotected_fields :
    (p : Platform) (l l' : Logger) (before after : List AuditEntry) (e : AuditEntry)
    (severity severity' : Severity) (metadata metadata' : Fields) (first moved rest : String)
    → read_all l.lines ≡ before ++ edited e severity metadata first (moved <> ("|" <> rest)) ∷ after
    → read_all l'.lines
      ≡ before ++ edited e severity' metadata' (first <> ("|" <> moved)) rest ∷ after
    → verify_chain p l' ≡ verify_chain p l
unfolding verify_chain
unprotected_fields p l l' before after e severity severity' metadata metadata' first moved rest es
      es' =
    let old = edited e severity metadata first (moved <> ("|" <> rest)) in
    let new = edited e severity' metadata' (first <> ("|" <> moved)) rest in
    let same : recomputed p new ≡ recomputed p old =
      ap
        (λ (t : String). p.sha256 (e.prev_hash <> ("|" <> (p.isoformat e.timestamp <> ("|" <> t)))))
        (shift-text first moved rest ("|" <> e.description)) in
    rw (es, es', length-replace before after new old)
      (verify_from-replace p old new refl refl same (length (before ++ old ∷ after)) genesis_hash 0
        before after)

-- A log that verifies still does when entries are cut off its end.
pub truncation_unnoticed :
    (p : Platform) (l l' : Logger) (cut : List AuditEntry)
    → (verify_chain p l).chain_valid ≡ true
    → read_all l.lines ≡ read_all l'.lines ++ cut
    → (verify_chain p l').chain_valid ≡ true
truncation_unnoticed p l l' cut valid es = (verify_chain_iff p l').1 (
    IsChain-prefix p genesis_hash (read_all l'.lines) cut
      (rw es at ((verify_chain_iff p l).0 valid)))
