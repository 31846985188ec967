-- ===== src/Audit/Chain.antt =====
-- flight/audit_logger.py: the chain, what `verify_chain` decides, and that logging keeps it.
use asterion_one.Base.{
  ℕ, zero, suc, ◌+◌, ◌≡◌, refl, sym, ◌∙◌, ap, ◌↔◌, true, false, some, List, [], ◌∷◌, ◌++◌, String,
  str_eq, eq_iff, arith, length, last_or, last_or-append, Bool-cases, inl, inr,
}
use asterion_one.Json.{Fields}
use asterion_one.Models.{Severity, AuditEntry}
use asterion_one.Audit.{
  Platform, Line, entry, unreadable, Logger, genesis_hash, read_all, hashes, load_last_hash,
  open_log, log, recomputed, verify_from, verify_chain, new_entry,
}

-- An entry is sound behind a hash: it names that hash as the previous one, and its own hash is the
-- one of its text.
abbrev pub IsSound : Platform → String → AuditEntry → Type 0
IsSound p prev e = (e.prev_hash ≡ prev) × (e.hash ≡ recomputed p e)

abbrev pub IsChain : Platform → String → List AuditEntry → Type 0
IsChain p prev [] = Unit
IsChain p prev (e ∷ es) = IsSound p prev e × IsChain p e.hash es

-- The hash that the next entry must name.
abbrev pub end_hash : String → List AuditEntry → String
end_hash prev es = last_or prev (hashes es)

module _ (p : Platform) where
  verify_from-valid :
      (total : ℕ) (prev : String) (i : ℕ) (es : List AuditEntry)
      → (verify_from p total prev i es).chain_valid ≡ true
      → IsChain p prev es
  unfolding verify_from
  verify_from-valid total prev i [] h = tt
  verify_from-valid total prev i (e ∷ es) h = ground (
    arith,
    eq_iff e.prev_hash prev,
    eq_iff e.hash (recomputed p e),
    verify_from-valid total e.hash (i + 1) es,
  )

  verify_from-chain :
      (total : ℕ) (prev : String) (i : ℕ) (es : List AuditEntry)
      → IsChain p prev es
      → (verify_from p total prev i es).chain_valid ≡ true
  unfolding verify_from
  verify_from-chain total prev i [] h = refl
  verify_from-chain total prev i (e ∷ es) h = ground (
    arith,
    eq_iff e.prev_hash prev,
    eq_iff e.hash (recomputed p e),
    verify_from-chain total e.hash (i + 1) es h.1,
  )

  -- `verify_chain` accepts exactly the logs whose readable entries form a chain from "GENESIS".
  pub verify_chain_iff :
      (l : Logger)
      → ((verify_chain p l).chain_valid ≡ true) ↔ IsChain p genesis_hash (read_all l.lines)
  unfolding verify_chain
  verify_chain_iff l = (verify_from-valid _ genesis_hash 0 _, verify_from-chain _ genesis_hash 0 _)

-- The entries before the reported index form a chain, and the entry at the index is not sound
-- behind it.
abbrev pub BreaksAt : Platform → String → List AuditEntry → ℕ → Type 0
BreaksAt p prev [] i = ⊥
BreaksAt p prev (e ∷ es) zero = ¬ IsSound p prev e
BreaksAt p prev (e ∷ es) (suc i) = IsSound p prev e × BreaksAt p e.hash es i

verify_from-breaks :
    (p : Platform) (total : ℕ) (prev : String) (i : ℕ) (es : List AuditEntry)
    → (verify_from p total prev i es).chain_valid ≡ false
    → (k : ℕ) × ((verify_from p total prev i es).break_at_index ≡ some (i + k))
      × BreaksAt p prev es k
unfolding verify_from
verify_from-breaks p total prev i [] h = cc
verify_from-breaks p total prev i (e ∷ es) h = elim (Bool-cases (str_eq e.prev_hash prev)) [
  | inr unlinked ↦
      (zero, rw unlinked (ap some (omega arith)), λ s. ground (arith, eq_iff e.prev_hash prev, s.0))
  | inl linked ↦ elim (Bool-cases (str_eq e.hash (recomputed p e))) [
    | inr forged ↦ (
      zero,
      rw (linked, forged) (ap some (omega arith)),
      λ s. ground (arith, eq_iff e.hash (recomputed p e), s.1),
    )
    | inl honest ↦
        let (k, found, breaks) = verify_from-breaks p total e.hash (i + 1) es (ground arith) in
        (
          suc k,
          rw (linked, honest) (found ∙ ap some (omega arith)),
          (((eq_iff e.prev_hash prev).0 linked, (eq_iff e.hash (recomputed p e)).0 honest), breaks),
        )
  ]
]

-- A rejected log is reported with the total of its entries and the index of its first broken one.
pub verify_chain-breaks :
    (p : Platform) (l : Logger)
    → (verify_chain p l).chain_valid ≡ false
    → (k : ℕ) × ((verify_chain p l).break_at_index ≡ some k)
      × BreaksAt p genesis_hash (read_all l.lines) k
unfolding verify_chain
verify_chain-breaks p l h =
    let (k, found, breaks) =
      verify_from-breaks p (length (read_all l.lines)) genesis_hash 0 (read_all l.lines) h in
    (k, found ∙ ap some (omega arith), breaks)

read_all-append : (ls ks : List Line) → read_all (ls ++ ks) ≡ read_all ls ++ read_all ks
unfolding read_all
read_all-append [] ks = refl
read_all-append (entry e ∷ ls) ks = ap (◌∷◌ e) (read_all-append ls ks)
read_all-append (unreadable ∷ ls) ks = read_all-append ls ks

read_all-entry :
    (ls : List Line) (e : AuditEntry) → read_all (ls ++ entry e ∷ []) ≡ read_all ls ++ e ∷ []
unfolding read_all
read_all-entry ls e = read_all-append ls (entry e ∷ [])

pub IsChain-append :
    (p : Platform) (prev : String) (es fs : List AuditEntry)
    → IsChain p prev es
    → IsChain p (end_hash prev es) fs
    → IsChain p prev (es ++ fs)
IsChain-append p prev [] fs h k = k
IsChain-append p prev (e ∷ es) fs h k = (h.0, IsChain-append p e.hash es fs h.1 k)

-- The chain is whole, and the logger's pointer is its end.
pub record Inv (p : Platform) (l : Logger) : Type 0 where
  pub chained : IsChain p genesis_hash (read_all l.lines)
  pub pointed : l.prev_hash ≡ end_hash genesis_hash (read_all l.lines)

hashes-append :
    (es : List AuditEntry) (e : AuditEntry) → hashes (es ++ e ∷ []) ≡ hashes es ++ e.hash ∷ []
hashes-append [] e = refl
hashes-append (x ∷ es) e = ap (◌∷◌ x.hash) (hashes-append es e)

end_hash-append :
    (prev : String) (es : List AuditEntry) (e : AuditEntry) → end_hash prev (es ++ e ∷ []) ≡ e.hash
end_hash-append prev es e =
    ap (last_or prev) (hashes-append es e) ∙ last_or-append prev e.hash (hashes es)

-- Logging appends one sound entry: the log that was a chain, with the pointer at its end, is so
-- afterwards, with the same entries before the new one.
pub log-Inv :
    (p : Platform) (event_type : String) (severity : Severity) (description : String)
    (metadata : Fields) (l : Logger)
    → Inv p l
    → let (e, l') = log p event_type severity description metadata l in
      Inv p l' × (read_all l'.lines ≡ read_all l.lines ++ e ∷ []) × (l'.source ≡ l.source)
unfolding log
log-Inv p event_type severity description metadata l v =
    let e = new_entry p event_type severity description metadata l in
    let appended : read_all (l.lines ++ entry e ∷ []) ≡ read_all l.lines ++ e ∷ [] =
      read_all-entry l.lines e in
    (
      record {
        chained = rw appended (
            IsChain-append p genesis_hash (read_all l.lines) (e ∷ []) v.chained
              ((v.pointed, refl), tt));
        pointed = rw appended (sym (end_hash-append genesis_hash (read_all l.lines) e));
      },
      appended,
      refl,
    )

-- A log file whose entries form a chain opens with the pointer at its end, also after a restart.
pub open_log-Inv :
    (p : Platform) (ls : List Line) (source : String) (readings : ℕ)
    → IsChain p genesis_hash (read_all ls)
    → Inv p (open_log ls source readings)
unfolding open_log load_last_hash
open_log-Inv p ls source readings h = record { chained = h; pointed = refl }
