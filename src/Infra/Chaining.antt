-- ===== src/Infra/Chaining.antt =====
-- infra/inject_cascade_live.py: the injected events continue the chain of the log.
use asterion_one.Base.{
  ℕ, ◌+◌, ◌≡◌, refl, ap, Option, none, some, List, [], ◌∷◌, ◌++◌, String, map, length,
}
use asterion_one.Models.{AuditEntry}
use asterion_one.Audit.{Platform, Line, entry, unreadable, genesis_hash, read_all}
use asterion_one.Audit.Chain.{IsChain, IsChain-append, end_hash}
use asterion_one.Infra.Cascade.{
  last_hash, Planned, plan, hash_event, build_from, build_cascade, envelopes, sent, Envelope,
}

-- The readable entries of the file.
abbrev pub entries : Option (List Line) → List AuditEntry
entries none = []
entries (some ls) = read_all ls

abbrev pub payloads : List Envelope → List AuditEntry
payloads = map (λ m. m.payload)

hash_of_last-end_hash :
    (l : Line) (ls : List Line) (prev h : String)
    → last_hash (some (l ∷ ls)) ≡ some h
    → end_hash prev (read_all (l ∷ ls)) ≡ h
unfolding last_hash read_all
hash_of_last-end_hash (entry e) [] prev h k = cc
hash_of_last-end_hash unreadable [] prev h k = cc
hash_of_last-end_hash (entry e) (m ∷ ms) prev h k = hash_of_last-end_hash m ms e.hash h k
hash_of_last-end_hash unreadable (m ∷ ms) prev h k = hash_of_last-end_hash m ms prev h k

last_hash-end_hash :
    (file : Option (List Line)) (h : String)
    → last_hash file ≡ some h
    → end_hash genesis_hash (entries file) ≡ h
unfolding last_hash read_all
last_hash-end_hash none h k = cc
last_hash-end_hash (some []) h k = cc
last_hash-end_hash (some (l ∷ ls)) h k = hash_of_last-end_hash l ls genesis_hash h k

module _ (p : Platform) where
  build_from-IsChain :
      (now : ℕ) (es : List Planned) (prev : String) → IsChain p prev (build_from p now prev es)
  unfolding build_from hash_event
  build_from-IsChain now [] prev = tt
  build_from-IsChain now (e ∷ es) prev = ((refl, refl), build_from-IsChain now es _)

  payloads-envelopes : (n : ℕ) (es : List AuditEntry) → payloads (envelopes p n es) ≡ es
  unfolding envelopes
  payloads-envelopes n [] = refl
  payloads-envelopes n (e ∷ es) = ap (◌∷◌ e) (payloads-envelopes (n + 1) es)

  -- Where the log's entries form a chain and its last line is an entry, or the log is empty or missing, the
  -- script sends, and the log with the sent events behind it is a chain too.
  pub sent-IsChain :
      (now : ℕ) (file : Option (List Line)) {h : String}
      → IsChain p genesis_hash (entries file)
      → last_hash file ≡ some h
      → (messages : List Envelope) × (sent p now file ≡ some messages)
        × IsChain p genesis_hash (entries file ++ payloads messages)
        × (length messages ≡ 5)
  unfolding sent build_cascade envelopes build_from
  sent-IsChain now file {h} chained found = (
    envelopes p 10000 (build_from p now h plan),
    rw found refl,
    rw (payloads-envelopes 10000 (build_from p now h plan)) (
        IsChain-append p genesis_hash (entries file) (build_from p now h plan) chained
          (rw (last_hash-end_hash file h found) (build_from-IsChain now plan h))),
    refl,
  )
