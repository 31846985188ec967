-- ===== src/Infra/Logged.antt =====
-- infra/fault_injector.py: the T3 entries of the audit log.
use mathlib.Core.Path.{subst}
use asterion_one.Base.{
  ◌+◌, ◌<◌, ◌≡◌, refl, ap, Bool, true, List, [], ◌∷◌, ◌++◌, String, ◌<>◌, length, keep, arith,
}
use asterion_one.Base.Substring.{contains-append}
use asterion_one.Json.{Fields}
use asterion_one.Models.{Severity, nominal, safe}
use asterion_one.Audit.{Platform, Logger, log, get_entries, read_all}
use asterion_one.Audit.Chain.{Inv, log-Inv}
use asterion_one.Floats.{Floats}
use asterion_one.Fsw.State.{Core, Input}
use asterion_one.Fsw.Changes.{transition_to, transition_text, transition_metadata}
use asterion_one.Fsw.Faults.{evaluate_faults, joined}
use asterion_one.Fsw.{tick, do_nominal}
use asterion_one.Fsw.Trail.{IsKept, Inv-IsKept}
use asterion_one.Infra.Spikes.{is_t3, t3_entries}

count-append :
    {A : Type 0} (f : A → Bool) (xs ys : List A)
    → length (keep f (xs ++ ys)) ≡ length (keep f xs) + length (keep f ys)
count-append f [] ys = omega arith
count-append f (x ∷ xs) ys = ground (arith, count-append f xs ys)

keep-all : {A : Type 0} (f : A → Bool) (xs : List A) → ((x : A) → f x ≡ true) → keep f xs ≡ xs
keep-all f [] h = refl
keep-all f (x ∷ xs) h = rw (h x, keep-all f xs h) refl

t3_entries-read_all : (l : Logger) → t3_entries l ≡ keep is_t3 (read_all l.lines)
unfolding get_entries
t3_entries-read_all l = ap (keep is_t3) (keep-all _ (read_all l.lines) (λ e. refl))

-- The log is whole and has a T3 entry.
pub record HasT3 (p : Platform) (l : Logger) : Type 0 where
  pub whole : Inv p l
  pub counted : 0 < length (keep is_t3 (read_all l.lines))

pub t3_entries-HasT3 : (p : Platform) (l : Logger) → HasT3 p l → 0 < length (t3_entries l)
t3_entries-HasT3 p l v = rw (t3_entries-read_all l) v.counted

pub HasT3-IsKept : (p : Platform) → IsKept p (HasT3 p)
HasT3-IsKept p = record {
  by_log = λ event_type severity description metadata l v.
      let (whole, same, _) = log-Inv p event_type severity description metadata l v.whole in
      let e = (log p event_type severity description metadata l).0 in
      record {
        whole = whole;
        counted =
            rw same (omega (arith, v.counted, count-append is_t3 (read_all l.lines) (e ∷ [])));
      };
  by_clock = λ l v. record { whole = (Inv-IsKept p).by_clock l v.whole; counted = v.counted };
}

-- A T3 entry on a whole log.
log-HasT3 :
    (p : Platform) (fl : Floats) (severity : Severity) (reason : String) (metadata : Fields)
    (l : Logger)
    → Inv p l
    → HasT3 p
        (log p "STATE_TRANSITION" severity (transition_text p fl nominal safe reason) metadata l).1
unfolding log
log-HasT3 p fl severity reason metadata l v =
    let (whole, same, _) =
      log-Inv p "STATE_TRANSITION" severity (transition_text p fl nominal safe reason) metadata l
        v in
    let e =
      (log p "STATE_TRANSITION" severity (transition_text p fl nominal safe reason) metadata l).0 in
    let one : length (keep is_t3 (e ∷ [])) ≡ 1 = rw (contains-append "T3" _) refl in
    record {
      whole = whole;
      counted = rw same (omega (arith, one, count-append is_t3 (read_all l.lines) (e ∷ [])));
    }

-- The tick that finds a fault in NOMINAL writes the entry.
pub tick-HasT3 :
    (p : Platform) (fl : Floats) (i : Input fl.Float) (c : Core fl.Float) (fault : String)
    (more : List String)
    → c.state ≡ nominal
    → evaluate_faults fl c.config i.readings ≡ fault ∷ more
    → Inv p c.audit
    → HasT3 p (tick p fl i c).audit
unfolding tick do_nominal transition_to
tick-HasT3 p fl i c fault more up faulty v =
    let reason = "Fault detected: " <> joined (fault ∷ more) in
    subst (HasT3 p) (ground (arith, up, faulty)) (
      log-HasT3 p fl Severity.warning reason
        (transition_metadata p fl nominal safe reason c.wd_restarts) c.audit v)
