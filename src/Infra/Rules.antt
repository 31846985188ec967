-- ===== src/Infra/Rules.antt =====
-- infra/fault_injector_bad_sig.py: what each call of the script does to the verdict of the
-- steps so far.
use asterion_one.Base.{
  ℕ, ◌≤◌, ◌==◌, leb, ◌≡◌, refl, sym, ap, ◌∙◌, ◌⊎◌, Bool, true, false, ◌&&◌, Option, none, some,
  List, [], ◌∷◌, ◌++◌, String, ◌<>◌, All, keep, length, get_or, Option-cases, arith, Bool-cases,
  inl, inr,
}
use asterion_one.Json.{Json, Fields, end}
use asterion_one.Infra.Answers.{is_text, item, listed, chain_of}
use asterion_one.Infra.Script.{
  World, Method, Script, State, Step, Result, returned, finished, raised, stuck, Summary, Report,
  pure, then_run, ◌>>=◌, needed, log_step, finalize_report, expect, api_request, api_get, Request,
  answer, read_time,
}
use asterion_one.Infra.BadSignature.{mark_injected, is_about}

-- Every step succeeded.
abbrev pub all_succeed : List Step → Bool
all_succeed [] = true
all_succeed (s ∷ ss) = s.success && all_succeed ss

all_succeed-append :
    (ss : List Step) (s : Step) → all_succeed (ss ++ s ∷ []) ≡ all_succeed ss && s.success
all_succeed-append [] s = ground arith
all_succeed-append (t ∷ ss) s = ground (arith, all_succeed-append ss s)

-- The API gave this reply to the request, whatever was asked before it.
abbrev pub Replied : World → String → Json × ℕ → Type 0
Replied w path reply =
    (before : List Request) × (answer w
        (w.respond (before ++ record { method = Method.get_request; path = path; body = end } ∷ []))
      ≡ some reply)

-- A row of the list of commands has a status, and it is not "EXECUTED".
abbrev pub IsUnexecuted : Json → Type 0
IsUnexecuted row = (v : Json) × (item "status" row ≡ some v) × (is_text "EXECUTED" v ≡ false)

-- The event counts for the plan.
abbrev pub is_hit : World → String → Json → Bool
is_hit w plan_id e = get_or (is_about w plan_id e) false

-- What a report that passes rests on: the last status of the poll, and the replies to the three queries
-- of the plan with this identifier.
pub record Backing (w : World) (s : Summary) : Type 0 where
  pub plan_id : String
  pub rejected : is_text "REJECTED" s.plan_status ≡ true
  pub commands : Json × ℕ
  pub commands_replied : Replied w ("/commands?plan_id=" <> plan_id) commands
  pub rows : List Json
  pub rows_listed : listed commands ≡ some rows
  pub unexecuted : All IsUnexecuted rows
  pub events : Json × ℕ
  pub events_replied : Replied w "/events?severity=CRITICAL&limit=50" events
  pub critical : List Json
  pub critical_listed : listed events ≡ some critical
  pub enough : 2 ≤ length (keep (is_hit w plan_id) critical)
  pub verified : Json × ℕ
  pub verified_replied : Replied w "/events/verify" verified
  pub intact : chain_of verified ≡ some true

abbrev pub IsBacked : World → Option Summary → Type 0
IsBacked w none = ⊥
IsBacked w (some s) = Backing w s

pub record IsHonest (w : World) (r : Report) : Type 0 where
  pub verdict : r.passed ≡ all_succeed r.steps
  pub backed : r.passed ≡ true → IsBacked w r.summary

module _ (w : World) where
  -- A result after which the steps have the verdict `v`, or an honest report.
  abbrev pub Leaves : {A : Type 0} → Result A → Bool → Type 0
  Leaves (returned a s) v = all_succeed s.steps ≡ v
  Leaves (finished r) v = IsHonest w r
  Leaves raised v = Unit
  Leaves stuck v = ⊥

  -- A script that takes the verdict from `v` to `v'`.
  pub record Takes {A : Type 0} (m : Script A) (v v' : Bool) : Type 0 where
    pub apply : (s : State) → all_succeed s.steps ≡ v → Leaves (m s) v'

  pub then_run-Leaves :
      {A B : Type 0} (r : Result A) (f : A → Script B) (v v' : Bool)
      → Leaves r v
      → ((a : A) → Takes (f a) v v')
      → Leaves (then_run r f) v'
  then_run-Leaves (returned a s) f v v' h k = (k a).apply s h
  then_run-Leaves (finished r) f v v' h k = h
  then_run-Leaves raised f v v' h k = tt
  then_run-Leaves stuck f v v' h k = h

  pub >>=-Takes :
      {A B : Type 0} {m : Script A} {f : A → Script B} {v v' v'' : Bool}
      → Takes m v v'
      → ((a : A) → Takes (f a) v' v'')
      → Takes (m >>= f) v v''
  unfolding ◌>>=◌
  >>=-Takes {m} {f} {v} {v'} {v''} h k = record {
    apply = λ s e. then_run-Leaves (m s) f v' v'' (h.apply s e) k;
  }

  pub log_step-Takes : (name : String) (b : Bool) {v : Bool} → Takes (log_step name b) v (v && b)
  unfolding log_step
  log_step-Takes name b {v} = record {
    apply = λ s e.
        all_succeed-append s.steps (record { step = name; success = b })
        ∙ ap (λ (u : Bool). u && b) e;
  }

  pub pure-Takes : {A : Type 0} (a : A) {v : Bool} → Takes (pure a) v v
  unfolding pure
  pure-Takes a = record { apply = λ s e. e }

  pub needed-Takes : {A : Type 0} (o : Option A) {v : Bool} → Takes (needed o) v v
  unfolding needed
  needed-Takes none = record { apply = λ s e. tt }
  needed-Takes (some a) = record { apply = λ s e. e }

  pub finalize_report-Takes :
      {A : Type 0} (summary : Option Summary) (passed : Bool) {v v' : Bool}
      → passed ≡ v
      → (passed ≡ true → IsBacked w summary)
      → Takes (finalize_report {A = A} summary passed) v v'
  unfolding finalize_report
  finalize_report-Takes summary passed h k = record {
    apply = λ s e. record { verdict = h ∙ sym e; backed = k };
  }

  pub expect-Takes : (code status : ℕ) (name : String) → Takes (expect code status name) true true
  unfolding expect
  expect-Takes code status name = elim (Bool-cases (status == code)) [
    | inl same ↦ rw same (pure-Takes tt)
    | inr other ↦ rw other (
        >>=-Takes (log_step-Takes name false)
          (λ _. finalize_report-Takes none false refl (λ h. cc)))
  ]

  -- A result that leaves any verdict is none that returns.
  pub ended :
      {A : Type 0} (r : Result A)
      → Leaves r true
      → Leaves r false
      → (r ≡ raised) ⊎ ((p : Report) × (r ≡ finished p) × IsHonest w p)
  ended (returned a s) h k = absurd (cc (h, k))
  ended (finished p) h k = inr (p, refl, h)
  ended raised h k = inl refl
  ended stuck h k = absurd h

  pub api_request-Takes :
      (method : Method) (path : String) (body : Fields) {v : Bool}
      → Takes (api_request w method path body) v v
  unfolding api_request needed
  api_request-Takes method path body {v} = record {
    apply = λ s e.
        (needed-Takes
            (answer w
              (w.respond (s.requests ++ record { method = method; path = path; body = body } ∷ [])))
            {v = v}).apply
          _ e;
  }

  pub read_time-Takes : {v : Bool} → Takes (read_time w) v v
  unfolding read_time
  read_time-Takes = record { apply = λ s e. e }

  pub mark_injected-Takes : {v : Bool} → Takes (mark_injected w) v v
  unfolding mark_injected
  mark_injected-Takes = record { apply = λ s e. e }

  -- A request, with what is known of the reply.
  pub api_get-then :
      {A : Type 0} (path : String) (f : Json × ℕ → Script A) {v v' : Bool}
      → ((reply : Json × ℕ) → Replied w path reply → Takes (f reply) v v')
      → Takes (api_get w path >>= f) v v'
  unfolding ◌>>=◌ api_request needed
  api_get-then path f {v} {v'} k = record {
    apply = λ s e.
        let request : Request = record { method = Method.get_request; path = path; body = end } in
        elim (Option-cases (answer w (w.respond (s.requests ++ request ∷ [])))) [
          | inl lost ↦ rw lost tt
          | inr (reply, got) ↦ rw got ((k reply (s.requests, got)).apply _ e)
        ];
  }

  -- A value that is needed, with what is known of it.
  pub needed-then :
      {A B : Type 0} (o : Option A) (f : A → Script B) {v v' : Bool}
      → ((a : A) → o ≡ some a → Takes (f a) v v')
      → Takes (needed o >>= f) v v'
  unfolding ◌>>=◌ needed
  needed-then none f k = record { apply = λ s e. tt }
  needed-then (some a) f k = k a refl

  pub finalize_verified-Takes :
      (status : Json) (executed failed found : ℕ) (chain : Bool) {v' : Bool}
      → (is_text "REJECTED" status ≡ true
          → executed ≡ 0
          → 2 ≤ found
          → chain ≡ true
          → Backing w (record {
            plan_status = status;
            commands_executed = executed;
            commands_failed = failed;
            critical_events_count = found;
            chain_valid = chain;
          }))
      → Takes {A = Unit {0}}
          (finalize_report
            (some (record {
              plan_status = status;
              commands_executed = executed;
              commands_failed = failed;
              critical_events_count = found;
              chain_valid = chain;
            }))
            (is_text "REJECTED" status && ((executed == 0) && (leb 2 found && chain))))
          ((((true && is_text "REJECTED" status) && (executed == 0)) && leb 2 found) && chain)
          v'
  finalize_verified-Takes status executed failed found chain backing =
      finalize_report-Takes _ _ (ground arith)
        (λ h. backing (ground arith) (ground arith) (ground arith) (ground arith))
