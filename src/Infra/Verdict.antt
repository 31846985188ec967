-- ===== src/Infra/Verdict.antt =====
-- infra/fault_injector_bad_sig.py: the report's verdict against the steps that it lists.
use asterion_one.Base.{
  ℕ, zero, suc, ◌+◌, ◌*◌, ◌-◌, ◌≤◌, ◌==◌, ltb, ◌≡◌, refl, ap, some, ◌∙◌, ◌⊎◌, Bool, true, false,
  ◌&&◌, [], ◌∷◌, ◌++◌, String, ◌<>◌, if◌then◌else◌, arith, Bool-cases, Option-cases, inl, inr,
}
use asterion_one.Json.{Json, end}
use asterion_one.Infra.Script.{
  World, Method, Script, State, finished, raised, Report, pure, ◌>>=◌, ◌>>◌, needed, api_request,
  answer, read_time, sleep,
}
use asterion_one.Infra.BadSignature.{
  poll_rounds, polled, is_final, poll_timeout, poll, verify_rejection, inject_bad_signature,
}
use asterion_one.Infra.Counts.{count_status-IsUnexecuted, length-about}
use asterion_one.Infra.Rules.{
  all_succeed, IsHonest, Leaves, Takes, ended, >>=-Takes, api_request-Takes, expect-Takes,
  finalize_verified-Takes, api_get-then, needed-then, log_step-Takes, mark_injected-Takes,
  needed-Takes, read_time-Takes, then_run-Leaves,
}

module _ (w : World) where
  -- Apart from the script's sleep, the clock does not run backwards.
  abbrev pub IsMonotone : Type 0
  IsMonotone = (n : ℕ) → w.time n ≤ w.time (n + 1)

  -- One round, where the time is not up: it raises, ends the loop, or goes on half a second later.
  round_of : ℕ → ℕ → String → Json → Script Json
  round_of fuel start plan_id before = do
    reply ← api_request w Method.get_request ("/command-plans/" <> plan_id) end
    after ← needed (polled w before reply)
    (if (reply.1 == 200) && is_final after
        then pure after
        else (sleep 500 >> poll w fuel start plan_id after))

  round_of-Leaves :
      (fuel start : ℕ) (plan_id : String) (before : Json) (v : Bool) (s : State)
      → all_succeed s.steps ≡ v
      → ((after : Json) (s' : State)
          → s'.readings ≡ s.readings
          → s'.slept ≡ s.slept + 500
          → all_succeed s'.steps ≡ v
          → Leaves w (poll w fuel start plan_id after s') v)
      → Leaves w (round_of fuel start plan_id before s) v
  unfolding round_of ◌>>=◌ api_request sleep pure needed
  round_of-Leaves fuel start plan_id before v s e next =
      let asked =
        s.requests
        ++ record { method = Method.get_request; path = "/command-plans/" <> plan_id; body = end }
          ∷ [] in
      elim (Option-cases (answer w (w.respond asked))) [
        | inl lost ↦ rw lost tt
        | inr (reply, got) ↦ elim (Option-cases (polled w before reply)) [
          | inl bad ↦ rw (got, bad) tt
          | inr (after, read) ↦ elim (Bool-cases ((reply.1 == 200) && is_final after)) [
            | inl done ↦ rw (got, read, done) e
            | inr more ↦ rw (got, read, more) (next after _ refl refl e)
          ]
        ]
      ]

  -- With the timeout within reach of the fuel, the loop ends by its test or by an answer.
  poll-Leaves :
      IsMonotone
      → (fuel start : ℕ) (plan_id : String) (before : Json) (v : Bool) (s : State)
      → start + poll_timeout ≤ w.time s.readings + s.slept + 500 * fuel
      → all_succeed s.steps ≡ v
      → Leaves w (poll w (suc fuel) start plan_id before s) v
  unfolding poll ◌>>=◌ read_time pure round_of
  poll-Leaves mono zero start plan_id before v s room e =
      elim (Bool-cases (ltb (w.time s.readings + s.slept - start) poll_timeout)) [
        | inr late ↦ rw late e
        | inl early ↦ absurd (ground arith)
      ]
  poll-Leaves mono (suc fuel) start plan_id before v s room e =
      elim (Bool-cases (ltb (w.time s.readings + s.slept - start) poll_timeout)) [
        | inr late ↦ rw late e
        | inl early ↦ rw early (
            round_of-Leaves (suc fuel) start plan_id before v
              (record s { readings = s.readings + 1 }) e
              (λ after s' same slept e'.
                poll-Leaves mono fuel start plan_id after v s'
                  (omega (arith, slept, ap w.time same, mono s.readings)) e'))
      ]

  -- The clock is read, and the loop starts.
  poll-Takes :
      {A : Type 0}
      → IsMonotone
      → (plan_id : String) (before : Json) (f : Json → Script A) {v v' : Bool}
      → ((j : Json) → Takes w (f j) v v')
      → Takes w (read_time w >>= λ start. poll w poll_rounds start plan_id before >>= f) v v'
  unfolding ◌>>=◌ read_time
  poll-Takes mono plan_id before f {v} {v'} k = record {
    apply = λ s e.
        then_run-Leaves w _ f v v'
          (poll-Leaves mono 20 _ plan_id before v (record s { readings = s.readings + 1 })
            (omega (arith, mono s.readings)) e)
          k;
  }

  verify_rejection-Takes :
      IsMonotone → (plan_id : String) {v' : Bool} → Takes w (verify_rejection w plan_id) true v'
  unfolding verify_rejection
  verify_rejection-Takes mono plan_id = poll-Takes mono plan_id _ _ (λ plan_status.
      >>=-Takes w (read_time-Takes w) (λ _. >>=-Takes w (log_step-Takes w _ _) (λ _.
        api_get-then w _ _ (λ commands commands_replied. needed-then w _ _ (λ rows rows_listed.
          needed-then w _ _ (λ executed counted. >>=-Takes w (needed-Takes w _) (λ failed.
            >>=-Takes w (log_step-Takes w _ _) (λ _. api_get-then w _ _ (λ events events_replied.
              needed-then w _ _ (λ critical critical_listed. needed-then w _ _ (λ kinds told.
                >>=-Takes w (log_step-Takes w _ _) (λ _.
                  api_get-then w _ _ (λ verified verified_replied.
                    needed-then w _ _ (λ chain_valid chained.
                      >>=-Takes w (log_step-Takes w _ _) (λ _.
                        finalize_verified-Takes w _ _ _ _ _ (λ rejected unexecuted enough valid.
                          record {
                            plan_id = plan_id;
                            rejected = rejected;
                            commands = commands;
                            commands_replied = commands_replied;
                            rows = rows;
                            rows_listed = rows_listed;
                            unexecuted = count_status-IsUnexecuted rows executed counted unexecuted;
                            events = events;
                            events_replied = events_replied;
                            critical = critical;
                            critical_listed = critical_listed;
                            enough =
                                omega (arith, enough, length-about w plan_id critical kinds told);
                            verified = verified;
                            verified_replied = verified_replied;
                            intact = chained ∙ ap some valid;
                          }))))))))))))))))

  inject-Takes : IsMonotone → {v' : Bool} → Takes w (inject_bad_signature w) true v'
  unfolding inject_bad_signature
  inject-Takes mono = >>=-Takes w (read_time-Takes w) (λ now.
      >>=-Takes w (api_request-Takes w _ _ _) (λ window. >>=-Takes w (expect-Takes w _ _ _) (λ _.
        >>=-Takes w (needed-Takes w _) (λ window_id. >>=-Takes w (log_step-Takes w _ _) (λ _.
          >>=-Takes w (api_request-Takes w _ _ _) (λ activated.
            >>=-Takes w (expect-Takes w _ _ _) (λ _. >>=-Takes w (log_step-Takes w _ _) (λ _.
              >>=-Takes w (api_request-Takes w _ _ _) (λ plan.
                >>=-Takes w (expect-Takes w _ _ _) (λ _. >>=-Takes w (needed-Takes w _) (λ plan_id.
                  >>=-Takes w (needed-Takes w _) (λ _. >>=-Takes w (log_step-Takes w _ _) (λ _.
                    >>=-Takes w (api_request-Takes w _ _ _) (λ signed.
                      >>=-Takes w (expect-Takes w _ _ _) (λ _.
                        >>=-Takes w (log_step-Takes w _ _) (λ _.
                          >>=-Takes w (mark_injected-Takes w) (λ _.
                            >>=-Takes w (api_request-Takes w _ _ _) (λ uploaded.
                              >>=-Takes w (expect-Takes w _ _ _) (λ _.
                                >>=-Takes w (log_step-Takes w _ _)
                                  (λ _. verify_rejection-Takes mono plan_id))))))))))))))))))))

  pub inject_bad_signature-IsHonest :
      IsMonotone
      → (s : State) → s.steps ≡ []
      → (inject_bad_signature w s ≡ raised)
        ⊎ ((r : Report) × (inject_bad_signature w s ≡ finished r) × IsHonest w r)
  inject_bad_signature-IsHonest mono s h =
      ended w (inject_bad_signature w s)
        ((inject-Takes mono {v' = true}).apply s (ap all_succeed h))
        ((inject-Takes mono {v' = false}).apply s (ap all_succeed h))
