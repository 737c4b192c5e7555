-- ===== src/Service/Answers/Runs.antt =====
-- The answers of the stages of a run of orchestrator/repair_agent_service.py.
use sql_self_healing_agent.Prelude.{
  ◌+◌, String, ◌==◌, ◌&&◌, ◌≡◌, refl, sym, subst, ◌∙◌, not, Option, none, some, truthy, some_text,
  Bool-cases, inl, inr, is_blank, same_text,
}
use sql_self_healing_agent.Session.Keys.{session_id_for_task}
use sql_self_healing_agent.Session.Artifacts.{save_json, write_text}
use sql_self_healing_agent.Core.{
  AttemptStatus, AgentExternalResult, ResultStatus, UpstreamTaskEvent,
}
use sql_self_healing_agent.Core.ExternalResults
use sql_self_healing_agent.Agent.Models.{RunResultStatus}
use sql_self_healing_agent.Gates.Models.{GateResult}
use sql_self_healing_agent.Session.Models.{UpstreamTaskEventRecord, RepairSession, RepairAttempt}
use sql_self_healing_agent.Session.World.{
  Result, ok, err, World, Action, pure, ◌>>=◌, ◌>>◌, Host, with_lock, bind-ok, bind-err,
}
use sql_self_healing_agent.Session.Store.{
  save_attempt, save_session, load_attempt, load_for_task, find_event,
}
use sql_self_healing_agent.Session.Commit.{commit}
use sql_self_healing_agent.Service.Models.{ServiceParts, ProcessorRun, Opening, answered, opened}
use sql_self_healing_agent.Service.Results.{human}
use sql_self_healing_agent.Service.Failed.{
  attempt_stage, answer_stopped, stop_without_candidate, commit_checked, commit_recorded,
  commit_latest, deliver_committed, after_commit, commit_candidate, conclude, after_run,
  mark_failed, fail_previous, run_event, with_diagnosis,
}
use sql_self_healing_agent.Service.Answers.{
  IsValidResult, Answers, Sound, checked, persist-Sound, human-Sound, human-Answers,
  attempt_stage-Answers, of_Sound,
}

pure-Answers : (x : AgentExternalResult) (w : World) → IsValidResult x → Answers (pure x w)
pure-Answers x w v = (x, w, refl, v)

-- An opening that was answered was answered with a valid result.
abbrev SoundOpening : Result Opening × World → Type 0
SoundOpening (ok (answered r), w') = IsValidResult r
SoundOpening (ok (opened s a), w') = Unit
SoundOpening (err e, w') = Unit

-- The attempt with the candidate of the run
abbrev ready_attempt : Host → String → ProcessorRun → RepairAttempt → World → RepairAttempt
ready_attempt h sql run a w = record a {
  sql_candidate = some sql;
  sql_candidate_path = run.result.candidate_artifact_ref;
  status = AttemptStatus.sql_ready;
  updated_at = h.utc_now w.ticks;
}

load-stored :
    (s : RepairSession) (attempt_id : String) (b : RepairAttempt) (w : World)
    → w.attempts s.session_id attempt_id ≡ some b
    → load_attempt s attempt_id w ≡ (ok b, w)
unfolding load_attempt
load-stored s attempt_id b w e = rw e refl

module _ (h : Host) (parts : ServiceParts) where
  answer_stopped-Sound :
      (status : RunResultStatus) (reason : Option String) (s : RepairSession) (a : RepairAttempt)
      (w : World)
      → Sound (answer_stopped h parts status reason s a w)
  unfolding answer_stopped ExternalResults.no_sql
  answer_stopped-Sound RunResultStatus.no_sql reason s a w =
      persist-Sound h (ExternalResults.no_sql reason) s a w
        (λ r e. checked (record { status = ResultStatus.no_sql; sql = none; message = reason }) r e)
  answer_stopped-Sound RunResultStatus.candidate_ready reason s a w = human-Sound h s a _ w
  answer_stopped-Sound RunResultStatus.human_required reason s a w = human-Sound h s a _ w
  answer_stopped-Sound RunResultStatus.failed reason s a w = human-Sound h s a _ w

  answered-Sound :
      (m : Action AgentExternalResult) (w : World)
      → Sound (m w)
      → SoundOpening ((m >>= λ r. pure (answered r)) w)
  answered-Sound m w f = on (m w) refl f
    where
      on :
          (p : Result AgentExternalResult × World)
          → m w ≡ p
          → Sound p
          → SoundOpening ((m >>= λ r. pure (answered r)) w)
      on (ok r, w') e v = rw (bind-ok m (λ r. pure (answered r)) e) v
      on (err x, w') e v = rw (bind-err m (λ r. pure (answered r)) e) tt

  -- A stage whose results are valid, at the end of a run
  last_stage-Answers :
      (s : RepairSession) (a : RepairAttempt) (m : Action AgentExternalResult) (w : World)
      → Sound (m w)
      → Answers (attempt_stage h parts s a m pure w)
  last_stage-Answers s a m w f =
      attempt_stage-Answers h parts s a m pure w
        (λ x w' e. pure-Answers x w' (of_Sound h (m w) x w' f e))

  stop-Answers :
      (run : ProcessorRun) (s : RepairSession) (a : RepairAttempt) (w : World)
      → Answers (stop_without_candidate h parts run s a w)
  unfolding stop_without_candidate save_attempt save_session
  stop-Answers run s a w =
      last_stage-Answers _ _ _ _ (answer_stopped-Sound run.result.status run.result.reason _ _ _)

  deliver-Sound :
      (sql : String) (s : RepairSession) (a : RepairAttempt) (w : World)
      → Sound (deliver_committed h parts sql s a w)
  unfolding deliver_committed ExternalResults.sql_ready
  deliver-Sound sql s a w = persist-Sound h (ExternalResults.sql_ready sql) s a w (λ r e.
      checked (record { status = ResultStatus.sql_ready; sql = some sql; message = none }) r e)

  committed-Sound :
      (run : ProcessorRun) (m : Action (RepairSession × RepairAttempt)) (w : World)
      → SoundOpening (
          (m >>= λ done.
          save_attempt done.0
            (record done.1 { sql_candidate_path = run.result.candidate_artifact_ref })
          >> pure (
              opened done.0
                (record done.1 { sql_candidate_path = run.result.candidate_artifact_ref })))
            w)
  unfolding save_attempt
  committed-Sound run m w = on (m w) refl
    where
      k : RepairSession × RepairAttempt → Action Opening
      k done =
          save_attempt done.0
            (record done.1 { sql_candidate_path = run.result.candidate_artifact_ref })
          >> pure (
              opened done.0
                (record done.1 { sql_candidate_path = run.result.candidate_artifact_ref }))

      on :
          (p : Result (RepairSession × RepairAttempt) × World)
          → m w ≡ p
          → SoundOpening ((m >>= k) w)
      on (ok done, w') e = rw (bind-ok m k e) tt
      on (err x, w') e = rw (bind-err m k e) tt

  commit_checked-Sound :
      (gate : Option GateResult) (run : ProcessorRun) (s latest : RepairSession) (a : RepairAttempt)
      (w : World)
      → SoundOpening (commit_checked h parts gate run s latest a w)
  unfolding commit_checked
  commit_checked-Sound none run s latest a w =
      answered-Sound (human h s a _) w (human-Sound h s a _ w)
  commit_checked-Sound (some gate) run s latest a w =
      committed-Sound run (commit h latest a run.candidate gate) w

  commit_recorded-Sound :
      (current : Option UpstreamTaskEventRecord) (run : ProcessorRun) (s latest : RepairSession)
      (a : RepairAttempt) (w : World)
      → SoundOpening (commit_recorded h parts current run s latest a w)
  unfolding commit_recorded
  commit_recorded-Sound none run s latest a w =
      answered-Sound (human h s a _) w (human-Sound h s a _ w)
  commit_recorded-Sound (some r) run s latest a w =
      elim (Bool-cases (same_text r.attempt_id (some a.attempt_id))) [
        | inl same ↦ rw same (commit_checked-Sound run.last_gate run s latest a w)
        | inr other ↦ rw other (answered-Sound (human h s a _) w (human-Sound h s a _ w))
      ]

  commit_latest-Sound :
      (latest : Option RepairSession) (run : ProcessorRun) (s : RepairSession) (a : RepairAttempt)
      (w : World)
      → SoundOpening (commit_latest h parts latest run s a w)
  unfolding commit_latest
  commit_latest-Sound none run s a w = answered-Sound (human h s a _) w (human-Sound h s a _ w)
  commit_latest-Sound (some latest) run s a w =
      commit_recorded-Sound (find_event latest a.source_event_key) run s latest a w

  locked-Sound :
      (m : Action Opening) (w : World)
      → ((w' : World) → SoundOpening (m w'))
      → SoundOpening (with_lock h m w)
  locked-Sound m w f = elim (Bool-cases (h.lock_free w.acquisitions)) [
    | inl free ↦ rw free (f _)
    | inr held ↦ rw held tt
  ]

  after_commit-Answers :
      (sql : String) (p : Result Opening × World) (o : Opening) (w' : World)
      → SoundOpening p
      → p ≡ (ok o, w')
      → Answers (after_commit h parts sql o w')
  unfolding after_commit
  after_commit-Answers sql p (answered r) w' f e = pure-Answers r w' (subst SoundOpening e f)
  after_commit-Answers sql p (opened s a) w' f e =
      last_stage-Answers s a (deliver_committed h parts sql s a) w' (deliver-Sound sql s a w')

  commit_candidate-Answers :
      (event : UpstreamTaskEvent) (sql : String) (run : ProcessorRun) (s : RepairSession)
      (a : RepairAttempt) (w : World)
      → Answers (commit_candidate h parts event sql run s a w)
  unfolding commit_candidate load_for_task
  commit_candidate-Answers event sql run s a w =
      let m : Action Opening = with_lock h (do
        latest ← load_for_task event.id
        commit_latest h parts latest run s (ready_attempt h sql run a w)) in
      let w1 : World = record w { ticks = w.ticks + 1 } in
      attempt_stage-Answers h parts s (ready_attempt h sql run a w) m (after_commit h parts sql) w1
        (λ o w' e.
          after_commit-Answers sql (m w1) o w'
            (locked-Sound
              (do
                latest ← load_for_task event.id
                commit_latest h parts latest run s (ready_attempt h sql run a w))
              w1
              (λ v.
                commit_latest-Sound (v.sessions (session_id_for_task event.id)) run s
                  (ready_attempt h sql run a w) v))
            e)

  conclude-Answers :
      (o : Option String) (event : UpstreamTaskEvent) (run : ProcessorRun) (s : RepairSession)
      (a : RepairAttempt) (w : World)
      → Answers (conclude h parts o event run s a w)
  unfolding conclude
  conclude-Answers none event run s a w = stop-Answers run s a w
  conclude-Answers (some sql) event run s a w = commit_candidate-Answers event sql run s a w

  after_run-Answers :
      (event : UpstreamTaskEvent) (previous : Option RepairAttempt) (s : RepairSession)
      (a : RepairAttempt) (run : ProcessorRun) (w : World)
      → Answers (after_run h parts event previous s a run w)
  unfolding after_run save_json write_text
  after_run-Answers event previous s a run w =
      attempt_stage-Answers h parts s _ _ _ _
        (λ a2 w' e. conclude-Answers _ event run s (with_diagnosis run.diagnosis a2) w')

  -- The attempt of the candidate that has just failed is in the store.
  abbrev pub CandidateStored : RepairSession → World → Type 0
  CandidateStored s w =
      (attempt_id : String)
      → s.latest_sql_candidate_attempt_id ≡ some attempt_id
      → (b : RepairAttempt) × (w.attempts s.session_id attempt_id ≡ some b)

  fail_previous-ok :
      (candidate owner : Option String) (event : UpstreamTaskEvent) (s : RepairSession) (w : World)
      → ((attempt_id : String)
          → owner ≡ some attempt_id
          → (b : RepairAttempt) × (w.attempts s.session_id attempt_id ≡ some b))
      → (p : Option RepairAttempt) × (w' : World) × (fail_previous h parts candidate owner event s w
          ≡ (ok p, w'))
  unfolding fail_previous mark_failed save_attempt
  fail_previous-ok none owner event s w f = (_, _, refl)
  fail_previous-ok (some sql) none event s w f = (_, _, refl)
  fail_previous-ok (some sql) (some attempt_id) event s w f =
      elim (Bool-cases (sql == event.sql && truthy attempt_id)) [
        | inl same ↦
            let (b, e) = f attempt_id refl in
            rw same (
              _,
              _,
              bind-ok (load_attempt s attempt_id) (mark_failed h parts s)
                    (load-stored s attempt_id b w e)
                  ∙ refl,
            )
        | inr other ↦ rw other (_, _, refl)
      ]

  -- Once an attempt is open, and if the attempt of the session's candidate, where it has one, is in
  -- the store, a FAILED event is answered with a valid result and no exception, whatever the processor
  -- does to the world and whether it returns or raises.
  pub run_event-Answers :
      (event : UpstreamTaskEvent) (s : RepairSession) (a : RepairAttempt) (w : World)
      → CandidateStored s w
      → Answers (run_event h parts event s a w)
  unfolding run_event is_blank
  run_event-Answers event s a w stored =
      elim (Bool-cases (not (some_text event.log_path) && not (some_text event.error_message))) [
        | inl nothing ↦ rw nothing (human-Answers h s a _ w refl)
        | inr evidence ↦
            let (p, w', e) =
              fail_previous-ok s.latest_sql_candidate s.latest_sql_candidate_attempt_id event s w
                stored in
            rw evidence (
              subst Answers
                (sym (
                  bind-ok
                    (fail_previous h parts s.latest_sql_candidate s.latest_sql_candidate_attempt_id
                      event s)
                    (λ previous.
                      attempt_stage h parts s a (parts.process event s a)
                        (after_run h parts event previous s a))
                    e))
                (attempt_stage-Answers h parts s a (parts.process event s a)
                  (after_run h parts event p s a) w'
                  (λ run w'' _. after_run-Answers event p s a run w'')))
      ]
