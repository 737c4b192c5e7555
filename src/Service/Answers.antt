-- ===== src/Service/Answers.antt =====
-- The answers of a run of a FAILED event (orchestrator/repair_agent_service.py).
pub mod Runs
use sql_self_healing_agent.Prelude.{
  ℕ, ◌+◌, String, ◌==◌, ◌&&◌, ◌≡◌, refl, sym, ap, subst, ◌∙◌, Bool, true, false, not, Option, none,
  some, if◌then◌else◌, truthy, some_text, Bool-cases, Option-cases, inl, inr, is_blank, text_or,
  arith,
}
use sql_self_healing_agent.Core.{
  AgentExternalResult, ResultStatus, UpstreamTaskEvent, validate_status_fields, fields_valid,
}
use sql_self_healing_agent.Core.ExternalResults
use sql_self_healing_agent.Agent.Models.{RunResultStatus}
use sql_self_healing_agent.Gates.Models.{GateResult}
use sql_self_healing_agent.Session.Models.{
  EventProcessingStatus, UpstreamTaskEventRecord, RepairSession, RepairAttempt,
}
use sql_self_healing_agent.Session.World.{
  Failure, lock_timeout, raised, Result, ok, err, World, Action, pure, ◌>>=◌, ◌>>◌, Host,
  utc_now_iso, emit, with_lock, bind-ok, bind-err, Saved,
}
use sql_self_healing_agent.Session.Store.{
  save_attempt, save_session, load_attempt, find_event, finish_event, save_event_record,
  save_replaced, replace_record,
}
use sql_self_healing_agent.Session.Store.Records.{replace_record-Replaced}
use sql_self_healing_agent.Session.Artifacts.{save_json, write_text}
use sql_self_healing_agent.Service.Models.{ServiceParts, ProcessorRun, Opening, answered, opened}
use sql_self_healing_agent.Service.Results.{
  valid, set_active, close_event, persist_external_result, human,
}
use sql_self_healing_agent.Service.Failed.{
  give_up, attempt_stage, stop_without_candidate, run_event,
}
use sql_self_healing_agent.Service.Closing.{
  human_result, human_required-valid, find_event-own, result_path, human-closes, human_session,
  human_attempt, human_world,
}

abbrev pub IsValidResult : AgentExternalResult → Type 0
IsValidResult r = validate_status_fields r ≡ some r

-- A call returned a valid result.
abbrev pub Answers : Result AgentExternalResult × World → Type 0
Answers p = (r : AgentExternalResult) × (w' : World) × (p ≡ (ok r, w')) × IsValidResult r

-- What a call returned, where it returned
abbrev pub Sound : Result AgentExternalResult × World → Type 0
Sound (ok r, w') = IsValidResult r
Sound (err e, w') = Unit

pub checked : (r x : AgentExternalResult) → validate_status_fields r ≡ some x → IsValidResult x
unfolding validate_status_fields
checked r x e = ground arith

module _ (h : Host) where
  close_event-ok :
      (o : Option UpstreamTaskEventRecord) (s : RepairSession) (key result_ref : String) (w : World)
      → find_event s key ≡ o
      → (s' : RepairSession) × (w' : World) × (close_event h o s result_ref w ≡ (ok s', w'))
  unfolding close_event save_session finish_event save_event_record save_replaced find_event
  close_event-ok none s key result_ref w e = (_, _, refl)
  close_event-ok (some r) s key result_ref w e =
      let now = h.utc_now w.ticks in
      let r' : UpstreamTaskEventRecord = record r {
        processing_status = EventProcessingStatus.succeeded;
        result_ref = some result_ref;
        error_code = none;
        finished_at = some now;
      } in
      let (ys, p, _) =
        replace_record-Replaced r' r s.upstream_events
          (ap (find_event s) (find_event-own s key r e) ∙ e) in
      rw p (_, _, refl)

  persist_external_result-ok :
      (s : RepairSession) (a : RepairAttempt) (result : AgentExternalResult) (w : World)
      → (w' : World) × (persist_external_result h s a result w ≡ (ok result, w'))
  unfolding persist_external_result save_json write_text find_event
  persist_external_result-ok s a result w =
      let t : RepairSession = record s { last_external_result_ref = some (result_path h s a) } in
      let w1 : World =
        (save_json h s.session_id a.attempt_id "external_result.json" (Saved.external_result result)
          (set_active a.source_event_key false w).1).1 in
      let (s', w', done) =
        close_event-ok (find_event t a.source_event_key) t a.source_event_key (result_path h s a) w1
          refl in
      (
        w',
        bind-ok (close_event h (find_event t a.source_event_key) t (result_path h s a))
            (λ _. pure result) done,
      )

  -- A result that was checked is persisted.
  pub persist-Sound :
      (o : Option AgentExternalResult) (s : RepairSession) (a : RepairAttempt) (w : World)
      → ((r : AgentExternalResult) → o ≡ some r → IsValidResult r)
      → Sound ((valid o >>= persist_external_result h s a) w)
  persist-Sound none s a w f = tt
  persist-Sound (some r) s a w f =
      let (w', e) = persist_external_result-ok s a r w in rw e (f r refl)

  pub human-Sound :
      (s : RepairSession) (a : RepairAttempt) (message : String) (w : World)
      → Sound (human h s a message w)
  unfolding ExternalResults.human_required
  human-Sound s a message w = rw (human-closes h s a message w) (
      persist-Sound (ExternalResults.human_required message) (human_session h s w)
        (human_attempt h a w) (human_world h s a w) (λ r e. checked (human_result message) r e))

  -- A message that is not blank is answered.
  pub human-Answers :
      (s : RepairSession) (a : RepairAttempt) (message : String) (w : World)
      → is_blank message ≡ false
      → Answers (human h s a message w)
  unfolding ExternalResults.human_required
  human-Answers s a message w e =
      let t : RepairSession = human_session h s w in
      let b : RepairAttempt = human_attempt h a w in
      let w1 : World = human_world h s a w in
      let (w', done) = persist_external_result-ok t b (human_result message) w1 in
      (
        human_result message,
        w',
        human-closes h s a message w
            ∙ bind-ok (valid (ExternalResults.human_required message))
                (persist_external_result h t b)
                (ap (λ o. valid o w1) (human_required-valid message e))
            ∙ done,
        checked (human_result message) (human_result message) (human_required-valid message e),
      )

  give_up-Answers :
      (parts : ServiceParts) (s : RepairSession) (a : RepairAttempt) (e : Failure) (w : World)
      → Answers (give_up h parts s a e w)
  unfolding give_up is_blank
  give_up-Answers parts s a lock_timeout w = human-Answers s a _ w refl
  give_up-Answers parts s a (raised name) w = human-Answers s a _ _ refl

  module _ (parts : ServiceParts) {A : Type 0} (s : RepairSession) (a : RepairAttempt)
      (m : Action A) (k : A → Action AgentExternalResult) (w : World) where
    staged : (p : Result A × World) → Result AgentExternalResult × World
    staged p = elim p.0 [ ok x ↦ k x p.1 | err e ↦ give_up h parts s a e p.1 ]

    attempt_stage-staged : attempt_stage h parts s a m k w ≡ staged (m w)
    unfolding attempt_stage staged
    attempt_stage-staged = refl

    -- A stage answers where what follows it does, whatever it raises.
    pub attempt_stage-Answers :
        ((x : A) (w' : World) → m w ≡ (ok x, w') → Answers (k x w'))
        → Answers (attempt_stage h parts s a m k w)
    unfolding staged
    attempt_stage-Answers f = rw attempt_stage-staged (on (m w) refl)
      where
        on : (p : Result A × World) → m w ≡ p → Answers (staged p)
        on (ok x, w') e = f x w' e
        on (err e', w') e = give_up-Answers parts s a e' w'

  pub of_Sound :
      (p : Result AgentExternalResult × World) (x : AgentExternalResult) (w' : World)
      → Sound p
      → p ≡ (ok x, w')
      → IsValidResult x
  of_Sound p x w' f e = subst Sound e f
