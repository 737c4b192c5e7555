-- ===== src/Service/Success/Confirmed.antt =====
-- What `_handle_success_event` of orchestrator/repair_agent_service.py confirms.
use sql_self_healing_agent.Prelude.{
  String, ◌==◌, ◌≡◌, refl, sym, ap, ◌∙◌, Option, none, some, eq_refl, eq_iff, Bool-cases, inl, inr,
}
use sql_self_healing_agent.Core.{
  SessionStatus, AttemptStatus, AgentExternalResult, UpstreamTaskEvent,
}
use sql_self_healing_agent.Session.Models.{
  EventProcessingStatus, UpstreamTaskEventRecord, RepairSession,
}
use sql_self_healing_agent.Session.Keys.{build_event_key}
use sql_self_healing_agent.Session.World.{
  Result, ok, err, World, Action, pure, ◌>>=◌, ◌>>◌, Host, emit, bind-rule,
}
use sql_self_healing_agent.Session.Store.{
  save_session, save_attempt, load_attempt, load_or_create_for_event, create_event_record,
  append_upstream_event, find_event, finish_event,
}
use sql_self_healing_agent.Service.Models.{ServiceParts}
use sql_self_healing_agent.Service.Success.{
  Matching, answered, confirmed, is_succeeded, ack, confirm, confirm_attempt, unmatched,
  match_candidate, record_success, take_success, match_success,
}

-- A confirmation is of the text of the event, which is the latest candidate of the session, under the
-- attempt of that candidate; session and attempt have the confirmed status, and the session is saved.
abbrev pub Confirms : UpstreamTaskEvent → Result Matching × World → Type 0
Confirms event (ok (confirmed s a sql), w') =
    (sql ≡ event.sql)
    × (s.latest_sql_candidate ≡ some event.sql)
    × (s.confirmed_sql ≡ some event.sql)
    × (s.confirmed_attempt_id ≡ s.latest_sql_candidate_attempt_id)
    × (s.status ≡ SessionStatus.upstream_confirmed_success)
    × (a.status ≡ AttemptStatus.upstream_confirmed_success)
    × (w'.sessions s.session_id ≡ some s)
Confirms event (ok (answered r), w') = Unit
Confirms event (err e, w') = Unit

module _ (h : Host) (parts : ServiceParts) (event : UpstreamTaskEvent) where
  confirm-Confirms :
      (s : RepairSession) (sql attempt_id : String) (w : World)
      → s.latest_sql_candidate ≡ some sql
      → s.latest_sql_candidate_attempt_id ≡ some attempt_id
      → event.sql ≡ sql
      → Confirms event (confirm h parts s sql attempt_id w)
  unfolding confirm confirm_attempt save_attempt save_session
  confirm-Confirms s sql attempt_id w latest owner same =
      bind-rule (Confirms event) (load_attempt s attempt_id)
        (confirm_attempt h parts s sql attempt_id) w
        (λ matched w'. (
          sym same,
          latest ∙ ap some (sym same),
          ap some (sym same),
          sym owner,
          refl,
          refl,
          rw eq_refl refl,
        ))
        (λ e w'. tt)

  answered-Confirms :
      (m : Action AgentExternalResult) (w : World)
      → Confirms event ((m >>= λ result. pure (answered result)) w)
  answered-Confirms m w =
      bind-rule (Confirms event) m (λ result. pure (answered result)) w (λ r w'. tt) (λ e w'. tt)

  unmatched-Confirms :
      (s : RepairSession) (r : UpstreamTaskEventRecord) (w : World)
      → Confirms event (unmatched h parts s r w)
  unfolding unmatched
  unmatched-Confirms s r w =
      bind-rule (Confirms event)
        (finish_event h s r none (some "UNMATCHED_SUCCESS") EventProcessingStatus.succeeded)
        (λ _. ack (some "SUCCESS 未匹配当前候选，已记录但未确认历史 Attempt") >>= λ result. pure (answered result)) _
        (λ t w'. answered-Confirms (ack (some "SUCCESS 未匹配当前候选，已记录但未确认历史 Attempt")) w') (λ e w'. tt)

  match_candidate-Confirms :
      (candidate owner : Option String) (s : RepairSession) (r : UpstreamTaskEventRecord)
      (w : World)
      → s.latest_sql_candidate ≡ candidate
      → s.latest_sql_candidate_attempt_id ≡ owner
      → Confirms event (match_candidate h parts candidate owner event s r w)
  unfolding match_candidate
  match_candidate-Confirms none owner s r w latest own = unmatched-Confirms s r w
  match_candidate-Confirms (some sql) none s r w latest own = unmatched-Confirms s r w
  match_candidate-Confirms (some sql) (some attempt_id) s r w latest own =
      elim (Bool-cases (event.sql == sql)) [
        | inl same ↦
            rw same (confirm-Confirms s sql attempt_id w latest own ((eq_iff event.sql sql).0 same))
        | inr other ↦ rw other (unmatched-Confirms s r w)
      ]

  record_success-Confirms :
      (s : RepairSession) (r : UpstreamTaskEventRecord) (w : World)
      → Confirms event (record_success h parts event s r w)
  unfolding record_success
  record_success-Confirms s r w =
      bind-rule (Confirms event) (append_upstream_event h s r)
        (λ t.
          emit t.session_id "upstream_success_received" "upstream_event" none
          >> match_candidate h parts t.latest_sql_candidate t.latest_sql_candidate_attempt_id event
              t r)
        w
        (λ t w'.
          match_candidate-Confirms t.latest_sql_candidate t.latest_sql_candidate_attempt_id t r _
            refl refl)
        (λ e w'. tt)

  take_success-Confirms :
      (o : Option UpstreamTaskEventRecord) (s : RepairSession) (w : World)
      → Confirms event (take_success h parts o event s w)
  unfolding take_success
  take_success-Confirms none s w =
      bind-rule (Confirms event) (create_event_record h s event) (record_success h parts event s) w
        (λ r w'. record_success-Confirms s r w') (λ e w'. tt)
  take_success-Confirms (some r) s w = elim (Bool-cases (is_succeeded r.processing_status)) [
    | inl done ↦ rw done (answered-Confirms (ack none) w)
    | inr open_still ↦ rw open_still (record_success-Confirms s r w)
  ]

  -- Whatever the store holds, what the first part of `_handle_success_event` confirms is what
  -- `Confirms` says: never another text than that of the event and of the latest candidate.
  pub match_success-Confirms : (w : World) → Confirms event (match_success h parts event w)
  unfolding match_success
  match_success-Confirms w =
      bind-rule (Confirms event) (load_or_create_for_event h event)
        (λ s. take_success h parts (find_event s (build_event_key h.sha256 event)) event s) w
        (λ s w'. take_success-Confirms (find_event s (build_event_key h.sha256 event)) s w')
        (λ e w'. tt)
