-- ===== src/Service/Recovery.antt =====
-- How `_handle_failed_event` of orchestrator/repair_agent_service.py takes an event up under the
-- lock, with `_recover_failed_event`.
use sql_self_healing_agent.Prelude.{
  String, ◌||◌, Bool, true, Option, none, some, if◌then◌else◌, truthy, some_text, text_or,
}
use sql_self_healing_agent.Core.{
  SessionStatus, AttemptStatus, AgentExternalResult, UpstreamTaskEvent,
}
use sql_self_healing_agent.Core.ExternalResults
use sql_self_healing_agent.Session.Models.{
  EventProcessingStatus, UpstreamTaskEventRecord, RepairSession, RepairAttempt,
}
use sql_self_healing_agent.Session.Keys.{build_event_key}
use sql_self_healing_agent.Session.World.{Action, pure, ◌>>=◌, ◌>>◌, Host, utc_now_iso, emit}
use sql_self_healing_agent.Session.Store.{
  save_session, save_attempt, load_attempt, load_or_create_for_event, create_event_record,
  find_event, append_upstream_event, finish_event, create_attempt,
}
use sql_self_healing_agent.Service.Models.{Opening, answered, opened}
use sql_self_healing_agent.Service.Results.{
  valid, set_active, persist_external_result, processed_result,
}

-- `any(stage_refs)`
unfoldable pub has_stage_ref : RepairAttempt → Bool
has_stage_ref a =
    some_text a.agent_run_state_path
    || some_text a.log_digest_path
    || some_text a.diagnosis_path
    || some_text a.metadata_snapshot_path
    || some_text a.memory_retrieval_path
    || some_text a.repair_plan_path
    || some_text a.sql_candidate_path

-- The ways in which an attempt of an earlier run is taken up
pub data Recovery : Type 0 where
  deliver : String → Recovery
  stopped : String → Recovery
  resume : Recovery
  unsafe : Recovery

abbrev stop_message : RepairAttempt → Recovery
stop_message a = stopped (text_or a.stop_reason "历史 Attempt 已终止，需要人工处理。")

abbrev deliver_or : Option String → Recovery
deliver_or none = unsafe
deliver_or (some sql) = if truthy sql then deliver sql else unsafe

unfoldable pub recovery_of : AttemptStatus → RepairAttempt → Recovery
recovery_of AttemptStatus.sql_ready a = deliver_or a.sql_candidate
recovery_of AttemptStatus.human_required a = stop_message a
recovery_of AttemptStatus.validation_blocked a = stop_message a
recovery_of AttemptStatus.reflection_blocked a = stop_message a
recovery_of AttemptStatus.created a = if has_stage_ref a then unsafe else resume
recovery_of _ a = unsafe

module _ (h : Host) where
  abbrev give : Action AgentExternalResult → Action (Option AgentExternalResult)
  give m = m >>= λ r. pure (some r)

  unfoldable pub recover_attempt :
      Recovery
      → RepairSession
      → UpstreamTaskEventRecord
      → RepairAttempt
      → Action (Option AgentExternalResult)
  recover_attempt (deliver sql) s r a =
      give (do result ← valid (ExternalResults.sql_ready sql); persist_external_result h s a result)
  recover_attempt (stopped message) s r a = give (do
    result ← valid (ExternalResults.human_required message)
    persist_external_result h s a result)
  recover_attempt resume s r a =
      emit s.session_id "event_recovery_resumed" "orchestrator" (some a.attempt_id) >> pure none
  recover_attempt unsafe s r a = give (do
    now ← utc_now_iso h
    save_attempt s (record a {
      status = AttemptStatus.human_required;
      stop_reason = some "RECOVERY_PARTIAL_STATE_UNSAFE";
      updated_at = now;
    })
    finish_event h s r none (some "RECOVERY_PARTIAL_STATE_UNSAFE")
        EventProcessingStatus.system_error
    valid (ExternalResults.human_required "事件存在无法安全续跑的部分状态，已终止并等待人工处理。"))

  unfoldable pub recover_missing :
      RepairSession → UpstreamTaskEventRecord → Action (Option AgentExternalResult)
  recover_missing s r = give (do
    finish_event h s r none (some "RECOVERY_ATTEMPT_MISSING") EventProcessingStatus.system_error
    valid (ExternalResults.human_required "事件恢复失败：Attempt 缺失。"))

  -- `_recover_failed_event`, by the attempt that the record names
  unfoldable pub recover_failed_event :
      Option String → RepairSession → UpstreamTaskEventRecord → Action (Option AgentExternalResult)
  recover_failed_event none s r = recover_missing s r
  recover_failed_event (some attempt_id) s r =
      if truthy attempt_id
      then (do a ← load_attempt s attempt_id; recover_attempt (recovery_of a.status a) s r a)
      else recover_missing s r

  -- The event goes on with an attempt.
  unfoldable pub start : String → RepairSession → RepairAttempt → Action Opening
  start event_key s a = do
    set_active event_key true
    now ← utc_now_iso h
    let s' = record s { status = SessionStatus.running; updated_at = now }
    save_session s'
    pure (opened s' a)

  -- `recover_failed_event` gives nothing only for a record that names an attempt.
  unfoldable pub take_recovered :
      Option AgentExternalResult → String → RepairSession → UpstreamTaskEventRecord → Action Opening
  take_recovered (some result) event_key s r = pure (answered result)
  take_recovered none event_key s r = do
    a ← load_attempt s (text_or r.attempt_id "")
    start event_key s a

  unfoldable pub take_unprocessed :
      String → RepairSession → UpstreamTaskEventRecord → Action Opening
  take_unprocessed event_key s r w =
      if w.active_event_keys event_key
      then (do
        result ← valid (ExternalResults.human_required "该事件正在处理中，请稍后重试。")
        pure (answered result))
          w
      else (do
        recovered ← recover_failed_event r.attempt_id s r
        take_recovered recovered event_key s r)
          w

  unfoldable pub take_processed :
      Option AgentExternalResult → String → RepairSession → UpstreamTaskEventRecord → Action Opening
  take_processed (some result) event_key s r = pure (answered result)
  take_processed none event_key s r = take_unprocessed event_key s r

  unfoldable pub take_failed :
      Option UpstreamTaskEventRecord → UpstreamTaskEvent → RepairSession → Action Opening
  take_failed (some r) event s = do
    processed ← processed_result h r.result_ref
    take_processed processed (build_event_key h.sha256 event) s r
  take_failed none event s = do
    r ← create_event_record h s event
    s1 ← append_upstream_event h s r
    created ← create_attempt h s1 r
    start (build_event_key h.sha256 event) created.0 created.1

  unfoldable pub open_event : UpstreamTaskEvent → Action Opening
  open_event event = do
    s ← load_or_create_for_event h event
    take_failed (find_event s (build_event_key h.sha256 event)) event s
