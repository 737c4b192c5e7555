-- ===== src/Service/Success.antt =====
-- `_handle_success_event` of orchestrator/repair_agent_service.py.
pub mod Unmatched
pub mod Confirmed
use sql_self_healing_agent.Prelude.{
  ℕ, String, ◌==◌, ◌&&◌, Bool, true, false, not, Option, none, some, if◌then◌else◌, same_text,
}
use sql_self_healing_agent.Core.{
  SessionStatus, AttemptStatus, AgentExternalResult, UpstreamTaskEvent,
}
use sql_self_healing_agent.Core.ExternalResults
use sql_self_healing_agent.Session.Models.{
  EventProcessingStatus, UpstreamTaskEventRecord, RepairSession, RepairAttempt,
}
use sql_self_healing_agent.Session.Keys.{build_event_key}
use sql_self_healing_agent.Session.World.{
  Failure, lock_timeout, raised, Result, ok, err, World, Action, pure, raise, catch, ◌>>=◌, ◌>>◌,
  Host, utc_now_iso, emit, with_lock,
}
use sql_self_healing_agent.Session.Store.{
  save_session, save_attempt, load_attempt, load_for_task, load_or_create_for_event,
  create_event_record, find_event, append_upstream_event, finish_event,
}
use sql_self_healing_agent.Service.Models.{ServiceParts}
use sql_self_healing_agent.Service.Results.{valid, load_attempt_artifact}

-- What the first lock block leaves: an answer, or the session, the attempt and the text that are
-- confirmed.
pub data Matching : Type 0 where
  answered : AgentExternalResult → Matching
  confirmed : RepairSession → RepairAttempt → String → Matching

abbrev pub is_succeeded : EventProcessingStatus → Bool
is_succeeded EventProcessingStatus.succeeded = true
is_succeeded _ = false

abbrev pub ack : Option String → Action AgentExternalResult
ack message = valid (ExternalResults.success_ack message)

module _ (h : Host) (parts : ServiceParts) where
  unfoldable pub confirm_attempt : RepairSession → String → String → RepairAttempt → Action Matching
  confirm_attempt s sql attempt_id matched = do
    attempt_updated ← utc_now_iso h
    let a = record matched {
      status = AttemptStatus.upstream_confirmed_success;
      updated_at = attempt_updated;
    }
    session_updated ← utc_now_iso h
    let s' = record s {
      status = SessionStatus.upstream_confirmed_success;
      agent_terminal_status = some "SUCCEEDED";
      confirmed_sql = some sql;
      confirmed_attempt_id = some attempt_id;
      updated_at = session_updated;
    }
    save_attempt s' a
    save_session s'
    emit s'.session_id "upstream_success_matched" "upstream_event" (some attempt_id)
    pure (confirmed s' a sql)

  unfoldable pub confirm : RepairSession → String → String → Action Matching
  confirm s sql attempt_id = do
    matched ← load_attempt s attempt_id
    confirm_attempt s sql attempt_id matched

  unfoldable pub unmatched : RepairSession → UpstreamTaskEventRecord → Action Matching
  unmatched s r = do
    emit s.session_id "upstream_success_unmatched_candidate" "upstream_event" none
    finish_event h s r none (some "UNMATCHED_SUCCESS") EventProcessingStatus.succeeded
    result ← ack (some "SUCCESS 未匹配当前候选，已记录但未确认历史 Attempt")
    pure (answered result)

  unfoldable pub match_candidate :
      Option String
      → Option String
      → UpstreamTaskEvent
      → RepairSession
      → UpstreamTaskEventRecord
      → Action Matching
  match_candidate (some sql) (some attempt_id) event s r =
      if event.sql == sql then confirm s sql attempt_id else unmatched s r
  match_candidate (some sql) none event s r = unmatched s r
  match_candidate none attempt_id event s r = unmatched s r

  unfoldable pub record_success :
      UpstreamTaskEvent → RepairSession → UpstreamTaskEventRecord → Action Matching
  record_success event s r = do
    s' ← append_upstream_event h s r
    emit s'.session_id "upstream_success_received" "upstream_event" none
    match_candidate s'.latest_sql_candidate s'.latest_sql_candidate_attempt_id event s' r

  unfoldable pub take_success :
      Option UpstreamTaskEventRecord → UpstreamTaskEvent → RepairSession → Action Matching
  take_success none event s = do r ← create_event_record h s event; record_success event s r
  take_success (some r) event s =
      if is_succeeded r.processing_status
      then (do result ← ack none; pure (answered result))
      else record_success event s r

  unfoldable pub match_success : UpstreamTaskEvent → Action Matching
  match_success event = do
    s ← load_or_create_for_event h event
    take_success (find_event s (build_event_key h.sha256 event)) event s

  -- The record of the event, in the session as it is on the disk, is finished.
  unfoldable pub finish_recorded :
      UpstreamTaskEvent → Option String → RepairSession → Action (Unit {0})
  finish_recorded event error_code s = elim (find_event s (build_event_key h.sha256 event)) [
    | none ↦ pure tt
    | some r ↦ finish_event h s r none error_code EventProcessingStatus.succeeded >> pure tt
  ]

  -- The second lock block; the answer is a refusal where the session is gone.
  unfoldable pub finish_success :
      UpstreamTaskEvent → Option RepairSession → Action AgentExternalResult
  finish_success event none = valid (ExternalResults.human_required "Session 丢失，无法完成 SUCCESS 事件。")
  finish_success event (some s) = do finish_recorded event none s; ack (some "当前候选已被上游确认成功")

  unfoldable pub remember :
      UpstreamTaskEvent → RepairSession → RepairAttempt → String → Action AgentExternalResult
  remember event s a sql = do
    metadata ← load_attempt_artifact h parts.parse_metadata a.metadata_snapshot_path
    plan ← load_attempt_artifact h parts.parse_plan a.repair_plan_path
    emit s.session_id "memory_write_started" "memory" (some a.attempt_id)
    parts.write_success_experience s a sql metadata plan
    emit s.session_id "memory_write_finished" "memory" (some a.attempt_id)
    with_lock h (do latest ← load_for_task event.id; finish_success event latest)

  -- The handler of the second part
  unfoldable pub degrade :
      UpstreamTaskEvent → RepairSession → RepairAttempt → Action AgentExternalResult
  degrade event s a = do
    emit s.session_id "stage_failed" "memory" (some a.attempt_id)
    with_lock h (do
      latest ← load_for_task event.id
      elim latest [
        | none ↦ pure tt
        | some t ↦ finish_recorded event (some "MEMORY_WRITE_DEGRADED") t
      ])
    ack (some "当前候选已确认成功；经验写入降级，等待后续补偿。")

  unfoldable pub after_match : UpstreamTaskEvent → Result Matching → Action AgentExternalResult
  after_match event (ok (answered r)) = pure r
  after_match event (ok (confirmed s a sql)) =
      catch (remember event s a sql) (λ _. degrade event s a)
  after_match event (err lock_timeout) =
      valid (ExternalResults.human_required "Session 正在处理中，请稍后重试。")
  after_match event (err (raised name)) = raise (raised name)

  unfoldable pub handle_success_event : UpstreamTaskEvent → Action AgentExternalResult
  handle_success_event event w =
      let (m, w') = with_lock h (match_success event) w in after_match event m w'
