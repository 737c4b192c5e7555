-- ===== src/Service/Failed.antt =====
-- `_handle_failed_event` and `handle_upstream_event` of orchestrator/repair_agent_service.py, from
-- the open attempt on.
use sql_self_healing_agent.Prelude.{
  String, ◌==◌, ◌&&◌, Bool, true, false, not, Option, none, some, List, [], ◌∷◌, if◌then◌else◌,
  truthy, some_text, text_or, same_text, last?,
}
use sql_self_healing_agent.Core.{
  AttemptStatus, AgentExternalResult, UpstreamTaskEvent, DiagnosedErrorType,
}
use sql_self_healing_agent.Core.ExternalResults
use sql_self_healing_agent.Repair.Models.{RepairPlan, DiagnosisResult}
use sql_self_healing_agent.Repair.Evaluator.{post_reflect}
use sql_self_healing_agent.Agent.Models.{
  WorkspaceValue, CandidateState, CandidateFeedback, RunResultStatus,
}
use sql_self_healing_agent.Gates.Models.{GateResult}
use sql_self_healing_agent.Session.Models.{UpstreamTaskEventRecord, RepairSession, RepairAttempt}
use sql_self_healing_agent.Session.World.{
  Failure, lock_timeout, raised, Result, ok, err, Action, pure, raise, or_raise, ◌>>=◌, ◌>>◌, Host,
  Saved, utc_now_iso, emit, with_lock,
}
use sql_self_healing_agent.Session.Store.{
  save_session, save_attempt, load_attempt, load_for_task, find_event,
}
use sql_self_healing_agent.Session.Artifacts.{save_json, save_json_ref}
use sql_self_healing_agent.Session.Commit.{commit}
use sql_self_healing_agent.Service.Models.{ServiceParts, ProcessorRun, Opening, answered, opened}
use sql_self_healing_agent.Service.Results.{
  valid, human, persist_external_result, load_attempt_artifact,
}
use sql_self_healing_agent.Service.Recovery.{open_event}

abbrev pub run_status_text : RunResultStatus → String
run_status_text RunResultStatus.candidate_ready = "CANDIDATE_READY"
run_status_text RunResultStatus.no_sql = "NO_SQL"
run_status_text RunResultStatus.human_required = "HUMAN_REQUIRED"
run_status_text RunResultStatus.failed = "FAILED"

abbrev pub error_type_text : DiagnosedErrorType → String
error_type_text DiagnosedErrorType.sql_syntax_error = "SQL_SYNTAX_ERROR"
error_type_text DiagnosedErrorType.column_not_found = "COLUMN_NOT_FOUND"
error_type_text DiagnosedErrorType.table_not_found = "TABLE_NOT_FOUND"
error_type_text DiagnosedErrorType.ambiguous_column = "AMBIGUOUS_COLUMN"
error_type_text DiagnosedErrorType.type_mismatch = "TYPE_MISMATCH"
error_type_text DiagnosedErrorType.invalid_function = "INVALID_FUNCTION"
error_type_text DiagnosedErrorType.aggregation_error = "AGGREGATION_ERROR"
error_type_text DiagnosedErrorType.partition_error = "PARTITION_ERROR"
error_type_text DiagnosedErrorType.dialect_incompatibility = "DIALECT_INCOMPATIBILITY"
error_type_text DiagnosedErrorType.permission_error = "PERMISSION_ERROR"
error_type_text DiagnosedErrorType.resource_exhausted = "RESOURCE_EXHAUSTED"
error_type_text DiagnosedErrorType.infrastructure_error = "INFRASTRUCTURE_ERROR"
error_type_text DiagnosedErrorType.data_quality_error = "DATA_QUALITY_ERROR"
error_type_text DiagnosedErrorType.unknown = "UNKNOWN"

-- `workspace.get(key)` with an artifact, or what the attempt had
abbrev workspace_ref : String → List (String × WorkspaceValue) → Option String → Option String
workspace_ref key [] old = old
workspace_ref key ((k, v) ∷ rest) old =
    if k == key
    then (if some_text v.artifact_ref then v.artifact_ref else old)
    else workspace_ref key rest old

unfoldable pub with_workspace : List (String × WorkspaceValue) → RepairAttempt → RepairAttempt
with_workspace ws a = record a {
  log_digest_path = workspace_ref "log_digest" ws a.log_digest_path;
  diagnosis_path = workspace_ref "diagnosis" ws a.diagnosis_path;
  metadata_snapshot_path = workspace_ref "metadata_snapshot" ws a.metadata_snapshot_path;
  memory_retrieval_path = workspace_ref "memory_retrieval" ws a.memory_retrieval_path;
  repair_plan_path = workspace_ref "repair_plan" ws a.repair_plan_path;
}

unfoldable pub with_diagnosis : Option DiagnosisResult → RepairAttempt → RepairAttempt
with_diagnosis none a = a
with_diagnosis (some d) a = record a {
  diagnosed_error_type = some (error_type_text d.diagnosed_error_type);
  diagnosed_keywords = d.diagnosed_keywords;
  error_fingerprint = some d.error_fingerprint;
}

abbrev from_static_gate : Option CandidateFeedback → Bool
from_static_gate none = false
from_static_gate (some f) = f.gate_name == "StaticValidationGate"

unfoldable pub stopped_status : RunResultStatus → CandidateState → AttemptStatus
stopped_status RunResultStatus.human_required c = AttemptStatus.human_required
stopped_status RunResultStatus.failed c = AttemptStatus.human_required
stopped_status _ c =
    if from_static_gate (last? c.gate_feedback)
    then AttemptStatus.validation_blocked
    else AttemptStatus.reflection_blocked

-- `a or b` of optional texts
abbrev first_text : Option String → Option String → Option String
first_text a b = if some_text a then a else b

module _ (h : Host) (parts : ServiceParts) where
  -- The two handlers around a run
  unfoldable pub give_up : RepairSession → RepairAttempt → Failure → Action AgentExternalResult
  give_up s a lock_timeout = human h s a "Session 正在处理中，候选提交失败。"
  give_up s a (raised name) =
      emit s.session_id "agentic_processor_failed" "agent_runner" (some a.attempt_id)
      >> human h s a "Agent 内部处理失败，请人工介入。"

  -- A stage of a run: what it raises is handled with the session and the attempt as they are by then.
  -- They are given here; a stage changes neither before a step of it that may raise, unless it is
  -- `_human`, whose changes the handler writes again.
  unfoldable pub attempt_stage :
      {A : Type 0}
      → RepairSession
      → RepairAttempt
      → Action A
      → (A → Action AgentExternalResult)
      → Action AgentExternalResult
  attempt_stage s a m k w = let (r, w') = m w in elim r [ ok x ↦ k x w' | err e ↦ give_up s a e w' ]

  -- The post reflection on the attempt before, when both left a diagnosis and a plan
  unfoldable pub reflect_on :
      RepairSession
      → RepairAttempt
      → Option DiagnosisResult
      → Option RepairPlan
      → Bool
      → Option String
      → DiagnosisResult
      → Action RepairAttempt
  reflect_on s a (some before) (some plan) true (some sql) now =
      if truthy sql
      then (do
        post ←
            or_raise (post_reflect (parts.reflect before now) s.diagnosis_history before now)
              (raised "Exception")
        ref ←
            save_json_ref h s.session_id (some a.attempt_id) "post_reflection_result.json"
              (Saved.post_reflection post) "TRACE_PAYLOAD"
        pure (record a { post_reflection_result_path = some (h.dump_ref ref) }))
      else pure a
  reflect_on s a _ _ _ _ now = pure a

  unfoldable pub post_reflection :
      Option RepairAttempt
      → Option DiagnosisResult
      → Bool
      → RepairSession
      → RepairAttempt
      → Action RepairAttempt
  post_reflection (some previous) (some now) has_log s a = do
    before ← load_attempt_artifact h parts.parse_diagnosis previous.diagnosis_path
    plan ← load_attempt_artifact h parts.parse_plan previous.repair_plan_path
    reflect_on s a before plan has_log previous.sql_candidate now
  post_reflection (some previous) none has_log s a = pure a
  post_reflection none now has_log s a = pure a

  unfoldable pub answer_stopped :
      RunResultStatus → Option String → RepairSession → RepairAttempt → Action AgentExternalResult
  answer_stopped RunResultStatus.no_sql reason s a = do
    result ← valid (ExternalResults.no_sql reason)
    persist_external_result h s a result
  answer_stopped _ reason s a = human h s a (text_or reason "Agent 无法安全生成候选 SQL。")

  -- A run that ended without a candidate: what the answer raises is handled with the attempt and the
  -- session as they are saved here.
  unfoldable pub stop_without_candidate :
      ProcessorRun → RepairSession → RepairAttempt → Action AgentExternalResult
  stop_without_candidate run s a = do
    let a' = record a {
      status = stopped_status run.result.status run.candidate;
      stop_reason = first_text run.result.reason run.result.stop_reason;
    }
    save_attempt s a'
    let s' = record s { agent_terminal_status = some (run_status_text run.result.status) }
    save_session s'
    attempt_stage s' a' (answer_stopped run.result.status run.result.reason s' a') pure

  -- What the second lock block leaves: an answer, or the committed session and attempt.
  unfoldable pub commit_checked :
      Option GateResult
      → ProcessorRun
      → RepairSession
      → RepairSession
      → RepairAttempt
      → Action Opening
  commit_checked none run s latest a = do
    result ← human h s a "Gate 结果丢失，无法安全提交候选 SQL。"
    pure (answered result)
  commit_checked (some gate) run s latest a = do
    done ← commit h latest a run.candidate gate
    let a' = record done.1 { sql_candidate_path = run.result.candidate_artifact_ref }
    save_attempt done.0 a'
    pure (opened done.0 a')

  unfoldable pub commit_recorded :
      Option UpstreamTaskEventRecord
      → ProcessorRun
      → RepairSession
      → RepairSession
      → RepairAttempt
      → Action Opening
  commit_recorded current run s latest a =
      if (elim current [ none ↦ false | some r ↦ same_text r.attempt_id (some a.attempt_id) ])
      then commit_checked run.last_gate run s latest a
      else (do result ← human h s a "事件状态已变化，无法安全提交候选 SQL。"; pure (answered result))

  unfoldable pub commit_latest :
      Option RepairSession → ProcessorRun → RepairSession → RepairAttempt → Action Opening
  commit_latest none run s a = do
    result ← human h s a "Session 丢失，无法提交候选 SQL。"
    pure (answered result)
  commit_latest (some latest) run s a =
      commit_recorded (find_event latest a.source_event_key) run s latest a

  unfoldable pub deliver_committed :
      String → RepairSession → RepairAttempt → Action AgentExternalResult
  deliver_committed sql s a = do
    result ← valid (ExternalResults.sql_ready sql)
    persist_external_result h s a result

  unfoldable pub after_commit : String → Opening → Action AgentExternalResult
  after_commit sql (answered result) = pure result
  after_commit sql (opened s a) = attempt_stage s a (deliver_committed sql s a) pure

  unfoldable pub commit_candidate :
      UpstreamTaskEvent
      → String
      → ProcessorRun
      → RepairSession
      → RepairAttempt
      → Action AgentExternalResult
  commit_candidate event sql run s a = do
    now ← utc_now_iso h
    let a' = record a {
      sql_candidate = some sql;
      sql_candidate_path = run.result.candidate_artifact_ref;
      status = AttemptStatus.sql_ready;
      updated_at = now;
    }
    attempt_stage s a'
        (with_lock h (do latest ← load_for_task event.id; commit_latest latest run s a'))
        (after_commit sql)

  -- `run_result.status != "CANDIDATE_READY" or not run_result.candidate_sql`
  abbrev pub candidate_of : RunResultStatus → Option String → Option String
  candidate_of RunResultStatus.candidate_ready sql = if some_text sql then sql else none
  candidate_of _ sql = none

  unfoldable pub conclude :
      Option String
      → UpstreamTaskEvent
      → ProcessorRun
      → RepairSession
      → RepairAttempt
      → Action AgentExternalResult
  conclude none event run s a = stop_without_candidate run s a
  conclude (some sql) event run s a = commit_candidate event sql run s a

  -- What follows the run of the processor
  unfoldable pub after_run :
      UpstreamTaskEvent
      → Option RepairAttempt
      → RepairSession
      → RepairAttempt
      → ProcessorRun
      → Action AgentExternalResult
  after_run event previous s a run = do
    path ←
        save_json h s.session_id a.attempt_id "agent_run_state.json" (Saved.run_state run.run_state)
    let a1 = with_workspace run.workspace (record a { agent_run_state_path = some path })
    attempt_stage s a1 (post_reflection previous run.diagnosis run.has_log_digest s a1) (λ a2.
        conclude (candidate_of run.result.status run.result.candidate_sql) event run s
          (with_diagnosis run.diagnosis a2))

  unfoldable pub mark_failed : RepairSession → RepairAttempt → Action (Option RepairAttempt)
  mark_failed s previous = do
    now ← utc_now_iso h
    let previous' = record previous { status = AttemptStatus.upstream_failed; updated_at = now }
    save_attempt s previous'
    pure (some previous')

  -- The attempt whose candidate the upstream has just seen fail
  unfoldable pub fail_previous :
      Option String
      → Option String
      → UpstreamTaskEvent
      → RepairSession
      → Action (Option RepairAttempt)
  fail_previous (some sql) (some attempt_id) event s =
      if sql == event.sql && truthy attempt_id
      then (do previous ← load_attempt s attempt_id; mark_failed s previous)
      else pure none
  fail_previous (some sql) none event s = pure none
  fail_previous none attempt_id event s = pure none

  unfoldable pub run_event :
      UpstreamTaskEvent → RepairSession → RepairAttempt → Action AgentExternalResult
  run_event event s a =
      if not (some_text event.log_path) && not (some_text event.error_message)
      then human h s a "缺少可用于诊断的日志和错误信息。"
      else (do
        previous ← fail_previous s.latest_sql_candidate s.latest_sql_candidate_attempt_id event s
        attempt_stage s a (parts.process event s a) (after_run event previous s a))

  unfoldable pub after_opening : UpstreamTaskEvent → Result Opening → Action AgentExternalResult
  after_opening event (ok (answered result)) = pure result
  after_opening event (ok (opened s a)) = run_event event s a
  after_opening event (err lock_timeout) =
      valid (ExternalResults.human_required "Session 正在处理中，请稍后重试。")
  after_opening event (err (raised name)) = raise (raised name)

  unfoldable pub handle_failed_event : UpstreamTaskEvent → Action AgentExternalResult
  handle_failed_event event w =
      let (o, w') = with_lock h (open_event h event) w in after_opening event o w'
