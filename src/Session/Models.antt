-- ===== src/Session/Models.antt =====
-- session/session_models.py and agent/artifacts/artifact_ref.py
use sql_self_healing_agent.Prelude.{ℕ, String, Bool, not, ◌&&◌, ◌||◌, Option, List, is_none}
use sql_self_healing_agent.Core.{SessionStatus, AttemptStatus, EventStatus}
use sql_self_healing_agent.Repair.Models.{DiagnosisHistoryItem}

pub data EventProcessingStatus : Type 0 where
  received processing succeeded failed system_error : EventProcessingStatus

pub record UpstreamTaskEventRecord : Type 0 where
  pub event_key : String
  pub task_id : String
  pub session_id : String
  pub status : EventStatus
  pub sql : String
  pub error_message : Option String
  pub log_path : Option String
  pub received_at : String
  pub processing_status : EventProcessingStatus
  pub attempt_id : Option String
  pub result_ref : Option String
  pub error_code : Option String
  pub finished_at : Option String

pub record RepairSession : Type 0 where
  pub schema_version : ℕ
  pub session_id : String
  pub task_id : String
  pub original_sql : String
  pub status : SessionStatus
  pub latest_sql_candidate : Option String
  pub latest_sql_candidate_attempt_id : Option String
  pub confirmed_sql : Option String
  pub confirmed_attempt_id : Option String
  pub upstream_events : List UpstreamTaskEventRecord
  pub attempt_ids : List String
  pub diagnosis_history : List DiagnosisHistoryItem
  pub trace_path : String
  pub artifact_dir : String
  pub last_external_result_ref : Option String
  pub agent_terminal_status : Option String
  pub created_at : String
  pub updated_at : String

-- `validate_candidate_pair`
unfoldable pub candidate_pair_valid : RepairSession → Bool
candidate_pair_valid s =
    is_none s.latest_sql_candidate && is_none s.latest_sql_candidate_attempt_id
    || not (is_none s.latest_sql_candidate) && not (is_none s.latest_sql_candidate_attempt_id)

pub record RepairAttempt : Type 0 where
  pub schema_version : ℕ
  pub attempt_id : String
  pub attempt_no : ℕ
  pub status : AttemptStatus
  pub source_event_key : String
  pub input_event_id : String
  pub input_failed_sql : String
  pub input_error_message : Option String
  pub input_log_path : Option String
  pub previous_attempt_id : Option String
  pub post_reflection_result_path : Option String
  pub agent_run_state_path : Option String
  pub log_digest_path : Option String
  pub diagnosis_path : Option String
  pub metadata_snapshot_path : Option String
  pub memory_retrieval_path : Option String
  pub repair_plan_path : Option String
  pub sql_candidate_path : Option String
  pub validation_result_path : Option String
  pub pre_reflection_result_path : Option String
  pub sql_candidate : Option String
  pub diagnosed_error_type : Option String
  pub diagnosed_keywords : List String
  pub error_fingerprint : Option String
  pub stop_reason : Option String
  pub created_at : String
  pub updated_at : String

pub record ArtifactRef : Type 0 where
  pub artifact_id : String
  pub session_id : String
  pub attempt_id : Option String
  pub artifact_type : String
  pub path : String
  pub content_hash : String
  pub size_bytes : ℕ
  pub token_estimate : ℕ
  pub sanitized : Bool
  pub created_at : String
