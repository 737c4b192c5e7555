-- ===== src/Core.antt =====
-- The shared vocabulary: sql_self_healing_agent/core/enums.py and core/models.py. `none` stands for the `ValueError` of a validator.
pub mod Contracts
pub mod ExternalResults
use sql_self_healing_agent.Prelude.{
  String, Bool, true, false, not, ◌&&◌, Option, none, some, is_blank, is_none, if◌then◌else◌,
}

pub data SessionStatus : Type 0 where
  created running sql_ready_pending_upstream upstream_confirmed_success : SessionStatus
  human_required system_error : SessionStatus

pub data AttemptStatus : Type 0 where
  created diagnosed planned generated validation_blocked reflection_blocked sql_ready :
      AttemptStatus
  upstream_failed upstream_confirmed_success human_required system_error : AttemptStatus

pub data RiskLevel : Type 0 where
  low medium high blocked : RiskLevel

pub data DiagnosedErrorType : Type 0 where
  sql_syntax_error column_not_found table_not_found ambiguous_column : DiagnosedErrorType
  type_mismatch invalid_function aggregation_error partition_error : DiagnosedErrorType
  dialect_incompatibility permission_error resource_exhausted : DiagnosedErrorType
  infrastructure_error data_quality_error unknown : DiagnosedErrorType

pub DiagnosedErrorType-discrete : Discrete DiagnosedErrorType
DiagnosedErrorType-discrete = hlevel

pub data EventStatus : Type 0 where
  failed success : EventStatus

pub record UpstreamTaskEvent : Type 0 where
  pub id : String
  pub status : EventStatus
  pub sql : String
  pub error_message : Option String
  pub log_path : Option String

pub data ResultStatus : Type 0 where
  sql_ready no_sql human_required success_ack : ResultStatus

pub record AgentExternalResult : Type 0 where
  pub status : ResultStatus
  pub sql : Option String
  pub message : Option String

-- `value and value.strip()`
abbrev pub has_text : Option String → Bool
has_text none = false
has_text (some s) = not (is_blank s)

unfoldable pub fields_valid : ResultStatus → Option String → Option String → Bool
fields_valid ResultStatus.sql_ready sql message = has_text sql
fields_valid ResultStatus.human_required sql message = has_text message && is_none sql
fields_valid ResultStatus.no_sql sql message = is_none sql
fields_valid ResultStatus.success_ack sql message = is_none sql

unfoldable pub validate_status_fields : AgentExternalResult → Option AgentExternalResult
unfolding fields_valid
validate_status_fields r = if fields_valid r.status r.sql r.message then some r else none
