-- ===== src/Core/ExternalResults.antt =====
-- ExternalResultFactory of orchestrator/external_result_factory.py; `none` is a `ValueError`.
use sql_self_healing_agent.Prelude.{String, Option, none, some}
use sql_self_healing_agent.Core.{AgentExternalResult, ResultStatus, validate_status_fields}

unfoldable pub sql_ready : String → Option AgentExternalResult
unfolding validate_status_fields
sql_ready sql =
    validate_status_fields
      (record { status = ResultStatus.sql_ready; sql = some sql; message = none })

unfoldable pub no_sql : Option String → Option AgentExternalResult
unfolding validate_status_fields
no_sql message =
    validate_status_fields (record { status = ResultStatus.no_sql; sql = none; message = message })

unfoldable pub human_required : String → Option AgentExternalResult
unfolding validate_status_fields
human_required message =
    validate_status_fields
      (record { status = ResultStatus.human_required; sql = none; message = some message })

unfoldable pub success_ack : Option String → Option AgentExternalResult
unfolding validate_status_fields
success_ack message =
    validate_status_fields
      (record { status = ResultStatus.success_ack; sql = none; message = message })
