-- ===== src/Service/Dispatch.antt =====
-- `handle_upstream_event` of orchestrator/repair_agent_service.py. An event has no other status.
use sql_self_healing_agent.Prelude.{none, if◌then◌else◌}
use Prim.Native.String.{◌++◌ as str_append}
use sql_self_healing_agent.Core.{
  AgentExternalResult, UpstreamTaskEvent, EventStatus, failed, success,
}
use sql_self_healing_agent.Core.ExternalResults
use sql_self_healing_agent.Session.World.{Action, catch, ◌>>=◌, ◌>>◌, Host, emit}
use sql_self_healing_agent.Session.Store.{load_or_create_for_event}
use sql_self_healing_agent.Service.Models.{ServiceParts}
use sql_self_healing_agent.Service.Results.{valid}
use sql_self_healing_agent.Service.Success.{handle_success_event}
use sql_self_healing_agent.Service.Failed.{handle_failed_event}

module _ (h : Host) (parts : ServiceParts) where
  unfoldable pub handle_by_status : EventStatus → UpstreamTaskEvent → Action AgentExternalResult
  handle_by_status failed event =
      if parts.agentic_enabled then handle_failed_event h parts event else (do
        emit (str_append "audit_" event.id) "agentic_rollback_returned" "orchestrator" none
        valid (ExternalResults.human_required "Agent 编排已通过确定性回滚开关关闭。"))
  handle_by_status success event = catch (handle_success_event h parts event) (λ _. do
    s ← load_or_create_for_event h event
    emit s.session_id "system_error" "orchestrator" none
    valid (ExternalResults.human_required "SUCCESS 事件处理失败，请人工检查本地状态。"))

  unfoldable pub handle_upstream_event : UpstreamTaskEvent → Action AgentExternalResult
  handle_upstream_event event = handle_by_status event.status event
