-- ===== src/Hooks/Models.antt =====
-- agent/hooks/hook_models.py
use sql_self_healing_agent.Prelude.{String, Option, List}

pub data OperationType : Type 0 where
  llm_call tool_call sub_agent_run gate_run context_compaction : OperationType

pub data Caller : Type 0 where
  main_agent sub_agent gate_runner context_manager system : Caller

pub data OperationStatus : Type 0 where
  created running succeeded before_blocked failed timeout cancelled : OperationStatus

pub record OperationContext : Type 0 where
  pub operation_id : String
  pub operation_type : OperationType
  pub session_id : String
  pub attempt_id : Option String
  pub parent_operation_id : Option String
  pub caller : Caller
  pub purpose : String
  pub started_at : String
  pub finished_at : Option String
  pub status : OperationStatus
  pub error_code : Option String
  pub artifact_ref : Option String
  pub input_summary : Option String
  pub output_summary : Option String

pub data HookAction : Type 0 where
  proceed block : HookAction

pub record HookDecision : Type 0 where
  pub action : HookAction
  pub reason_code : Option String
  pub message : Option String
  pub metadata : List (String × String)
