-- ===== src/Agent/Models.antt =====
-- The data of agent/models and agent/runner/agent_result.py. A JSON object that is only passed on
-- is an association list from its keys to the texts of its values.
use sql_self_healing_agent.Prelude.{
  ℕ, String, Bool, not, ◌&&◌, ◌||◌, Option, none, some, List, [], ◌∷◌, leb, ltb, is_none, some_text,
}
use sql_self_healing_agent.Core.{RiskLevel, has_text}

abbrev pub Payload : Type 0
Payload = List (String × String)

-- subagent_models.py
pub record SubAgentLimits : Type 0 where
  pub max_steps : ℕ
  pub max_tool_calls : ℕ
  pub max_wall_time_ms : ℕ
  pub max_no_progress_steps : ℕ
  pub max_context_requests : ℕ
  pub allow_recursive_sub_agent : Bool

-- The field bounds and the validator of SubAgentLimits.
unfoldable pub limits_valid : SubAgentLimits → Bool
limits_valid l =
    leb 1 l.max_steps
    && leb l.max_steps 10
    && leb l.max_tool_calls 3
    && leb 1 l.max_wall_time_ms
    && leb l.max_wall_time_ms 30000
    && leb 1 l.max_no_progress_steps
    && leb l.max_no_progress_steps 2
    && leb l.max_context_requests 1
    && not l.allow_recursive_sub_agent

pub record SubAgentBudget : Type 0 where
  pub max_steps : ℕ
  pub max_tool_calls : ℕ
  pub max_wall_time_ms : ℕ
  pub max_context_requests : ℕ
  pub step_count : ℕ
  pub tool_call_count : ℕ
  pub context_request_count : ℕ

unfoldable pub exceeded : SubAgentBudget → Bool
exceeded b =
    leb b.max_steps b.step_count
    || ltb b.max_tool_calls b.tool_call_count
    || ltb b.max_context_requests b.context_request_count

pub record SubAgentRequest : Type 0 where
  pub task_name : String
  pub objective : String
  pub context_refs : List String
  pub allowed_tools : List String
  pub expected_output_schema : String
  pub limits : SubAgentLimits

pub data SubAgentStatus : Type 0 where
  succeeded need_more_context failed budget_exceeded human_required : SubAgentStatus

pub record SubAgentResult : Type 0 where
  pub status : SubAgentStatus
  pub summary : String
  pub artifact_ref : Option String
  pub requested_context_refs : List String
  pub structured_output : Option Payload
  pub stop_reason : Option String

-- execution_plan.py
pub data StepAction : Type 0 where
  tool_call run_sub_agent propose_sql_candidate : StepAction

pub data StepStatus : Type 0 where
  pending in_progress completed blocked skipped : StepStatus

pub record ExecutionStep : Type 0 where
  pub step_id : String
  pub title : String
  pub action_type : StepAction
  pub tool_name : Option String
  pub tool_input : Payload
  pub sub_agent_request : Option SubAgentRequest
  pub status : StepStatus
  pub depends_on : List String
  pub execution_count : ℕ
  pub result_refs : List String
  pub failure_reason : Option String

pub record ExecutionPlan : Type 0 where
  pub revision : ℕ
  pub steps : List ExecutionStep
  pub current_step_id : Option String
  pub summary : Option String

abbrev first_step : String → String → String → List String → ExecutionStep
first_step step_id title tool depends_on = record {
  step_id = step_id;
  title = title;
  action_type = StepAction.tool_call;
  tool_name = some tool;
  tool_input = [];
  sub_agent_request = none;
  status = StepStatus.pending;
  depends_on = depends_on;
  execution_count = 0;
  result_refs = [];
  failure_reason = none;
}

unfoldable pub build_initial_execution_plan : ExecutionPlan
build_initial_execution_plan = record {
  revision = 0;
  steps =
      first_step "read_log" "读取并整理错误日志" "build_log_digest" []
      ∷ first_step "diagnose" "诊断 SQL 错误" "diagnose" ("read_log" ∷ [])
      ∷ first_step "query_metadata" "查询必要元数据" "query_metadata" ("diagnose" ∷ [])
      ∷ first_step "retrieve_memory" "检索相关成功经验" "retrieve_memory" ("diagnose" ∷ [])
      ∷ first_step "generate_candidate" "生成候选 SQL" "generate_candidate"
          ("diagnose" ∷ "query_metadata" ∷ "retrieve_memory" ∷ [])
      ∷ [];
  current_step_id = some "read_log";
  summary = none;
}

-- observation.py
pub data ObservationStatus : Type 0 where
  succeeded failed blocked skipped : ObservationStatus

pub record Observation : Type 0 where
  pub observation_id : String
  pub action_type : String
  pub status : ObservationStatus
  pub summary : String
  pub artifact_refs : List String
  pub produced_workspace_keys : List String
  pub plan_step_id : Option String
  pub created_at : String

-- candidate.py
pub data FeedbackDecision : Type 0 where
  pass reject human_required : FeedbackDecision

pub record CandidateFeedback : Type 0 where
  pub gate_name : String
  pub decision : FeedbackDecision
  pub reason : String

pub data CandidateStatus : Type 0 where
  nothing draft gate_rejected ready : CandidateStatus

pub record CandidateState : Type 0 where
  pub draft_sql : Option String
  pub draft_artifact_ref : Option String
  pub formal_sql : Option String
  pub status : CandidateStatus
  pub gate_feedback : List CandidateFeedback

-- action.py
pub data ActionType : Type 0 where
  tool_call update_plan run_sub_agent propose_sql_candidate return_no_sql : ActionType
  return_human_required : ActionType

pub record AgentAction : Type 0 where
  pub type : ActionType
  pub tool_name : Option String
  pub tool_input : Option Payload
  pub execution_plan : Option ExecutionPlan
  pub sub_agent_request : Option SubAgentRequest
  pub candidate_sql : Option String
  pub reason : Option String

-- What `validate_action_fields` requires of an action of each type.
required_fields : ActionType → AgentAction → Bool
required_fields ActionType.tool_call a = not (is_none a.tool_name) && not (is_none a.tool_input)
required_fields ActionType.update_plan a = not (is_none a.execution_plan)
required_fields ActionType.run_sub_agent a = not (is_none a.sub_agent_request)
required_fields ActionType.propose_sql_candidate a = has_text a.candidate_sql
required_fields ActionType.return_no_sql a = some_text a.reason
required_fields ActionType.return_human_required a = some_text a.reason

unfoldable pub action_valid : AgentAction → Bool
unfolding required_fields
action_valid a = required_fields a.type a

-- context.py
pub data WorkspaceStatus : Type 0 where
  available failed missing : WorkspaceStatus

pub record WorkspaceValue : Type 0 where
  pub status : WorkspaceStatus
  pub summary : Option String
  pub artifact_ref : Option String
  pub updated_at : String

pub data Phase : Type 0 where
  init diagnosing planning generating gating completed : Phase

pub record AgentContext : Type 0 where
  pub session_id : String
  pub attempt_id : String
  pub event_key : String
  pub original_sql : String
  pub error_message : Option String
  pub log_path : Option String
  pub workspace : List (String × WorkspaceValue)
  pub execution_plan : ExecutionPlan
  pub candidate : CandidateState
  pub recent_observations : List Observation
  pub phase : Phase
  pub last_action : Option AgentAction
  pub last_error : Option String

-- run_state.py
pub data RunStatus : Type 0 where
  running succeeded no_sql human_required failed : RunStatus

pub record AgentRunState : Type 0 where
  pub started_at : String
  pub step_count : ℕ
  pub tool_call_count : ℕ
  pub sub_agent_call_count : ℕ
  pub llm_call_count : ℕ
  pub wall_time_ms : ℕ
  pub gate_repair_rounds : ℕ
  pub plan_revision_count : ℕ
  pub no_progress_steps : ℕ
  pub status : RunStatus
  pub stop_reason : Option String

pub record AgentRunLimits : Type 0 where
  pub max_steps : ℕ
  pub max_tool_calls : ℕ
  pub max_sub_agent_calls : ℕ
  pub max_wall_time_ms : ℕ
  pub max_plan_revisions : ℕ
  pub max_gate_repair_rounds : ℕ
  pub max_no_progress_steps : ℕ

abbrev pub default_limits : AgentRunLimits
default_limits = record {
  max_steps = 12;
  max_tool_calls = 10;
  max_sub_agent_calls = 4;
  max_wall_time_ms = 240000;
  max_plan_revisions = 6;
  max_gate_repair_rounds = 1;
  max_no_progress_steps = 2;
}

-- agent_result.py
pub data RunResultStatus : Type 0 where
  candidate_ready no_sql human_required failed : RunResultStatus

pub record AgentRunResult : Type 0 where
  pub status : RunResultStatus
  pub candidate_sql : Option String
  pub candidate_artifact_ref : Option String
  pub risk_level : Option RiskLevel
  pub gate_result_ref : Option String
  pub reason : Option String
  pub stop_reason : Option String
  pub plan_revision : ℕ
  pub step_count : ℕ
  pub trace_ref : Option String
