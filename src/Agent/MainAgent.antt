-- ===== src/Agent/MainAgent.antt =====
-- DeterministicMainAgent of orchestrator/agentic_failed_event_processor.py, and the part of
-- ContextManager.prepare_for_main_agent (agent/context/context_manager.py) that it reads.
pub mod Choices
use sql_self_healing_agent.Prelude.{
  ℕ, String, ◌≡◌, refl, Bool, true, false, not, ◌&&◌, ◌||◌, Option, none, some, List, [], ◌∷◌, ◌==◌,
  nat_eq, is_none, some_text, text_or, arith, if◌then◌else◌,
}
use sql_self_healing_agent.Repair.Words.{codes}
use sql_self_healing_agent.Agent.Models.{
  Payload, SubAgentLimits, SubAgentRequest, ActionType, AgentAction, action_valid, WorkspaceStatus,
  WorkspaceValue, AgentContext, AgentRunState,
}
use sql_self_healing_agent.Agent.Planning.{occurs}
use sql_self_healing_agent.Agent.Runner.{workspace_get}

-- The agent is given the context itself, or the prepared input with its texts.
pub data MainInput : Type 0 where
  full : AgentContext → MainInput
  prepared : List (String × String) → MainInput

abbrev pub status_text : WorkspaceStatus → String
status_text WorkspaceStatus.available = "AVAILABLE"
status_text WorkspaceStatus.failed = "FAILED"
status_text WorkspaceStatus.missing = "MISSING"

abbrev summary_text : WorkspaceValue → Option String → String
summary_text v none = status_text v.status
summary_text v (some s) = s

-- `workspace_summaries` of prepare_for_main_agent
unfoldable pub workspace_summaries : List (String × WorkspaceValue) → List (String × String)
workspace_summaries [] = []
workspace_summaries ((k, v) ∷ rest) = (k, summary_text v v.summary) ∷ workspace_summaries rest

unfoldable pub summaries_get : String → List (String × String) → Option String
summaries_get key [] = none
summaries_get key ((k, s) ∷ rest) = if k == key then some s else summaries_get key rest

abbrev summary_of : Option WorkspaceValue → Option String
summary_of none = none
summary_of (some v) = v.summary

-- `key in workspace`
unfoldable pub has_evidence : String → MainInput → Bool
has_evidence key (full context) = not (is_none (workspace_get key context.workspace))
has_evidence key (prepared texts) = not (is_none (summaries_get key texts))

unfoldable pub diagnosis_text : MainInput → String
diagnosis_text (full context) =
    text_or (summary_of (workspace_get "diagnosis" context.workspace)) ""
diagnosis_text (prepared texts) = text_or (summaries_get "diagnosis" texts) ""

abbrev drop_failed : Option String → Option String
drop_failed none = none
drop_failed (some s) = if s == "FAILED" then none else some s

-- The candidate of the workspace, if it is there
unfoldable pub candidate_text : MainInput → Option String
candidate_text (full context) = summary_of (workspace_get "candidate_sql" context.workspace)
candidate_text (prepared texts) = drop_failed (summaries_get "candidate_sql" texts)

-- The defaults of SubAgentLimits
abbrev pub default_sub_agent_limits : SubAgentLimits
default_sub_agent_limits = record {
  max_steps = 10;
  max_tool_calls = 3;
  max_wall_time_ms = 30000;
  max_no_progress_steps = 2;
  max_context_requests = 1;
  allow_recursive_sub_agent = false;
}

abbrev diagnose_request : SubAgentRequest
diagnose_request = record {
  task_name = "diagnose_sql_error";
  objective = "仅基于现有受控证据补充诊断建议，不生成或提交 SQL";
  context_refs = [];
  allowed_tools = [];
  expected_output_schema = "DiagnosisResult";
  limits = default_sub_agent_limits;
}

abbrev no_action : ActionType → AgentAction
no_action type = record {
  type = type;
  tool_name = none;
  tool_input = none;
  execution_plan = none;
  sub_agent_request = none;
  candidate_sql = none;
  reason = none;
}

abbrev pub call_tool : String → AgentAction
call_tool name = record (no_action ActionType.tool_call) {
  tool_name = some name;
  tool_input = some [];
}

abbrev pub usable : Option String → Bool
usable none = false
usable (some s) = some_text (some s) && not (s == "None")

abbrev propose_candidate : Option String → AgentAction
propose_candidate candidate =
    if usable candidate
    then record (no_action ActionType.propose_sql_candidate) { candidate_sql = candidate }
    else record (no_action ActionType.return_human_required) { reason = some "无法安全生成候选 SQL。" }

-- Whether the diagnosis is UNKNOWN and no sub-agent has looked at it
unfoldable pub wants_sub_agent : MainInput → AgentRunState → Bool
wants_sub_agent input state =
    occurs (codes "UNKNOWN") (codes (diagnosis_text input))
    && not (has_evidence "subagent_diagnosis" input)
    && nat_eq state.sub_agent_call_count 0

-- The fields of the action that DeterministicMainAgent.next_action makes.
unfoldable pub choose_action : MainInput → AgentRunState → AgentAction
choose_action input state =
    if not (has_evidence "log_digest" input)
    then call_tool "build_log_digest"
    else if not (has_evidence "diagnosis" input)
    then call_tool "diagnose"
    else if wants_sub_agent input state
    then record (no_action ActionType.run_sub_agent) { sub_agent_request = some diagnose_request }
    else if not (has_evidence "metadata_snapshot" input)
    then call_tool "query_metadata"
    else if not (has_evidence "memory_retrieval" input)
    then call_tool "retrieve_memory"
    else if not (has_evidence "repair_plan" input)
    then call_tool "build_repair_plan"
    else if not (has_evidence "candidate_sql" input)
    then call_tool "generate_candidate"
    else propose_candidate (candidate_text input)

-- `AgentAction(...)`; `none` is the ValidationError of its validator.
unfoldable pub construct : AgentAction → Option AgentAction
unfolding action_valid
construct a = if action_valid a then some a else none

-- DeterministicMainAgent.next_action
unfoldable pub next_action : MainInput → AgentRunState → Option AgentAction
unfolding choose_action construct
next_action input state = construct (choose_action input state)
