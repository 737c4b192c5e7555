-- ===== src/Examples/Data.antt =====
-- Inputs that the examples share: a one-column repair, and an engine that keeps the text as the tree.
use sql_self_healing_agent.Repair.Words.{ascii_rules}
use sql_self_healing_agent.Prelude.{
  String, true, false, none, some, [], ◌∷◌, is_blank, if◌then◌else◌,
}
use sql_self_healing_agent.Core.{DiagnosedErrorType, RiskLevel}
use sql_self_healing_agent.Repair.Models.{
  RepairActionType, ActionRisk, RepairAction, RepairPlan, SqlDiffSummary, DiagnosisResult,
  DiagnosisHistoryItem, PreReflectionDecision, PreReflectionResult,
}
use sql_self_healing_agent.Repair.Diff.{SqlEngine}
use sql_self_healing_agent.Gates.Models.{Env, GateRequest}
use sql_self_healing_agent.Agent.Models.{
  AgentRunState, AgentContext, RunStatus, CandidateStatus, Phase, build_initial_execution_plan,
  ObservationStatus, Observation,
}
use sql_self_healing_agent.Gates.Runner.{GateSet, GateRunner}

abbrev pub failed_sql : String
failed_sql = "SELECT amt FROM t WHERE dt = 1"

abbrev pub fixed_sql : String
fixed_sql = "SELECT amount FROM t WHERE dt = 1"

abbrev pub rename : ActionRisk → RepairAction
rename risk = record {
  action_type = RepairActionType.replace_column;
  target_fragment = some "amt";
  replacement_fragment = some "amount";
  reason = "unknown column";
  evidence = none;
  risk_level = risk;
}

abbrev pub plan_of : ActionRisk → RepairPlan
plan_of risk = record {
  plan_id = "p1";
  repairable = true;
  actions = rename risk ∷ [];
  constraints = [];
  referenced_experience_ids = [];
  manual_repair_recommendation = none;
  confidence = 90;
}

abbrev pub clean_diff : SqlDiffSummary
clean_diff = record {
  changed_fragment_count = 1;
  changed_fragments = [];
  removed_where = false;
  removed_join_condition = false;
  changed_group_by = false;
  changed_insert_target = false;
  changed_static_partition = false;
  parse_success = true;
}

abbrev pub text_engine : SqlEngine String
text_engine = record {
  rules = ascii_rules;
  parse_one = λ s. if is_blank s then none else some s;
  render = λ s. s;
  is_insert = λ s. false;
  expression = λ s. none;
  where_condition = λ s. none;
  and_terms = λ s. none;
  join_ons = λ s. [];
  group_items = λ s. none;
  find_insert = λ s. none;
  this = λ s. none;
  comparison_fails = λ s t. false;
}

abbrev pub diagnosis : DiagnosisResult
diagnosis = record {
  diagnosed_error_type = DiagnosedErrorType.column_not_found;
  diagnosed_keywords = "amt" ∷ [];
  error_fingerprint = "COLUMN_NOT_FOUND:amt";
  primary_evidence = none;
  root_cause_summary = none;
  confidence = 90;
  rule_result = none;
  llm_result = none;
  fusion_reason = none;
  is_repairable = true;
  manual_repair_reason = none;
  primary_entity = some "amt";
  engine_hint = none;
}

abbrev pub history_item : String → DiagnosisHistoryItem
history_item fingerprint = record {
  attempt_id = "a1";
  diagnosed_error_type = DiagnosedErrorType.column_not_found;
  diagnosed_keywords = [];
  error_fingerprint = fingerprint;
  primary_entity = none;
  confidence = 90;
  created_at = "2026-01-01";
}

abbrev pub reflection_of : PreReflectionDecision → PreReflectionResult
reflection_of decision = record {
  decision = decision;
  confidence = 80;
  follows_repair_plan = true;
  minimal_change = true;
  semantic_risk_level = RiskLevel.low;
  reasons = [];
  violated_constraints = [];
  regeneration_instruction = some "rename only the column";
}

abbrev pub env : Env
env = record { sha256 = λ s. s; uuid4 = "u"; now = "2026-01-01" }

abbrev pub gates : GateSet String
gates = record { engine = text_engine; env = env; planner = none; medium_validator = false }

abbrev pub request_for : ActionRisk → String → GateRequest
request_for risk candidate = record {
  original_sql = failed_sql;
  candidate_sql = candidate;
  diagnosis = diagnosis;
  metadata_snapshot = none;
  memory_retrieval = none;
  existing_plan = some (plan_of risk);
  candidate_artifact_ref = none;
  attempt_id = "a1";
  event_key = "e1";
  allow_medium_risk = false;
}

abbrev pub fresh_runner : GateRunner
fresh_runner = record { last_result = none; execution_order = [] }

abbrev pub fresh_state : AgentRunState
fresh_state = record {
  started_at = "2026-01-01";
  step_count = 0;
  tool_call_count = 0;
  sub_agent_call_count = 0;
  llm_call_count = 0;
  wall_time_ms = 0;
  gate_repair_rounds = 0;
  plan_revision_count = 0;
  no_progress_steps = 0;
  status = RunStatus.running;
  stop_reason = none;
}

abbrev pub context : AgentContext
context = record {
  session_id = "s1";
  attempt_id = "a1";
  event_key = "e1";
  original_sql = failed_sql;
  error_message = none;
  log_path = none;
  workspace = [];
  execution_plan = build_initial_execution_plan;
  candidate = record {
    draft_sql = some fixed_sql;
    draft_artifact_ref = none;
    formal_sql = none;
    status = CandidateStatus.draft;
    gate_feedback = [];
  };
  recent_observations = [];
  phase = Phase.gating;
  last_action = none;
  last_error = none;
}

abbrev pub log_read : Observation
log_read = record {
  observation_id = "o1";
  action_type = "TOOL_CALL";
  status = ObservationStatus.succeeded;
  summary = "log read";
  artifact_refs = "artifact://s1/log" ∷ [];
  produced_workspace_keys = [];
  plan_step_id = some "read_log";
  created_at = "2026-01-01";
}
