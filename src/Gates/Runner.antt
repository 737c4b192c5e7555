-- ===== src/Gates/Runner.antt =====
-- GateRunner: gate_runner.py of agent/gates. The runner's own state is a record; a method returns
-- it with what the method changes.
pub mod Safety
pub mod Verdicts
pub mod Flow
pub mod Repairs
pub mod AsPart
use sql_self_healing_agent.Prelude.{
  ℕ, zero, suc, ◌+◌, String, Bool, true, false, not, ◌&&◌, ◌||◌, Option, none, some, List, [], ◌∷◌,
  ◌++◌, map, leb, if◌then◌else◌,
}
use sql_self_healing_agent.Core.{RiskLevel}
use sql_self_healing_agent.Repair.Models.{PreReflectionResult}
use sql_self_healing_agent.Repair.Diff.{SqlEngine}
use sql_self_healing_agent.Repair.Evaluator.{Reply}
use sql_self_healing_agent.Agent.Models.{
  AgentContext, AgentRunState, AgentRunResult, CandidateFeedback, CandidateStatus, FeedbackDecision,
  RunStatus, RunResultStatus,
}
use sql_self_healing_agent.Gates.Models.{
  Env, Severity, Decision, GateFeedback, GateRequest, GateResult, StaticGateOutcome, stops, refusal,
  result,
}
use sql_self_healing_agent.Gates.Static.{Planner, static_gate}
use sql_self_healing_agent.Gates.Semantic.{semantic_gate}
use sql_self_healing_agent.Gates.Output.{output_gate}
use sql_self_healing_agent.Gates.Aggregate.{combine}

pub record GateRunner : Type 0 where
  pub last_result : Option GateResult
  pub execution_order : List String

-- The gates that a runner is built from. `reply` is what the evaluator's model answers.
pub record GateSet (Tree : Type 0) : Type 0 where
  pub engine : SqlEngine Tree
  pub env : Env
  pub planner : Option Planner
  pub medium_validator : Bool

abbrev pub text_of : Decision → String
text_of Decision.pass = "PASS"
text_of Decision.pass_with_warning = "PASS_WITH_WARNING"
text_of Decision.reject = "REJECT"
text_of Decision.human_required = "HUMAN_REQUIRED"

abbrev pub first_message : List GateFeedback → String → String
first_message [] otherwise = otherwise
first_message (f ∷ _) otherwise = f.message

abbrev feedback_decision : Severity → FeedbackDecision
feedback_decision Severity.info = FeedbackDecision.pass
feedback_decision Severity.warning = FeedbackDecision.pass
feedback_decision Severity.error = FeedbackDecision.human_required
feedback_decision Severity.block = FeedbackDecision.reject

abbrev pub candidate_feedback : GateFeedback → CandidateFeedback
candidate_feedback f = record {
  gate_name = f.gate_name;
  decision = feedback_decision f.severity;
  reason = f.message;
}

abbrev pub finish : GateResult → List String → GateRunner × GateResult
finish r order = (record { last_result = some r; execution_order = order }, r)

-- Whether `run` delivers the candidate.
unfoldable pub delivers : Bool → Decision → Bool
delivers allow_medium_risk Decision.pass = true
delivers allow_medium_risk Decision.pass_with_warning = allow_medium_risk
delivers allow_medium_risk _ = false

abbrev pub is_human_decision : Decision → Bool
is_human_decision Decision.human_required = true
is_human_decision _ = false

abbrev pub status_of : Bool → RunStatus
status_of human = if human then RunStatus.human_required else RunStatus.no_sql

abbrev pub result_status_of : Bool → RunResultStatus
result_status_of human = if human then RunResultStatus.human_required else RunResultStatus.no_sql

-- The outcome of `run`: the objects that it mutates, and its result.
pub record GateRun : Type 0 where
  pub runner : GateRunner
  pub context : AgentContext
  pub run_state : AgentRunState
  pub outcome : AgentRunResult

module _ {Tree : Type 0} (gates : GateSet Tree) (reply : Option (Reply PreReflectionResult)) where
  open gates use {engine, env, planner, medium_validator}

  -- The gates after the static one has let the candidate pass. The name of each gate is appended to
  -- the order before the gate runs.
  unfoldable pub run_semantic :
      GateRequest → StaticGateOutcome → List String → GateRunner × GateResult
  run_semantic request static order =
      let order_2 = order ++ "SemanticPreReflectionGate" ∷ [] in
      let semantic = semantic_gate env request reply static in
      if stops semantic.decision
      then finish semantic order_2
      else (let order_3 = order_2 ++ "OutputContractGate" ∷ [] in
          let output = output_gate env request (static.result ∷ semantic ∷ []) in
          finish (combine env request.allow_medium_risk static.result (semantic ∷ output ∷ []))
            order_3)

  unfoldable pub run_request : GateRequest → GateRunner × GateResult
  run_request request =
      let order = [] ++ "StaticValidationGate" ∷ [] in
      let static = static_gate engine env planner medium_validator request in
      if stops static.result.decision
      then finish static.result order
      else run_semantic request static order

  unfoldable pub run_repair :
      GateRunner
      → GateRequest
      → String
      → AgentRunState
      → Bool
      → GateRunner × AgentRunState × GateResult
  unfolding result
  run_repair runner request repaired_sql state budget_available =
      if not budget_available || leb 1 state.gate_repair_rounds
      then (
        runner,
        state,
        result env "GateRunner" repaired_sql Decision.human_required RiskLevel.high
            (refusal "GATE_REPAIR_BUDGET_EXHAUSTED" "Gate 修复次数或总预算已耗尽。" "GATE_REPAIR_BUDGET"),
      )
      else (let (next, r) = run_request (record request { candidate_sql = repaired_sql }) in
          (next, record state { gate_repair_rounds = state.gate_repair_rounds + 1 }, r))

  deliver : AgentContext → AgentRunState → GateRunner → GateResult → GateRun
  deliver context state runner r =
      let noted = record (context.candidate) {
        gate_feedback = context.candidate.gate_feedback ++ map candidate_feedback r.feedback;
        formal_sql = context.candidate.draft_sql;
        status = CandidateStatus.ready;
      } in
      record {
        runner = runner;
        context = record context { candidate = noted };
        run_state = record state { status = RunStatus.succeeded };
        outcome = record {
          status = RunResultStatus.candidate_ready;
          candidate_sql = noted.formal_sql;
          candidate_artifact_ref = noted.draft_artifact_ref;
          risk_level = some r.risk_level;
          gate_result_ref = none;
          reason = none;
          stop_reason = none;
          plan_revision = context.execution_plan.revision;
          step_count = state.step_count;
          trace_ref = none;
        };
      }

  refuse : AgentContext → AgentRunState → GateRunner → GateResult → GateRun
  refuse context state runner r =
      let human = is_human_decision r.decision in
      record {
        runner = runner;
        context = record context {
          candidate = record (context.candidate) {
            gate_feedback = context.candidate.gate_feedback ++ map candidate_feedback r.feedback;
            status = CandidateStatus.gate_rejected;
          };
        };
        run_state = record state { status = status_of human };
        outcome = record {
          status = result_status_of human;
          candidate_sql = none;
          candidate_artifact_ref = none;
          risk_level = some r.risk_level;
          gate_result_ref = none;
          reason = some (first_message r.feedback (text_of r.decision));
          stop_reason = none;
          plan_revision = context.execution_plan.revision;
          step_count = state.step_count;
          trace_ref = none;
        };
      }

  request_missing : GateRunner → AgentContext → AgentRunState → GateRun
  request_missing runner context state = record {
    runner = runner;
    context = record context {
      candidate = record (context.candidate) { status = CandidateStatus.gate_rejected };
    };
    run_state = record state {
      status = RunStatus.human_required;
      stop_reason = some "GATE_REQUEST_MISSING";
    };
    outcome = record {
      status = RunResultStatus.human_required;
      candidate_sql = none;
      candidate_artifact_ref = none;
      risk_level = none;
      gate_result_ref = none;
      reason = some "GATE_REQUEST_MISSING";
      stop_reason = some "GATE_REQUEST_MISSING";
      plan_revision = context.execution_plan.revision;
      step_count = state.step_count;
      trace_ref = none;
    };
  }

  unfoldable pub run : GateRunner → AgentContext → AgentRunState → Option GateRequest → GateRun
  unfolding deliver refuse request_missing delivers
  run runner context state none = request_missing runner context state
  run runner context state (some request) =
      let (next, r) = run_request request in
      if delivers request.allow_medium_risk r.decision
      then deliver context state next r
      else refuse context state next r
