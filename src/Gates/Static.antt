-- ===== src/Gates/Static.antt =====
-- StaticValidationGate, with RepairPlanBuilder and SQLDiffBuilder: static_validation_gate.py and
-- builders.py of agent/gates.
use sql_self_healing_agent.Prelude.{
  String, Bool, true, false, not, ◌&&◌, ◌||◌, Option, none, some, List, [], ◌∷◌, map, is_empty,
  is_blank, text_or, truthy, if◌then◌else◌,
}
use sql_self_healing_agent.Core.{RiskLevel}
use sql_self_healing_agent.Repair.Models.{
  RepairPlan, SqlGenerationResult, SqlDiffSummary, ValidationIssue, ValidationResult,
}
use sql_self_healing_agent.Repair.Diff.{SqlEngine, build_diff}
use sql_self_healing_agent.Repair.Validator.{validate}
use sql_self_healing_agent.Gates.Models.{
  Env, Decision, GateRequest, StaticGateOutcome, Details, refusal, result,
}

-- The planner that may be injected into RepairPlanBuilder; `none` as its value is an exception.
abbrev pub Planner : Type 0
Planner = GateRequest → Option RepairPlan

abbrev if_repairable : RepairPlan → Option RepairPlan
if_repairable plan = if not plan.repairable || is_empty plan.actions then none else some plan

abbrev planned : Option RepairPlan → Option RepairPlan
planned none = none
planned (some plan) = if_repairable plan

-- RepairPlanBuilder.build; `none` is a ValueError.
unfoldable pub build_plan : Option Planner → Option RepairPlan → GateRequest → Option RepairPlan
build_plan planner (some plan) request = some plan
build_plan none none request = none
build_plan (some plan_for) none request = planned (plan_for request)

abbrev pub generation_of : String → SqlGenerationResult
generation_of candidate = record {
  generated = true;
  sql_candidate = some candidate;
  cannot_generate_safely = false;
  reason = none;
}

abbrev first_code : List ValidationIssue → Option String → Option String
first_code [] otherwise = otherwise
first_code (issue ∷ _) otherwise = some issue.code

abbrev first_message : List ValidationIssue → Option String → Option String
first_message [] otherwise = otherwise
first_message (issue ∷ _) otherwise = some issue.message

abbrev issue_code : ValidationIssue → String
issue_code issue = issue.code

abbrev is_human_required : Decision → Bool
is_human_required Decision.human_required = true
is_human_required _ = false

abbrev one_ref : Option String → List String
one_ref none = []
one_ref (some ref) = if truthy ref then ref ∷ [] else []

static_decision : Bool → RiskLevel → ValidationResult → Decision
static_decision allow_medium_risk RiskLevel.blocked v = Decision.reject
static_decision allow_medium_risk RiskLevel.high v = Decision.human_required
static_decision allow_medium_risk RiskLevel.medium v =
    if allow_medium_risk && v.allow_return_sql
    then Decision.pass_with_warning
    else Decision.human_required
static_decision allow_medium_risk RiskLevel.low v =
    if not v.allow_return_sql || not v.passed then Decision.reject else Decision.pass

static_details : Decision → GateRequest → ValidationResult → Details
static_details decision request v = record {
  code =
      first_code v.issues
        (if is_human_required decision then some "RISK_REQUIRES_REVIEW" else none);
  message =
      first_message v.issues
        (if is_human_required decision then some (text_or v.reason "候选风险需要人工确认") else none);
  failed = map issue_code v.issues;
  checked = "REPAIR_PLAN_BOUNDARY" ∷ "SQL_DIFF_BOUNDARY" ∷ "VALIDATOR_RED_LINES" ∷ [];
  evidence = one_ref request.candidate_artifact_ref;
}

static_name : String
static_name = "StaticValidationGate"

module _ (env : Env) where
  unfoldable pub static_judge :
      GateRequest → RepairPlan → SqlDiffSummary → ValidationResult → StaticGateOutcome
  unfolding result static_decision static_details static_name
  static_judge request plan diff v =
      let decision = static_decision request.allow_medium_risk v.risk_level v in
      record {
        result =
            result env static_name request.candidate_sql decision v.risk_level
              (static_details decision request v);
        repair_plan = some plan;
        sql_diff_summary = some diff;
        validation_result = some v;
      }

  unfoldable pub plan_unavailable : GateRequest → StaticGateOutcome
  unfolding result static_name
  plan_unavailable request = record {
    result = result env static_name request.candidate_sql Decision.human_required RiskLevel.high (
        refusal "PLAN_OR_DIFF_UNAVAILABLE" "无法为候选构造合法 RepairPlan 或 SQLDiffSummary。"
          "PLAN_AND_DIFF_AVAILABLE");
    repair_plan = none;
    sql_diff_summary = none;
    validation_result = none;
  }

-- StaticValidationGate.run: `medium_validator` is the setting of the gate's own validator.
module _ {Tree : Type 0} (engine : SqlEngine Tree) (env : Env) (planner : Option Planner)
    (medium_validator : Bool) where
  unfoldable pub judge_plan : GateRequest → Option RepairPlan → StaticGateOutcome
  unfolding static_judge plan_unavailable
  judge_plan request none = plan_unavailable env request
  judge_plan request (some plan) =
      if is_blank request.candidate_sql
      then plan_unavailable env request
      else (let diff =
            build_diff engine request.original_sql (generation_of request.candidate_sql) plan in
          static_judge env request plan diff (
            validate engine (request.allow_medium_risk || medium_validator) request.original_sql
              request.candidate_sql plan diff))

  unfoldable pub static_gate : GateRequest → StaticGateOutcome
  unfolding judge_plan build_plan
  static_gate request = judge_plan request (build_plan planner request.existing_plan request)
