-- ===== src/Gates/Semantic.antt =====
-- SemanticPreReflectionGate: semantic_pre_reflection_gate.py of agent/gates.
use Prim.Native.String.{◌++◌ as str_append}
use sql_self_healing_agent.Prelude.{
  String, Bool, Option, none, some, List, [], ◌∷◌, text_or, if◌then◌else◌,
}
use sql_self_healing_agent.Core.{RiskLevel}
use sql_self_healing_agent.Repair.Models.{
  RepairPlan, SqlDiffSummary, ValidationResult, PreReflectionDecision, PreReflectionResult,
}
use sql_self_healing_agent.Repair.Evaluator.{Reply, pre_reflect}
use sql_self_healing_agent.Gates.Models.{
  Env, Decision, GateRequest, GateResult, StaticGateOutcome, refusal, result,
}

-- `"; ".join(reasons)`
abbrev joined : List String → String
joined [] = ""
joined (x ∷ []) = x
joined (x ∷ y ∷ ys) = str_append x (str_append "; " (joined (y ∷ ys)))

-- The ladder that reads the reflection's decision and its risk.
unfoldable pub semantic_decision : Bool → PreReflectionDecision → RiskLevel → Decision
semantic_decision allow PreReflectionDecision.return_sql RiskLevel.low = Decision.pass
semantic_decision allow PreReflectionDecision.return_sql RiskLevel.medium =
    if allow then Decision.pass_with_warning else Decision.human_required
semantic_decision allow PreReflectionDecision.regenerate risk = Decision.reject
semantic_decision allow PreReflectionDecision.manual_required risk = Decision.human_required
semantic_decision allow _ RiskLevel.high = Decision.human_required
semantic_decision allow _ RiskLevel.medium = Decision.human_required
semantic_decision allow _ _ = Decision.reject

abbrev code_for : PreReflectionDecision → String
code_for PreReflectionDecision.regenerate = "SEMANTIC_REGENERATE"
code_for _ = "SEMANTIC_REFLECTION_BLOCKED"

abbrev message_for : PreReflectionDecision → PreReflectionResult → Option String
message_for PreReflectionDecision.regenerate r = r.regeneration_instruction
message_for _ r = some (text_or (some (joined r.reasons)) "PreReflection 未放行候选。")

abbrev unless_pass : Decision → Option String → Option String
unless_pass Decision.pass v = none
unless_pass _ v = v

semantic_name : String
semantic_name = "SemanticPreReflectionGate"

module _ (env : Env) (request : GateRequest) where
  unfoldable pub judge_reflection : Option PreReflectionResult → GateResult
  unfolding result semantic_decision semantic_name
  judge_reflection none =
      result env semantic_name request.candidate_sql Decision.human_required RiskLevel.high
        (refusal "SEMANTIC_GATE_FAILED" "语义反思失败，候选不可交付。" "SEMANTIC_REFLECTION_SUCCEEDED")
  judge_reflection (some r) =
      let decision = semantic_decision request.allow_medium_risk r.decision r.semantic_risk_level in
      result env semantic_name request.candidate_sql decision r.semantic_risk_level (record {
        code = unless_pass decision (some (code_for r.decision));
        message = unless_pass decision (message_for r.decision r);
        failed = r.violated_constraints;
        checked = "FOLLOWS_REPAIR_PLAN" ∷ "MINIMAL_CHANGE" ∷ "SEMANTIC_RISK" ∷ [];
        evidence = [];
      })

  evidence_missing : GateResult
  unfolding result semantic_name
  evidence_missing =
      result env semantic_name request.candidate_sql Decision.human_required RiskLevel.high
        (refusal "STATIC_EVIDENCE_MISSING" "静态校验证据不完整。" "STATIC_EVIDENCE_AVAILABLE")

  unfoldable pub reflect_on :
      Option (Reply PreReflectionResult)
      → Option RepairPlan
      → Option SqlDiffSummary
      → Option ValidationResult
      → GateResult
  unfolding judge_reflection evidence_missing pre_reflect
  reflect_on reply (some plan) (some diff) (some v) =
      judge_reflection (pre_reflect reply plan v diff)
  reflect_on reply _ _ _ = evidence_missing

  -- SemanticPreReflectionGate.run; `reply` is the evaluator's model, if it has one.
  unfoldable pub semantic_gate : Option (Reply PreReflectionResult) → StaticGateOutcome → GateResult
  unfolding reflect_on
  semantic_gate reply static =
      reflect_on reply static.repair_plan static.sql_diff_summary static.validation_result
