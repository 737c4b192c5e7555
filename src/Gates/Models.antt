-- ===== src/Gates/Models.antt =====
-- gate_models.py and gate_utils.py of agent/gates. What the gates take from outside the program is
-- `Env`: sha256, and the values of uuid4 and of the clock at the call.
use Prim.Native.String.{◌++◌ as str_append}
use sql_self_healing_agent.Prelude.{
  String, Bool, true, false, Option, none, some, List, [], ◌∷◌, ◌&&◌, some_text, text_or,
  if◌then◌else◌,
}
use sql_self_healing_agent.Core.{RiskLevel}
use sql_self_healing_agent.Evidence.{MetadataSnapshot, MemoryRetrievalResult}
use sql_self_healing_agent.Repair.Models.{
  RepairPlan, SqlDiffSummary, ValidationResult, DiagnosisResult,
}

pub record Env : Type 0 where
  pub sha256 : String → String
  pub uuid4 : String
  pub now : String

pub data Severity : Type 0 where
  info warning error block : Severity

pub data Decision : Type 0 where
  pass pass_with_warning reject human_required : Decision

pub record GateFeedback : Type 0 where
  pub feedback_id : String
  pub gate_name : String
  pub code : String
  pub severity : Severity
  pub message : String
  pub repair_hint : Option String
  pub evidence_refs : List String
  pub candidate_hash : String
  pub created_at : String

pub record GateResult : Type 0 where
  pub decision : Decision
  pub risk_level : RiskLevel
  pub gate_name : String
  pub candidate_hash : String
  pub feedback : List GateFeedback
  pub evidence_refs : List String
  pub checked_invariants : List String
  pub failed_invariants : List String
  pub created_at : String

pub record GateRequest : Type 0 where
  pub original_sql : String
  pub candidate_sql : String
  pub diagnosis : DiagnosisResult
  pub metadata_snapshot : Option MetadataSnapshot
  pub memory_retrieval : Option MemoryRetrievalResult
  pub existing_plan : Option RepairPlan
  pub candidate_artifact_ref : Option String
  pub attempt_id : String
  pub event_key : String
  pub allow_medium_risk : Bool

pub record StaticGateOutcome : Type 0 where
  pub result : GateResult
  pub repair_plan : Option RepairPlan
  pub sql_diff_summary : Option SqlDiffSummary
  pub validation_result : Option ValidationResult

-- `decision in {"REJECT", "HUMAN_REQUIRED"}`
abbrev pub stops : Decision → Bool
stops Decision.pass = false
stops Decision.pass_with_warning = false
stops Decision.reject = true
stops Decision.human_required = true

abbrev severity_of : RiskLevel → Decision → Severity
severity_of RiskLevel.blocked d = Severity.block
severity_of _ d = if stops d then Severity.error else Severity.warning

-- The arguments of `result` that have defaults.
pub record Details : Type 0 where
  pub code : Option String
  pub message : Option String
  pub failed : List String
  pub checked : List String
  pub evidence : List String

abbrev pub refusal : String → String → String → Details
refusal code message failed = record {
  code = some code;
  message = some message;
  failed = failed ∷ [];
  checked = [];
  evidence = [];
}

-- `result` of gate_utils.py
unfoldable pub result : Env → String → String → Decision → RiskLevel → Details → GateResult
result env gate_name sql decision risk_level details =
    let digest = env.sha256 sql in
    record {
      decision = decision;
      risk_level = risk_level;
      gate_name = gate_name;
      candidate_hash = digest;
      feedback =
          if some_text details.code && some_text details.message
          then record {
            feedback_id = str_append "feedback_" env.uuid4;
            gate_name = gate_name;
            code = text_or details.code "";
            severity = severity_of risk_level decision;
            message = text_or details.message "";
            repair_hint = none;
            evidence_refs = [];
            candidate_hash = digest;
            created_at = env.now;
          }
            ∷ []
          else [];
      evidence_refs = details.evidence;
      checked_invariants = details.checked;
      failed_invariants = details.failed;
      created_at = env.now;
    }
