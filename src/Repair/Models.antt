-- ===== src/Repair/Models.antt =====
-- Data of repair/repair_models.py, repair/reflection.py and diagnostics/diagnosis_models.py.
-- A confidence is a number of hundredths: the code only compares, copies and sets it.
use sql_self_healing_agent.Prelude.{ℕ, String, Bool, Option, List}
use sql_self_healing_agent.Core.{RiskLevel, DiagnosedErrorType}

pub data RepairActionType : Type 0 where
  replace_column add_cast replace_table add_partition_filter rewrite_function : RepairActionType
  qualify_column fix_syntax no_safe_repair : RepairActionType

-- The `Literal` of an action's risk has no BLOCKED.
pub data ActionRisk : Type 0 where
  low medium high : ActionRisk

pub record RepairAction : Type 0 where
  pub action_type : RepairActionType
  pub target_fragment : Option String
  pub replacement_fragment : Option String
  pub reason : String
  pub evidence : Option String
  pub risk_level : ActionRisk

pub record RepairPlan : Type 0 where
  pub plan_id : String
  pub repairable : Bool
  pub actions : List RepairAction
  pub constraints : List String
  pub referenced_experience_ids : List String
  pub manual_repair_recommendation : Option String
  pub confidence : ℕ

pub record ChangedFragment : Type 0 where
  pub before : String
  pub after : String
  pub action_type : RepairActionType
  pub reason : String

pub record SqlGenerationResult : Type 0 where
  pub generated : Bool
  pub sql_candidate : Option String
  pub cannot_generate_safely : Bool
  pub reason : Option String

pub record SqlDiffSummary : Type 0 where
  pub changed_fragment_count : ℕ
  pub changed_fragments : List ChangedFragment
  pub removed_where : Bool
  pub removed_join_condition : Bool
  pub changed_group_by : Bool
  pub changed_insert_target : Bool
  pub changed_static_partition : Bool
  pub parse_success : Bool

pub record ValidationIssue : Type 0 where
  pub code : String
  pub message : String
  pub risk_level : RiskLevel
  pub evidence : Option String

pub record ValidationResult : Type 0 where
  pub risk_level : RiskLevel
  pub passed : Bool
  pub issues : List ValidationIssue
  pub allow_return_sql : Bool
  pub reason : Option String

pub data PreReflectionDecision : Type 0 where
  return_sql regenerate block manual_required : PreReflectionDecision

pub record PreReflectionResult : Type 0 where
  pub decision : PreReflectionDecision
  pub confidence : ℕ
  pub follows_repair_plan : Bool
  pub minimal_change : Bool
  pub semantic_risk_level : RiskLevel
  pub reasons : List String
  pub violated_constraints : List String
  pub regeneration_instruction : Option String

pub data PostReflectionStatus : Type 0 where
  failed_but_progressing failed_unchanged failed_regressed failed_unrelated : PostReflectionStatus
  manual_required oscillating : PostReflectionStatus

pub record PostReflectionResult : Type 0 where
  pub status : PostReflectionStatus
  pub previous_error_resolved : Bool
  pub new_error_introduced : Bool
  pub recommendation_for_next_plan : Option String
  pub reasons : List String
  pub confidence : ℕ

pub record DiagnosisHistoryItem : Type 0 where
  pub attempt_id : String
  pub diagnosed_error_type : DiagnosedErrorType
  pub diagnosed_keywords : List String
  pub error_fingerprint : String
  pub primary_entity : Option String
  pub confidence : ℕ
  pub created_at : String

pub record RuleDiagnosisResult : Type 0 where
  pub diagnosed_error_type : DiagnosedErrorType
  pub diagnosed_keywords : List String
  pub primary_evidence : Option String
  pub confidence : ℕ
  pub matched_rules : List String

pub record LlmDiagnosisResult : Type 0 where
  pub diagnosed_error_type : DiagnosedErrorType
  pub diagnosed_keywords : List String
  pub primary_evidence : Option String
  pub root_cause_summary : String
  pub confidence : ℕ
  pub is_repairable : Bool
  pub manual_repair_reason : Option String

pub record DiagnosisResult : Type 0 where
  pub diagnosed_error_type : DiagnosedErrorType
  pub diagnosed_keywords : List String
  pub error_fingerprint : String
  pub primary_evidence : Option String
  pub root_cause_summary : Option String
  pub confidence : ℕ
  pub rule_result : Option RuleDiagnosisResult
  pub llm_result : Option LlmDiagnosisResult
  pub fusion_reason : Option String
  pub is_repairable : Bool
  pub manual_repair_reason : Option String
  pub primary_entity : Option String
  pub engine_hint : Option String
