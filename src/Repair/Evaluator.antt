-- ===== src/Repair/Evaluator.antt =====
-- repair/evaluator.py and repair/error_oscillation_detector.py. The model's reply is not computed
-- by this code: `none` stands for no configured client, and `Reply` for what the call gives.
pub mod Oscillation
pub mod PreReflection
use sql_self_healing_agent.Prelude.{
  ℕ, ◌-◌, String, Bool, true, false, not, ◌&&◌, ◌||◌, Option, none, some, List, [], ◌∷◌, ◌++◌, ◌==◌,
  is_empty, length, leb, nat_eq, map, some_text, text_or, if◌then◌else◌,
}
use sql_self_healing_agent.Core.{RiskLevel, DiagnosedErrorType, DiagnosedErrorType-discrete}
use sql_self_healing_agent.Repair.Models.{
  RepairPlan, SqlDiffSummary, ValidationIssue, ValidationResult, PreReflectionDecision,
  PreReflectionResult, PostReflectionStatus, PostReflectionResult, DiagnosisHistoryItem,
  DiagnosisResult,
}

-- A structured call of the language model: a valid answer, an LLMClientError, or another exception.
pub data Reply {ℓ} (A : Type ℓ) : Type ℓ where
  answer : A → Reply A
  client_error : Reply A
  raised : Reply A

abbrev pub drop {ℓ} : {A : Type ℓ} → ℕ → List A → List A
drop Prim.Native.Nat.zero xs = xs
drop (Prim.Native.Nat.suc n) [] = []
drop (Prim.Native.Nat.suc n) (x ∷ xs) = drop n xs

-- `xs[-n:]`
abbrev pub last_n {ℓ} : {A : Type ℓ} → ℕ → List A → List A
last_n n xs = drop (length xs - n) xs

abbrev pub returns_first : List String → Bool
returns_first (a ∷ b ∷ c ∷ _) = a == c && not (a == b)
returns_first _ = false

abbrev pub alternates : List String → Bool
alternates (a ∷ b ∷ c ∷ d ∷ _) = a == c && b == d && not (a == b)
alternates _ = false

abbrev pub fingerprint : DiagnosisHistoryItem → String
fingerprint item = item.error_fingerprint

-- ErrorOscillationDetector.detect, on the fingerprints
unfoldable pub oscillates : List String → Bool
oscillates fingerprints =
    if leb 3 (length fingerprints) && returns_first (last_n 3 fingerprints)
    then true
    else if leb 4 (length fingerprints) && alternates (last_n 4 fingerprints)
    then true
    else false

unfoldable pub detect : List DiagnosisHistoryItem → Bool
unfolding oscillates
detect history = oscillates (map fingerprint history)

abbrev returnable_risk : RiskLevel → Bool
returnable_risk RiskLevel.low = true
returnable_risk RiskLevel.medium = true
returnable_risk RiskLevel.high = false
returnable_risk RiskLevel.blocked = false

abbrev block_with : PreReflectionResult → String → PreReflectionResult
block_with r reason = record r {
  decision = PreReflectionDecision.block;
  reasons = r.reasons ++ reason ∷ [];
}

-- `_enforce_result_consistency`, by the decision
enforce : PreReflectionDecision → PreReflectionResult → PreReflectionResult
enforce PreReflectionDecision.return_sql r =
    if r.follows_repair_plan
      && r.minimal_change
      && returnable_risk r.semantic_risk_level
      && is_empty r.violated_constraints
    then r
    else block_with r "PreReflection RETURN_SQL 字段自相矛盾，已安全阻断。"
enforce PreReflectionDecision.regenerate r =
    if some_text r.regeneration_instruction
    then r
    else block_with r "REGENERATE 缺少 regeneration_instruction。"
enforce PreReflectionDecision.block r = r
enforce PreReflectionDecision.manual_required r = r

unfoldable pub enforce_result_consistency : PreReflectionResult → PreReflectionResult
unfolding enforce
enforce_result_consistency r = enforce r.decision r

abbrev issue_code : ValidationIssue → String
issue_code issue = issue.code

abbrev pub diff_is_minimal : SqlDiffSummary → Bool
diff_is_minimal diff = not (
    diff.removed_where || diff.removed_join_condition || diff.changed_group_by
    || diff.changed_insert_target || diff.changed_static_partition)

-- The verdict without a model.
unfoldable pub reflect_by_rules :
    RepairPlan → ValidationResult → SqlDiffSummary → PreReflectionResult
reflect_by_rules plan validation diff =
    let follows = nat_eq diff.changed_fragment_count (length plan.actions) in
    let minimal = follows && diff_is_minimal diff in
    record {
      decision =
          if follows && minimal
          then PreReflectionDecision.return_sql
          else PreReflectionDecision.block;
      confidence = 95;
      follows_repair_plan = follows;
      minimal_change = minimal;
      semantic_risk_level = validation.risk_level;
      reasons =
          (if follows && minimal
            then "候选 SQL 仅执行 RepairPlan 中的最小修改。"
            else "候选 SQL 未忠实执行 RepairPlan。")
          ∷ [];
      violated_constraints = [];
      regeneration_instruction = none;
    }

reflect_with :
    Option (Reply PreReflectionResult)
    → RepairPlan
    → ValidationResult
    → SqlDiffSummary
    → Option PreReflectionResult
unfolding enforce_result_consistency reflect_by_rules
reflect_with none plan validation diff = some (reflect_by_rules plan validation diff)
reflect_with (some (answer r)) plan validation diff = some (enforce_result_consistency r)
reflect_with (some client_error) plan validation diff = some (record {
  decision = PreReflectionDecision.block;
  confidence = 0;
  follows_repair_plan = false;
  minimal_change = false;
  semantic_risk_level = validation.risk_level;
  reasons = "LLM 未能返回合法的 PreReflection 结果。" ∷ [];
  violated_constraints = [];
  regeneration_instruction = none;
})
reflect_with (some raised) plan validation diff = none

-- `pre_reflect`; `none` is an exception that it lets through.
unfoldable pub pre_reflect :
    Option (Reply PreReflectionResult)
    → RepairPlan
    → ValidationResult
    → SqlDiffSummary
    → Option PreReflectionResult
unfolding reflect_with
pre_reflect reply plan validation diff =
    if not validation.allow_return_sql
    then some (record {
      decision = PreReflectionDecision.block;
      confidence = 100;
      follows_repair_plan = false;
      minimal_change = false;
      semantic_risk_level = validation.risk_level;
      reasons = text_or validation.reason "Validation blocked" ∷ [];
      violated_constraints = map issue_code validation.issues;
      regeneration_instruction = none;
    })
    else reflect_with reply plan validation diff

-- `post_reflect` without an answer of the model, by what changed between the two diagnoses.
abbrev post_reflect_by_rules : Bool → Bool → PostReflectionResult
post_reflect_by_rules true same_type = record {
  status = PostReflectionStatus.failed_unchanged;
  previous_error_resolved = false;
  new_error_introduced = false;
  recommendation_for_next_plan = some "不要重复上一轮修复动作。";
  reasons = "当前错误 fingerprint 与上一轮相同。" ∷ [];
  confidence = 90;
}
post_reflect_by_rules false false = record {
  status = PostReflectionStatus.failed_but_progressing;
  previous_error_resolved = true;
  new_error_introduced = true;
  recommendation_for_next_plan = some "保留上一轮已生效修改，仅处理当前新错误。";
  reasons = "错误类型已变化，上一层错误可能已解决。" ∷ [];
  confidence = 85;
}
post_reflect_by_rules false true = record {
  status = PostReflectionStatus.failed_unrelated;
  previous_error_resolved = false;
  new_error_introduced = true;
  recommendation_for_next_plan = some "按当前日志和元数据重新评估，不沿用未验证结论。";
  reasons = "错误 fingerprint 变化，但错误类型未形成明确推进关系。" ∷ [];
  confidence = 60;
}

abbrev same_type : DiagnosedErrorType → DiagnosedErrorType → Bool
same_type a b = elim (DiagnosedErrorType-discrete a b) [ yes _ ↦ true | no _ ↦ false ]

reflect_failure :
    Option (Reply PostReflectionResult)
    → DiagnosisResult
    → DiagnosisResult
    → Option PostReflectionResult
reflect_failure (some (answer r)) previous current = some r
reflect_failure (some raised) previous current = none
reflect_failure _ previous current = some (
    post_reflect_by_rules (previous.error_fingerprint == current.error_fingerprint)
      (same_type previous.diagnosed_error_type current.diagnosed_error_type))

unfoldable pub post_reflect :
    Option (Reply PostReflectionResult)
    → List DiagnosisHistoryItem
    → DiagnosisResult
    → DiagnosisResult
    → Option PostReflectionResult
unfolding detect reflect_failure
post_reflect reply history previous current =
    if detect history
    then some (record {
      status = PostReflectionStatus.oscillating;
      previous_error_resolved = false;
      new_error_introduced = true;
      recommendation_for_next_plan = some "停止自动修复并转人工，避免错误振荡。";
      reasons = "最近诊断 fingerprint 构成 A/B/A 或 A/B/A/B 振荡。" ∷ [];
      confidence = 100;
    })
    else reflect_failure reply previous current
