-- ===== src/Repair/Validator.antt =====
-- repair/validator.py: the red lines that a candidate SQL must not cross.
mod Risk
pub mod Soundness
pub mod Keywords
pub use Risk.*
use sql_self_healing_agent.Prelude.{
  String, Bool, true, false, not, ◌&&◌, ◌||◌, Option, none, some, List, [], ◌∷◌, ◌++◌, any,
  is_empty, length, nat_eq, if◌then◌else◌,
}
use sql_self_healing_agent.Core.{RiskLevel}
use sql_self_healing_agent.Repair.Models.{
  RepairPlan, SqlDiffSummary, ValidationIssue, ValidationResult,
}
use sql_self_healing_agent.Repair.Words.{
  search_in, dangerous_pattern, write_pattern, insert_pattern,
}
use sql_self_healing_agent.Repair.Diff.{SqlEngine, candidate_matches_plan}

abbrev blocking : String → String → ValidationIssue
blocking code message = record {
  code = code;
  message = message;
  risk_level = RiskLevel.blocked;
  evidence = none;
}

-- `if enabled: issues.append(...)`
abbrev when : Bool → ValidationIssue → List ValidationIssue
when true issue = issue ∷ []
when false issue = []

-- The issues about statements that write, from what the patterns found in the two texts.
unfoldable pub write_issues : Bool → Bool → Bool → SqlDiffSummary → List ValidationIssue
write_issues failed_write candidate_write candidate_insert diff =
    when (candidate_write && not failed_write) (blocking "WRITE_INTRODUCED" "非写入 SQL 被改为写入 SQL")
    ++ when (candidate_write && not candidate_insert)
        (blocking "UNSUPPORTED_WRITE_SQL" "MVP 无法安全验证该写入型 SQL")
    ++ when
        (candidate_insert
          && (not diff.parse_success
              || diff.changed_insert_target
              || diff.changed_static_partition))
        (blocking "INSERT_TARGET_UNVERIFIED" "无法确认写入目标和静态分区保持不变")

unfoldable pub clause_issues : SqlDiffSummary → List ValidationIssue
clause_issues diff =
    when diff.removed_where (blocking "WHERE_WEAKENED" "候选 SQL 删除或弱化了 WHERE")
    ++ when diff.removed_join_condition (blocking "JOIN_CONDITION_CHANGED" "候选 SQL 删除或改变了 JOIN 条件")
    ++ when diff.changed_group_by (blocking "GROUP_BY_CHANGED" "候选 SQL 改变了 GROUP BY 粒度")

module _ {Tree : Type 0} (engine : SqlEngine Tree) where
  -- All issues, in the order in which the code appends them.
  unfoldable pub find_issues : String → String → RepairPlan → SqlDiffSummary → List ValidationIssue
  unfolding write_issues clause_issues
  find_issues failed_sql candidate plan diff =
      when (search_in engine.rules dangerous_pattern candidate)
        (blocking "DANGEROUS_SQL" "候选 SQL 包含禁止语句")
      ++ write_issues (search_in engine.rules write_pattern failed_sql)
          (search_in engine.rules write_pattern candidate)
          (search_in engine.rules insert_pattern candidate) diff
      ++ clause_issues diff
      ++ when (not (candidate_matches_plan engine failed_sql candidate plan))
          (blocking "UNAUTHORIZED_CHANGE" "候选 SQL 包含 RepairPlan 外修改或未完整执行 RepairPlan")
      ++ when (not (nat_eq diff.changed_fragment_count (length plan.actions)))
          (blocking "PLAN_ACTION_COUNT_MISMATCH" "候选修改数量与 RepairPlan 不一致")

  unfoldable pub validate : Bool → String → String → RepairPlan → SqlDiffSummary → ValidationResult
  unfolding find_issues plan_risk allows
  validate allow_medium_risk failed_sql candidate plan diff =
      let issues = find_issues failed_sql candidate plan diff in
      let risk = if is_empty issues then plan_risk plan.actions else RiskLevel.blocked in
      let allow = allows allow_medium_risk risk in
      record {
        risk_level = risk;
        passed = is_empty issues;
        issues = issues;
        allow_return_sql = allow;
        reason = if allow then none else some "候选 SQL 未通过返回门禁";
      }
