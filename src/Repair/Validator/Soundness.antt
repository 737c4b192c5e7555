-- ===== src/Repair/Validator/Soundness.antt =====
-- What `Validator.validate` (repair/validator.py) promises of a candidate that it allows.
use sql_self_healing_agent.Prelude.{
  String, ◌≡◌, ◌↔◌, Bool, true, false, ◌||◌, some, All, any, is_empty, length, arith,
}
use sql_self_healing_agent.Core.{RiskLevel}
use sql_self_healing_agent.Repair.Models.{RepairAction, RepairPlan, SqlDiffSummary}
use sql_self_healing_agent.Repair.Words.{
  TextRules, search_in, dangerous_pattern, write_pattern, insert_pattern,
}
use sql_self_healing_agent.Repair.Apply.{identifier, action_mode}
use sql_self_healing_agent.Repair.Diff.{SqlEngine, candidate_matches_plan}
use sql_self_healing_agent.Repair.Validator.{is_high, is_medium, is_cast, find_issues, validate}

-- The red lines, read off the facts about a candidate.
pub record RespectsRedLines {Tree : Type 0} (engine : SqlEngine Tree) (failed candidate : String)
    (plan : RepairPlan) (diff : SqlDiffSummary) : Type 0 where
  pub nothing_dangerous : search_in engine.rules dangerous_pattern candidate ≡ false
  pub no_new_write :
      search_in engine.rules write_pattern candidate ≡ true
      → search_in engine.rules write_pattern failed ≡ true
  pub writes_insert :
      search_in engine.rules write_pattern candidate ≡ true
      → search_in engine.rules insert_pattern candidate ≡ true
  pub insert_parsed :
      search_in engine.rules insert_pattern candidate ≡ true → diff.parse_success ≡ true
  pub target_kept :
      search_in engine.rules insert_pattern candidate ≡ true → diff.changed_insert_target ≡ false
  pub partition_kept :
      search_in engine.rules insert_pattern candidate ≡ true → diff.changed_static_partition ≡ false
  pub where_kept : diff.removed_where ≡ false
  pub joins_kept : diff.removed_join_condition ≡ false
  pub grouping_kept : diff.changed_group_by ≡ false
  pub follows_plan : candidate_matches_plan engine failed candidate plan ≡ true
  pub counts_agree : diff.changed_fragment_count ≡ length plan.actions

-- The risks of the plan's actions: none is HIGH, and a MEDIUM action or a cast needs the setting
-- that allows medium risk.
pub record AcceptableRisk (allow_medium_risk : Bool) (plan : RepairPlan) : Type 0 where
  pub not_high : any is_high plan.actions ≡ false
  pub medium_allowed :
      (any is_medium plan.actions || any is_cast plan.actions) ≡ true → allow_medium_risk ≡ true

-- The replacement of an action on an identifier is a template that `re` accepts.
abbrev pub HasTemplate : TextRules → RepairAction → Type 0
HasTemplate rules a =
    action_mode a.action_type ≡ identifier
    → (new : String) → a.replacement_fragment ≡ some new
    → rules.is_template new ≡ true

module _ {Tree : Type 0} (engine : SqlEngine Tree) (failed candidate : String) (plan : RepairPlan)
    (diff : SqlDiffSummary) where
  pub find_issues_sound :
      is_empty (find_issues engine failed candidate plan diff) ≡ true
      → RespectsRedLines engine failed candidate plan diff
  unfolding find_issues
  find_issues_sound h = ground arith

  pub find_issues_complete :
      RespectsRedLines engine failed candidate plan diff
      → is_empty (find_issues engine failed candidate plan diff) ≡ true
  unfolding find_issues
  find_issues_complete h = ground arith

  pub validate-allowed :
      (allow_medium_risk : Bool)
      → ((validate engine allow_medium_risk failed candidate plan diff).allow_return_sql ≡ true) ↔ (
          RespectsRedLines engine failed candidate plan diff
          × AcceptableRisk allow_medium_risk plan)
  unfolding validate
  validate-allowed allow_medium_risk = (
    λ h. (
      find_issues_sound (ground arith),
      record { not_high = ground arith; medium_allowed = ground arith },
    ),
    λ h. ground (arith, find_issues_complete h.0, h.1.not_high, h.1.medium_allowed),
  )

  -- For a plan whose identifier replacements are templates that `re` accepts (the code raises
  -- re.error on another), a candidate is allowed exactly when it respects every red line, no action
  -- of the plan is of HIGH risk, and medium risk is allowed if the plan has a MEDIUM action or a cast.
  pub validate-allow_iff :
      (allow_medium_risk : Bool)
      → All (HasTemplate engine.rules) plan.actions
      → ((validate engine allow_medium_risk failed candidate plan diff).allow_return_sql ≡ true) ↔ (
          RespectsRedLines engine failed candidate plan diff
          × AcceptableRisk allow_medium_risk plan)
  validate-allow_iff allow_medium_risk templates = validate-allowed allow_medium_risk

  -- The four verdict fields agree: a candidate passes exactly when there is no issue, and a
  -- candidate with an issue has risk BLOCKED and is not allowed.
  pub validate-issue_blocks :
      (allow_medium_risk : Bool)
      → (validate engine allow_medium_risk failed candidate plan diff).passed ≡ false
      → ((validate engine allow_medium_risk failed candidate plan diff).risk_level
          ≡ RiskLevel.blocked)
        × ((validate engine allow_medium_risk failed candidate plan diff).allow_return_sql ≡ false)
  unfolding validate
  validate-issue_blocks allow_medium_risk h = ground arith
