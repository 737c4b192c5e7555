-- ===== src/Repair/Evaluator/PreReflection.antt =====
-- What `pre_reflect` (repair/evaluator.py) lets through, whatever the model replies.
use sql_self_healing_agent.Prelude.{
  String, ◌≡◌, Bool, true, Option, none, some, arith, is_empty, some_text,
}
use sql_self_healing_agent.Repair.Models.{
  RepairPlan, SqlDiffSummary, ValidationResult, PreReflectionDecision, PreReflectionResult,
}
use sql_self_healing_agent.Repair.Diff.{SqlEngine}
use sql_self_healing_agent.Repair.Validator.{validate}
use sql_self_healing_agent.Repair.Evaluator.{
  Reply, answer, client_error, raised, returnable_risk, pre_reflect,
}

-- The fields of a result that returns the SQL are consistent.
pub record IsReturnable (validation : ValidationResult) (r : PreReflectionResult) : Type 0 where
  pub validated : validation.allow_return_sql ≡ true
  pub follows : r.follows_repair_plan ≡ true
  pub minimal : r.minimal_change ≡ true
  pub risk : returnable_risk r.semantic_risk_level ≡ true
  pub nothing_violated : is_empty r.violated_constraints ≡ true

pre_reflect-IsReturnable :
    (reply : Option (Reply PreReflectionResult)) (plan : RepairPlan) (validation : ValidationResult)
    (diff : SqlDiffSummary) (r : PreReflectionResult)
    → (validation.allow_return_sql ≡ true → returnable_risk validation.risk_level ≡ true)
    → pre_reflect reply plan validation diff ≡ some r
    → r.decision ≡ PreReflectionDecision.return_sql
    → IsReturnable validation r
unfolding pre_reflect
pre_reflect-IsReturnable none plan validation diff r c h e = ground arith
pre_reflect-IsReturnable (some (answer a)) plan validation diff r c h e = ground arith
pre_reflect-IsReturnable (some client_error) plan validation diff r c h e = ground arith
pre_reflect-IsReturnable (some raised) plan validation diff r c h e = ground arith

module _ {Tree : Type 0} (engine : SqlEngine Tree) (allow_medium_risk : Bool)
    (failed candidate : String) (plan : RepairPlan) (diff : SqlDiffSummary) where
  pub validate-returnable :
      (validate engine allow_medium_risk failed candidate plan diff).allow_return_sql ≡ true
      → returnable_risk (validate engine allow_medium_risk failed candidate plan diff).risk_level
        ≡ true
  unfolding validate
  validate-returnable h = ground arith

  -- Reflecting on a verdict of the validator, with any reply of the model or none: a result that
  -- decides RETURN_SQL needs a validator that allows the candidate, and says that the candidate
  -- follows the plan, is minimal, has LOW or MEDIUM risk and violates nothing.
  pub pre_reflect-return_sound :
      (reply : Option (Reply PreReflectionResult)) (r : PreReflectionResult)
      → pre_reflect reply plan (validate engine allow_medium_risk failed candidate plan diff) diff
        ≡ some r
      → r.decision ≡ PreReflectionDecision.return_sql
      → IsReturnable (validate engine allow_medium_risk failed candidate plan diff) r
  pre_reflect-return_sound reply r h e =
      pre_reflect-IsReturnable reply plan
        (validate engine allow_medium_risk failed candidate plan diff) diff r validate-returnable h
        e

-- A result that decides REGENERATE always has a non-empty instruction.
pub pre_reflect-regenerate_has_instruction :
    (reply : Option (Reply PreReflectionResult)) (plan : RepairPlan) (validation : ValidationResult)
    (diff : SqlDiffSummary) (r : PreReflectionResult)
    → pre_reflect reply plan validation diff ≡ some r
    → r.decision ≡ PreReflectionDecision.regenerate
    → some_text r.regeneration_instruction ≡ true
unfolding pre_reflect
pre_reflect-regenerate_has_instruction none plan validation diff r h e = ground arith
pre_reflect-regenerate_has_instruction (some (answer a)) plan validation diff r h e = ground arith
pre_reflect-regenerate_has_instruction (some client_error) plan validation diff r h e = ground arith
pre_reflect-regenerate_has_instruction (some raised) plan validation diff r h e = ground arith
