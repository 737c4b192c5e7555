-- ===== src/Examples/Repair.antt =====
-- The theorems on the validator and the evaluator at concrete candidates.
use sql_self_healing_agent.Prelude.{
  ◌≡◌, refl, ◌↔◌, true, false, some, List, [], ◌∷◌, map, some_text, is_blank,
}
use sql_self_healing_agent.Repair.Models.{
  ActionRisk, ValidationResult, DiagnosisHistoryItem, PreReflectionDecision, PreReflectionResult,
}
use sql_self_healing_agent.Repair.Words.{search_in}
use sql_self_healing_agent.Repair.Validator.{validate}
use sql_self_healing_agent.Repair.Validator.Soundness.{
  RespectsRedLines, AcceptableRisk, validate-allow_iff,
}
use sql_self_healing_agent.Repair.Evaluator.{detect, fingerprint, pre_reflect, answer}
use sql_self_healing_agent.Repair.Evaluator.Oscillation.{EndsInReturn, detect_iff}
use sql_self_healing_agent.Repair.Evaluator.PreReflection.{
  IsReturnable, pre_reflect-return_sound, pre_reflect-regenerate_has_instruction,
}
use sql_self_healing_agent.Examples.Data.{
  failed_sql, fixed_sql, plan_of, clean_diff, text_engine, history_item, reflection_of,
}
use sql_self_healing_agent.Repair.Diff.{candidate_matches_plan, sql_equivalent}
use sql_self_healing_agent.Repair.Apply.{apply_repair_plan}

validate-allow_example :
    ((validate text_engine false failed_sql fixed_sql
        (plan_of ActionRisk.low)
        clean_diff).allow_return_sql
      ≡ true)
    ↔ (RespectsRedLines text_engine failed_sql fixed_sql (plan_of ActionRisk.low) clean_diff
        × AcceptableRisk false (plan_of ActionRisk.low))
validate-allow_example =
    validate-allow_iff text_engine failed_sql fixed_sql (plan_of ActionRisk.low) clean_diff false
      (λ mode new given. refl, tt)

abbrev oscillating : List DiagnosisHistoryItem
oscillating = history_item "f" ∷ history_item "g" ∷ history_item "f" ∷ []

detect_example : (detect oscillating ≡ true) ↔ EndsInReturn (map fingerprint oscillating)
detect_example = detect_iff oscillating

abbrev returned : PreReflectionResult
returned = reflection_of PreReflectionDecision.return_sql

abbrev verdict_low : ValidationResult
verdict_low = validate text_engine false failed_sql fixed_sql (plan_of ActionRisk.low) clean_diff

answers_return :
    pre_reflect (some (answer returned)) (plan_of ActionRisk.low) verdict_low clean_diff
    ≡ some returned
unfolding pre_reflect validate search_in candidate_matches_plan apply_repair_plan sql_equivalent
    is_blank
answers_return = refl

pre_reflect-return_example : IsReturnable verdict_low returned
pre_reflect-return_example =
    pre_reflect-return_sound text_engine false failed_sql fixed_sql (plan_of ActionRisk.low)
      clean_diff (some (answer returned)) returned answers_return refl

abbrev regenerated : PreReflectionResult
regenerated = reflection_of PreReflectionDecision.regenerate

answers_regenerate :
    pre_reflect (some (answer regenerated)) (plan_of ActionRisk.low) verdict_low clean_diff
    ≡ some regenerated
unfolding pre_reflect validate search_in candidate_matches_plan apply_repair_plan sql_equivalent
    is_blank
answers_regenerate = refl

pre_reflect-regenerate_example : some_text regenerated.regeneration_instruction ≡ true
pre_reflect-regenerate_example =
    pre_reflect-regenerate_has_instruction (some (answer regenerated)) (plan_of ActionRisk.low)
      verdict_low clean_diff regenerated answers_regenerate refl

write_blocked :
    (validate text_engine true "SELECT 1" "CREATE TABLE x"
      (plan_of ActionRisk.low)
      clean_diff).passed
    ≡ false
unfolding validate search_in
write_blocked = refl
