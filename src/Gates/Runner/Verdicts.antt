-- ===== src/Gates/Runner/Verdicts.antt =====
-- What a single gate's verdict says, for the theorems about the runner.
use sql_self_healing_agent.Prelude.{
  ◌≡◌, refl, Bool, true, false, ◌||◌, Option, none, some, is_blank, arith, Bool-cases, inl, inr,
  Option-cases,
}
use sql_self_healing_agent.Repair.Models.{
  RepairPlan, SqlDiffSummary, ValidationResult, PreReflectionDecision, PreReflectionResult,
}
use sql_self_healing_agent.Repair.Diff.{SqlEngine, build_diff}
use sql_self_healing_agent.Repair.Validator.{validate}
use sql_self_healing_agent.Repair.Evaluator.{Reply, pre_reflect}
use sql_self_healing_agent.Gates.Models.{Env, GateRequest, StaticGateOutcome, stops}
use sql_self_healing_agent.Gates.Static.{
  Planner, generation_of, build_plan, judge_plan, static_judge, plan_unavailable, static_gate,
}
use sql_self_healing_agent.Gates.Semantic.{judge_reflection, reflect_on, semantic_gate}

module _ {Tree : Type 0} (engine : SqlEngine Tree) (env : Env) (planner : Option Planner)
    (medium_validator : Bool) (request : GateRequest) where
  -- What the static gate established when it let a candidate pass.
  pub record StaticallySound : Type 0 where
    pub plan : RepairPlan
    pub built : build_plan planner request.existing_plan request ≡ some plan
    pub not_blank : is_blank request.candidate_sql ≡ false
    pub allowed :
        (validate engine
          (request.allow_medium_risk || medium_validator)
          request.original_sql
          request.candidate_sql
          plan
          (build_diff engine request.original_sql
            (generation_of request.candidate_sql)
            plan)).allow_return_sql
        ≡ true

  static_judge-allowed :
      (plan : RepairPlan) (diff : SqlDiffSummary) (v : ValidationResult)
      → stops (static_judge env request plan diff v).result.decision ≡ false
      → v.allow_return_sql ≡ true
  unfolding static_judge
  static_judge-allowed plan diff v h = ground arith

  judge_plan-sound :
      (p : Option RepairPlan)
      → build_plan planner request.existing_plan request ≡ p
      → stops (judge_plan engine env planner medium_validator request p).result.decision ≡ false
      → StaticallySound
  unfolding judge_plan
  judge_plan-sound none e h = unfold plan_unavailable in cc
  judge_plan-sound (some plan) e h =
      let diff : SqlDiffSummary =
        build_diff engine request.original_sql (generation_of request.candidate_sql) plan in
      elim (Bool-cases (is_blank request.candidate_sql)) [
        | inl blank ↦ unfold plan_unavailable in ground arith
        | inr text ↦ record {
          plan = plan;
          built = e;
          not_blank = text;
          allowed =
              static_judge-allowed plan diff
                (validate engine (request.allow_medium_risk || medium_validator)
                  request.original_sql request.candidate_sql plan diff)
                (rw text at h);
        }
      ]

  pub static_gate_sound :
      stops (static_gate engine env planner medium_validator request).result.decision ≡ false
      → StaticallySound
  unfolding static_gate
  static_gate_sound h = judge_plan-sound (build_plan planner request.existing_plan request) refl h

  judge_plan-hash :
      (p : Option RepairPlan)
      → (judge_plan engine env planner medium_validator request p).result.candidate_hash
        ≡ env.sha256 request.candidate_sql
  unfolding judge_plan static_judge plan_unavailable
  judge_plan-hash none = refl
  judge_plan-hash (some plan) = ground arith

  pub static_gate-hash :
      (static_gate engine env planner medium_validator request).result.candidate_hash
      ≡ env.sha256 request.candidate_sql
  unfolding static_gate
  static_gate-hash = judge_plan-hash (build_plan planner request.existing_plan request)

module _ (env : Env) (request : GateRequest) (reply : Option (Reply PreReflectionResult)) where
  -- What the semantic gate established when it let a candidate pass.
  pub record SemanticallySound (static : StaticGateOutcome) : Type 0 where
    pub plan : RepairPlan
    pub diff : SqlDiffSummary
    pub validation : ValidationResult
    pub reflection : PreReflectionResult
    pub plan_known : static.repair_plan ≡ some plan
    pub diff_known : static.sql_diff_summary ≡ some diff
    pub validation_known : static.validation_result ≡ some validation
    pub reflected : pre_reflect reply plan validation diff ≡ some reflection
    pub returns : reflection.decision ≡ PreReflectionDecision.return_sql

  judge_reflection-returns :
      (r : PreReflectionResult)
      → stops (judge_reflection env request (some r)).decision ≡ false
      → r.decision ≡ PreReflectionDecision.return_sql
  unfolding judge_reflection
  judge_reflection-returns r h = ground arith

  judge_reflection-failed : stops (judge_reflection env request none).decision ≡ true
  unfolding judge_reflection
  judge_reflection-failed = refl

  pub semantic_gate_sound :
      (static : StaticGateOutcome)
      → stops (semantic_gate env request reply static).decision ≡ false
      → SemanticallySound static
  unfolding semantic_gate
  semantic_gate_sound static h =
      on static.repair_plan static.sql_diff_summary static.validation_result refl refl refl h
    where
      on :
          (p : Option RepairPlan) (d : Option SqlDiffSummary) (v : Option ValidationResult)
          → static.repair_plan ≡ p
          → static.sql_diff_summary ≡ d
          → static.validation_result ≡ v
          → stops (reflect_on env request reply p d v).decision ≡ false
          → SemanticallySound static
      on (some p) (some d) (some v) ep ed ev q = elim (Option-cases (pre_reflect reply p v d)) [
        | inl e ↦ cc (judge_reflection-failed, (rw e at q))
        | inr (r, e) ↦ record {
          plan = p;
          diff = d;
          validation = v;
          reflection = r;
          plan_known = ep;
          diff_known = ed;
          validation_known = ev;
          reflected = e;
          returns = judge_reflection-returns r (rw e at q);
        }
      ]
      on (some p) (some d) none ep ed ev q = cc
      on (some p) none v ep ed ev q = cc
      on none d v ep ed ev q = cc
