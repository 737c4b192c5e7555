-- ===== src/Gates/Runner/Safety.antt =====
-- What a candidate has passed when GateRunner (agent/gates/gate_runner.py) lets it through.
use sql_self_healing_agent.Prelude.{
  ◌≤◌, ◌≡◌, refl, ap, ◌∙◌, Bool, false, ◌||◌, Option, some, List, [], ◌∷◌, is_blank, arith,
  if◌then◌else◌,
}
use sql_self_healing_agent.Repair.Models.{RepairPlan, PreReflectionResult}
use sql_self_healing_agent.Repair.Diff.{build_diff}
use sql_self_healing_agent.Repair.Validator.Soundness.{
  RespectsRedLines, AcceptableRisk, validate-allowed,
}
use sql_self_healing_agent.Repair.Evaluator.{Reply}
use sql_self_healing_agent.Gates.Models.{GateRequest, GateResult, StaticGateOutcome, stops}
use sql_self_healing_agent.Gates.Static.{generation_of, build_plan, static_gate}
use sql_self_healing_agent.Gates.Semantic.{semantic_gate}
use sql_self_healing_agent.Gates.Output.{output_gate}
use sql_self_healing_agent.Gates.Aggregate.{risk_order, combine}
use sql_self_healing_agent.Gates.Runner.{GateSet, run_semantic, run_request}
use sql_self_healing_agent.Gates.Runner.Verdicts.{
  static_gate_sound, static_gate-hash, SemanticallySound, semantic_gate_sound,
}

module _ {Tree : Type 0} (gates : GateSet Tree) (reply : Option (Reply PreReflectionResult))
    (request : GateRequest) where
  open gates use {engine, env, planner, medium_validator}

  -- What is known of a request whose verdict does not stop it.
  pub record HasPassed (r : GateResult) : Type 0 where
    pub plan : RepairPlan
    pub built : build_plan planner request.existing_plan request ≡ some plan
    pub not_blank : is_blank request.candidate_sql ≡ false
    pub red_lines :
        RespectsRedLines engine request.original_sql request.candidate_sql plan
          (build_diff engine request.original_sql (generation_of request.candidate_sql) plan)
    pub risk_accepted : AcceptableRisk (request.allow_medium_risk || medium_validator) plan
    pub reflection :
        SemanticallySound env request reply
          (static_gate engine env planner medium_validator request)
    pub hash_of_candidate : r.candidate_hash ≡ env.sha256 request.candidate_sql
    pub risk_bounded : risk_order r.risk_level ≤ (if request.allow_medium_risk then 1 else 0)

  static : StaticGateOutcome
  static = static_gate engine env planner medium_validator request

  semantic : GateResult
  semantic = semantic_gate env request reply static

  output : GateResult
  output = output_gate env request (static.result ∷ semantic ∷ [])

  -- A verdict that does not stop the candidate is the aggregate of three that do not.
  passes_all :
      stops (run_request gates reply request).1.decision ≡ false
      → (stops static.result.decision ≡ false)
        × (stops semantic.decision ≡ false)
        × ((run_request gates reply request).1
            ≡ combine env request.allow_medium_risk static.result (semantic ∷ output ∷ []))
  unfolding run_request run_semantic static semantic output
  passes_all h = ground arith

  combine-hash :
      (a : Bool) (first : GateResult) (others : List GateResult)
      → (combine env a first others).candidate_hash ≡ first.candidate_hash
  unfolding combine
  combine-hash a first others = refl

  combine-risk :
      (first : GateResult) (others : List GateResult)
      → stops (combine env request.allow_medium_risk first others).decision ≡ false
      → risk_order (combine env request.allow_medium_risk first others).risk_level
        ≤ (if request.allow_medium_risk then 1 else 0)
  unfolding combine
  combine-risk first others h = ground arith

  -- If the verdict on a request does not stop the candidate, the candidate is not blank; there is
  -- a plan against which it crosses none of the validator's red lines and whose risk is accepted;
  -- the reflection on that plan decided RETURN_SQL; the verdict carries the hash of this very
  -- candidate; and its risk is LOW, or MEDIUM if the request allows it.
  pub run_request-HasPassed :
      stops (run_request gates reply request).1.decision ≡ false
      → HasPassed (run_request gates reply request).1
  run_request-HasPassed h =
      let (hs, hm, e) = passes_all h in
      let found =
        static_gate_sound engine env planner medium_validator request (unfold static in hs) in
      let lines =
        (validate-allowed engine request.original_sql request.candidate_sql found.plan
            (build_diff engine request.original_sql (generation_of request.candidate_sql)
              found.plan)
            (request.allow_medium_risk || medium_validator)).0
          found.allowed in
      record {
        plan = found.plan;
        built = found.built;
        not_blank = found.not_blank;
        red_lines = lines.0;
        risk_accepted = lines.1;
        reflection =
            semantic_gate_sound env request reply
              (static_gate engine env planner medium_validator request)
              (unfold static semantic in hm);
        hash_of_candidate =
            ap (λ (r : GateResult). r.candidate_hash) e
            ∙ combine-hash request.allow_medium_risk static.result (semantic ∷ output ∷ [])
            ∙ (unfold static in static_gate-hash engine env planner medium_validator request);
        risk_bounded = rw e (combine-risk static.result (semantic ∷ output ∷ []) (rw e at h));
      }
