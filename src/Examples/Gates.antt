-- ===== src/Examples/Gates.antt =====
-- The theorems on the gates at a request whose candidate passes, and at one that is refused.
use sql_self_healing_agent.Prelude.{
  ◌≡◌, refl, ◌↔◌, ◌⊎◌, true, false, none, some, List, [], ◌∷◌, map, All, is_blank,
}
use sql_self_healing_agent.Core.{RiskLevel}
use sql_self_healing_agent.Repair.Models.{ActionRisk}
use sql_self_healing_agent.Gates.Models.{GateRequest, GateResult, Decision, refusal, result, stops}
use sql_self_healing_agent.Gates.Aggregate.{aggregate_results, combine}
use sql_self_healing_agent.Gates.Aggregate.Bounds.{IsCovered, aggregate_results_sound}
use sql_self_healing_agent.Gates.Runner.{run_request, run_semantic}
use sql_self_healing_agent.Gates.Runner.Safety.{HasPassed, run_request-HasPassed}
use sql_self_healing_agent.Gates.Runner.{run_repair, run, candidate_feedback}
use sql_self_healing_agent.Gates.Runner.Flow.{IsDelivered, run-ready_iff}
use sql_self_healing_agent.Gates.Runner.Repairs.{
  RepairCall, NoRound, OneRound, run_repairs, run_repairs-once,
}
use sql_self_healing_agent.Agent.Models.{CandidateStatus, RunStatus, RunResultStatus}
use sql_self_healing_agent.Examples.Data.{
  fixed_sql, env, gates, request_for, fresh_runner, fresh_state, context,
}
use sql_self_healing_agent.Gates.Static.{static_gate}
use sql_self_healing_agent.Repair.Validator.{validate}
use sql_self_healing_agent.Repair.Words.{search_in}
use sql_self_healing_agent.Repair.Diff.{build_diff, candidate_matches_plan}
use sql_self_healing_agent.Repair.Apply.{apply_repair_plan}
use sql_self_healing_agent.Gates.Semantic.{semantic_gate}
use sql_self_healing_agent.Gates.Output.{output_gate}

abbrev request : GateRequest
request = request_for ActionRisk.low fixed_sql

request_passes : stops (run_request gates none request).1.decision ≡ false
unfolding run_request static_gate is_blank validate search_in build_diff apply_repair_plan
    candidate_matches_plan run_semantic semantic_gate combine output_gate
request_passes = refl

run_request-HasPassed_example : HasPassed gates none request (run_request gates none request).1
run_request-HasPassed_example = run_request-HasPassed gates none request request_passes

abbrev verdict : GateResult
verdict =
    result env "StaticValidationGate" fixed_sql Decision.pass RiskLevel.low (refusal "c" "m" "i")

abbrev warned : GateResult
warned = record verdict { decision = Decision.pass_with_warning }

abbrev aggregate : GateResult
aggregate = combine env false verdict (warned ∷ [])

aggregated : aggregate_results env false (verdict ∷ warned ∷ []) ≡ some aggregate
unfolding aggregate_results
aggregated = refl

aggregate_results_sound_example : All (IsCovered false aggregate) (verdict ∷ warned ∷ [])
aggregate_results_sound_example =
    aggregate_results_sound env false (verdict ∷ warned ∷ []) aggregate aggregated

abbrev call : RepairCall
call = record { request = request; repaired_candidate_sql = fixed_sql; budget_available = true }

abbrev poor_call : RepairCall
poor_call = record call { budget_available = false }

abbrev calls : List RepairCall
calls = poor_call ∷ call ∷ call ∷ []

repairs_count :
    (run_repairs gates none fresh_runner fresh_state calls).run_state.gate_repair_rounds ≡ 1
unfolding run_repairs run_repair
repairs_count = refl

run_repairs_example :
    NoRound gates none fresh_runner fresh_state
      (run_repairs gates none fresh_runner fresh_state calls)
    ⊎ OneRound gates none fresh_state calls (run_repairs gates none fresh_runner fresh_state calls)
run_repairs_example = run_repairs-once gates none fresh_runner fresh_state calls

run-ready_example :
    let r = run gates none fresh_runner context fresh_state (some request) in
    let verdict = (run_request gates none request).1 in
    ((r.outcome.status ≡ RunResultStatus.candidate_ready) ↔ IsDelivered false verdict.decision)
    × (IsDelivered false verdict.decision
        → (r.outcome.candidate_sql ≡ some fixed_sql)
          × (r.context.candidate.formal_sql ≡ some fixed_sql)
          × (r.context.candidate.status ≡ CandidateStatus.ready)
          × (r.run_state.status ≡ RunStatus.succeeded))
    × (¬ (IsDelivered false verdict.decision)
        → (r.outcome.candidate_sql ≡ none)
          × (r.context.candidate.formal_sql ≡ none)
          × (r.context.candidate.status ≡ CandidateStatus.gate_rejected)
          × (verdict.decision ≡ Decision.human_required
              → (r.outcome.status ≡ RunResultStatus.human_required)
                × (r.run_state.status ≡ RunStatus.human_required))
          × (¬ (verdict.decision ≡ Decision.human_required)
              → (r.outcome.status ≡ RunResultStatus.no_sql)
                × (r.run_state.status ≡ RunStatus.no_sql)))
    × (r.context.candidate.gate_feedback ≡ map candidate_feedback verdict.feedback)
run-ready_example = run-ready_iff gates none fresh_runner context fresh_state request
