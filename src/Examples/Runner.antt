-- ===== src/Examples/Runner.antt =====
-- A run of AgentRunner with the deterministic agent, an executor that writes what the tools would,
-- and the gates.
use sql_self_healing_agent.Prelude.{
  String, ◌≡◌, refl, subst, ◌↔◌, ◌⊎◌, true, false, Option, none, some, List, truthy, ◌==◌, [], ◌∷◌,
  text_or, arith, is_blank,
}
use sql_self_healing_agent.Repair.Models.{ActionRisk}
use sql_self_healing_agent.Gates.Runner.{GateRun, run as gate_run}
use sql_self_healing_agent.Gates.Runner.AsPart.{run-Respects}
use sql_self_healing_agent.Agent.Models.{
  ActionType, AgentAction, action_valid, WorkspaceStatus, WorkspaceValue, AgentContext,
  AgentRunState, AgentRunResult, CandidateStatus, RunResultStatus, default_limits,
  build_initial_execution_plan,
}
use sql_self_healing_agent.Agent.Runner.{
  Parts, Proposal, Run, returned, part_raised, observed, judged, proposed, malformed, run,
  is_running, stop_reason, run_result, workspace_get,
}
use sql_self_healing_agent.Agent.Runner.Spec.{Respects, Laws, Inv, FromGate}
use sql_self_healing_agent.Agent.Runner.Loop.{run-ends, run-within_limits, run-ready-FromGate}
use sql_self_healing_agent.Agent.MainAgent.{
  full, prepared, next_action, choose_action, construct, workspace_summaries, wants_sub_agent,
  candidate_text,
}
use sql_self_healing_agent.Agent.MainAgent.Choices.{
  IsReadyToPropose, IsTold, next_action-propose_iff, next_action-prepared,
}
use sql_self_healing_agent.Agent.Runner.{
  turn, check_limits, on_proposal, act, observe_action, count_action, propose, backed,
}
use sql_self_healing_agent.Agent.MainAgent.{has_evidence, summaries_get, diagnosis_text}
use sql_self_healing_agent.Agent.Planning.{occurs, by_id}
use sql_self_healing_agent.Agent.Updater.{
  apply_observation, on_step, made_progress, advance, observe, update_step, next_step,
  dependencies_done, same_signature,
}
use sql_self_healing_agent.Prelude.{from_keys}
use sql_self_healing_agent.Gates.Runner.{run_request, run_semantic, delivers}
use sql_self_healing_agent.Gates.Static.{static_gate}
use sql_self_healing_agent.Repair.Validator.{validate}
use sql_self_healing_agent.Repair.Words.{search_in}
use sql_self_healing_agent.Repair.Diff.{build_diff, candidate_matches_plan}
use sql_self_healing_agent.Repair.Apply.{apply_repair_plan}
use sql_self_healing_agent.Gates.Semantic.{semantic_gate}
use sql_self_healing_agent.Gates.Aggregate.{combine}
use sql_self_healing_agent.Gates.Output.{output_gate}
use sql_self_healing_agent.Examples.Data.{
  fixed_sql, env, gates, request_for, fresh_runner, fresh_state, context, log_read,
}
use sql_self_healing_agent.Examples.Agent.{initial-IsWellFormed}

abbrev stored : String → WorkspaceValue
stored summary = record {
  status = WorkspaceStatus.available;
  summary = some summary;
  artifact_ref = some "artifact://s1/x";
  updated_at = "2026-01-01";
}

abbrev full_workspace : List (String × WorkspaceValue)
full_workspace =
    ("log_digest", stored "log")
    ∷ ("diagnosis", stored "COLUMN_NOT_FOUND")
    ∷ ("metadata_snapshot", stored "t")
    ∷ ("memory_retrieval", stored "m")
    ∷ ("repair_plan", stored "p")
    ∷ ("candidate_sql", stored fixed_sql)
    ∷ []

abbrev start : AgentContext
start = record context {
  workspace = full_workspace;
  candidate = record (context.candidate) {
    draft_sql = none;
    draft_artifact_ref = some "artifact://s1/x";
    status = CandidateStatus.nothing;
  };
}

-- What the runner is told of an action that is made, or of its ValidationError
abbrev proposal : Option AgentAction → Unit {0} → AgentContext → AgentRunState → Proposal (Unit {0})
proposal none w c s = malformed w c s
proposal (some a) w c s = proposed w c s a

abbrev parts : Parts Unit
parts = record {
  env = env;
  limits = default_limits;
  elapsed_ms = λ w. 1;
  next_action =
      λ w c s. proposal (next_action (prepared (workspace_summaries c.workspace)) s) w c s;
  execute = λ w a c s. observed w c s log_read;
  gate = λ w c s.
      let r =
        gate_run gates none fresh_runner c s
          (some (request_for ActionRisk.low (text_or c.candidate.draft_sql ""))) in
      judged w r.context r.run_state r.outcome;
}

itself : (c : AgentContext) (s : AgentRunState) → Respects c c s s
itself c s = record {
  counts = record {
    steps = refl;
    tool_calls = refl;
    sub_agent_calls = refl;
    revisions = refl;
    running = refl;
  };
  plan = refl;
}

moved : (c c' : AgentContext) (s s' : AgentRunState) → c ≡ c' → s ≡ s' → Respects c c' s s'
moved c c' s s' e f =
    subst (λ x. Respects c x s s') e (subst (λ y. Respects c c s y) f (itself c s))

proposal-proposed :
    (o : Option AgentAction) (w : Unit {0}) (c : AgentContext) (s : AgentRunState) (w' : Unit {0})
    (c' : AgentContext) (s' : AgentRunState) (a : AgentAction)
    → proposal o w c s ≡ proposed w' c' s' a
    → (c ≡ c') × (s ≡ s')
proposal-proposed none w c s w' c' s' a e = cc
proposal-proposed (some b) w c s w' c' s' a e = (cc, cc)

proposal-malformed :
    (o : Option AgentAction) (w : Unit {0}) (c : AgentContext) (s : AgentRunState) (w' : Unit {0})
    (c' : AgentContext) (s' : AgentRunState)
    → proposal o w c s ≡ malformed w' c' s'
    → (c ≡ c') × (s ≡ s')
proposal-malformed none w c s w' c' s' e = (cc, cc)
proposal-malformed (some b) w c s w' c' s' e = cc

judging : Unit {0} → AgentContext → AgentRunState → GateRun
judging w c s =
    gate_run gates none fresh_runner c s
      (some (request_for ActionRisk.low (text_or c.candidate.draft_sql "")))

abbrev offered : AgentContext → AgentRunState → Option AgentAction
offered c s = next_action (prepared (workspace_summaries c.workspace)) s

parts-Laws : Laws parts
unfolding judging
parts-Laws = record {
  proposes = λ w c s w' c' s' a e.
      let same = proposal-proposed (offered c s) w c s w' c' s' a e in
      moved c c' s s' same.0 same.1;
  fails = λ w c s w' c' s' e.
      let same = proposal-malformed (offered c s) w c s w' c' s' e in moved c c' s s' same.0 same.1;
  observes = λ w a c s w' c' s' o e. moved c c' s s' (cc e) (cc e);
  breaks = λ w a c s w' c' s' e. cc e;
  judges = λ w c s w' c' s' r e.
      let verdict = judging w c s in
      let same_context : verdict.context ≡ c' = cc e in
      let same_state : verdict.run_state ≡ s' = cc e in
      subst
        (λ x. Respects c x (record s { status = s'.status }) s' × (is_running s'.status ≡ false))
        same_context
        (subst
          (λ y.
            Respects c verdict.context (record s { status = y.status }) y
            × (is_running y.status ≡ false))
          same_state
          (run-Respects gates none fresh_runner c s
            (some (request_for ActionRisk.low (text_or c.candidate.draft_sql "")))));
}

start-Inv : Inv default_limits start fresh_state
start-Inv = record {
  plan = initial-IsWellFormed;
  steps = omega arith;
  tool_calls = omega arith;
  sub_agent_calls = omega arith;
  revisions = omega arith;
}

abbrev final : Run (Unit {0})
final = run parts 13 tt start fresh_state

abbrev final_context : AgentContext
final_context = elim final [ returned w c s r ↦ c | _ ↦ start ]

abbrev final_state : AgentRunState
final_state = elim final [ returned w c s r ↦ s | _ ↦ fresh_state ]

abbrev final_result : AgentRunResult
final_result = elim final [
  | returned w c s r ↦ r
  | _ ↦ run_result RunResultStatus.failed start fresh_state none
]

run_returns : run parts 13 tt start fresh_state ≡ returned tt final_context final_state final_result
unfolding run turn check_limits stop_reason on_proposal action_valid next_action construct
    choose_action has_evidence summaries_get workspace_summaries wants_sub_agent occurs
    diagnosis_text candidate_text is_blank act observe_action apply_observation on_step
    made_progress count_action propose workspace_get backed run_result build_initial_execution_plan
    advance observe update_step by_id next_step dependencies_done from_keys same_signature gate_run
    run_request static_gate validate search_in build_diff apply_repair_plan candidate_matches_plan
    run_semantic semantic_gate combine output_gate delivers
run_returns = refl

run_is_ready : final_result.status ≡ RunResultStatus.candidate_ready
unfolding run turn check_limits stop_reason on_proposal action_valid next_action construct
    choose_action has_evidence summaries_get workspace_summaries wants_sub_agent occurs
    diagnosis_text candidate_text is_blank act observe_action apply_observation on_step
    made_progress count_action propose workspace_get backed run_result build_initial_execution_plan
    advance observe update_step by_id next_step dependencies_done from_keys same_signature gate_run
    run_request static_gate validate search_in build_diff apply_repair_plan candidate_matches_plan
    run_semantic semantic_gate combine output_gate delivers
run_is_ready = refl

run-ends_example :
    ((w' : Unit {0}) × (c' : AgentContext) × (s' : AgentRunState) × (r : AgentRunResult) × (run
          parts 13 tt start fresh_state
        ≡ returned w' c' s' r))
    ⊎ (run parts 13 tt start fresh_state ≡ part_raised)
run-ends_example = run-ends parts parts-Laws tt start fresh_state start-Inv refl

run-within_limits_example :
    Inv default_limits final_context final_state × (is_running final_state.status ≡ false)
run-within_limits_example =
    run-within_limits parts parts-Laws tt start fresh_state start-Inv refl tt final_context
      final_state final_result run_returns

run-ready-FromGate_example : FromGate parts tt final_context final_state final_result
run-ready-FromGate_example =
    run-ready-FromGate parts parts-Laws tt start fresh_state start-Inv refl tt final_context
      final_state final_result run_returns run_is_ready

next_action-propose_example :
    (((a : AgentAction) × (next_action (full start) fresh_state ≡ some a)
        × (a.type ≡ ActionType.propose_sql_candidate))
      ↔ (IsReadyToPropose (full start) fresh_state
          × ((s : String) × (candidate_text (full start) ≡ some s)
              × ((s == "None") ≡ false)
              × (is_blank s ≡ false))))
    × ((a : AgentAction)
        → next_action (full start) fresh_state ≡ some a
        → a.type ≡ ActionType.propose_sql_candidate
        → a.candidate_sql ≡ candidate_text (full start))
    × ((next_action (full start) fresh_state ≡ none) ↔ (
        IsReadyToPropose (full start) fresh_state
        × ((s : String) × (candidate_text (full start) ≡ some s)
            × ((s == "None") ≡ false)
            × (truthy s ≡ true)
            × (is_blank s ≡ true))))
next_action-propose_example = next_action-propose_iff (full start) fresh_state

start-IsTold : IsTold start
unfolding workspace_get
start-IsTold = record {
  diagnosis = λ v e. ground arith;
  candidate = λ v e. (λ n. ground arith, λ s n. (let same : s ≡ fixed_sql = cc in rw same refl));
}

next_action-prepared_example :
    next_action (prepared (workspace_summaries start.workspace)) fresh_state
    ≡ next_action (full start) fresh_state
next_action-prepared_example = next_action-prepared start fresh_state start-IsTold

run-Respects_example :
    let r = gate_run gates none fresh_runner start fresh_state none in
    Respects start r.context (record fresh_state { status = r.run_state.status }) r.run_state
    × (is_running r.run_state.status ≡ false)
run-Respects_example = run-Respects gates none fresh_runner start fresh_state none
