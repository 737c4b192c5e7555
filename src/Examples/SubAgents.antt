-- ===== src/Examples/SubAgents.antt =====
-- The theorems on sub-agents at a worker that keeps calling a tool.
use sql_self_healing_agent.Prelude.{
  ℕ, ◌+◌, ◌≤◌, String, ◌≡◌, refl, subst, ◌⊎◌, true, none, some, [], ◌∷◌, arith,
}
use sql_self_healing_agent.Agent.Models.{
  Payload, SubAgentRequest, SubAgentStatus, SubAgentResult, AgentContext, exceeded,
}
use sql_self_healing_agent.Agent.MainAgent.{default_sub_agent_limits}
use sql_self_healing_agent.Agent.SubAgents.{
  SubAgentActionType, SubAgentAction, acts, ToolOutcome, SubParts, finished, run, start_loop,
  outcome, call_tool, first_budget, loop_on, on_action, on_answer, refs_error, run_tool, subset,
  with_spec,
}
use sql_self_healing_agent.Agent.SubAgents.Bounds.{Metered, IsBounded}
use sql_self_healing_agent.Agent.SubAgents.Guards.{IsPermitted, run-IsPermitted, run-IsBounded}
use sql_self_healing_agent.Examples.Data.{context}
use sql_self_healing_agent.Agent.SubAgents.Specs.{find_spec}

abbrev read : SubAgentAction
read = record {
  type = SubAgentActionType.read_artifact;
  tool_name = some "ReadArtifactTool";
  tool_input = [];
  requested_context_refs = [];
  result = none;
}

-- The state counts the tool calls.
abbrev read_tool : ℕ → String → AgentContext → Payload → ℕ × ToolOutcome
read_tool w tool parent input =
    (w + 1, record { succeeded = true; error_code = none; observed = "text" })

abbrev reader : SubParts ℕ
reader = record {
  elapsed_ms = λ w. 0;
  worker = λ w request view b observations. (w, acts read);
  tools = some read_tool;
  context_manager = none;
}

abbrev request : SubAgentRequest
request = record {
  task_name = "diagnose_sql_error";
  objective = "explain";
  context_refs = [];
  allowed_tools = "ReadArtifactTool" ∷ [];
  expected_output_schema = "DiagnosisResult";
  limits = default_sub_agent_limits;
}

reader_metered : Metered reader request context (λ w. w)
reader_metered = record {
  worker_calls_none = λ w view b observations. refl;
  tool_calls_one = λ w execute tool input e allowed.
      let same : read_tool ≡ execute = cc e in
      subst (λ g. (g w tool context input).0 ≤ w + 1) same (omega arith);
}

run-IsPermitted_example :
    (IsPermitted request context
      × (run reader request context 0 ≡ start_loop reader request context 0 none))
    ⊎ ((r : SubAgentResult) × (run reader request context 0 ≡ finished 0 r)
        × (r.structured_output ≡ none))
run-IsPermitted_example = run-IsPermitted reader request context 0

run-IsBounded_example :
    IsBounded reader request context (λ w. w) reader_metered 0 (run reader request context 0)
run-IsBounded_example = run-IsBounded reader request context (λ w. w) reader_metered 0

-- With a limit of three tool calls the worker gets four.
reads_four_times :
    run reader request context 0
    ≡ finished 4 (
        outcome SubAgentStatus.budget_exceeded "SubAgent 独立预算耗尽" (some "SUB_AGENT_BUDGET_EXCEEDED"))
unfolding run with_spec find_spec subset refs_error start_loop loop_on exceeded first_budget
    on_answer on_action call_tool run_tool
reads_four_times = refl
