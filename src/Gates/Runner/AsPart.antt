-- ===== src/Gates/Runner/AsPart.antt =====
-- GateRunner.run keeps to the law that AgentRunner asks of its candidate gate.
use sql_self_healing_agent.Prelude.{◌≡◌, refl, false, Option, none, some, arith}
use sql_self_healing_agent.Repair.Models.{PreReflectionResult}
use sql_self_healing_agent.Repair.Evaluator.{Reply}
use sql_self_healing_agent.Gates.Models.{GateRequest}
use sql_self_healing_agent.Gates.Runner.{GateRunner, GateSet, run}
use sql_self_healing_agent.Agent.Models.{AgentContext, AgentRunState}
use sql_self_healing_agent.Agent.Runner.{is_running}
use sql_self_healing_agent.Agent.Runner.Spec.{Respects}

module _ {Tree : Type 0} (gates : GateSet Tree) (reply : Option (Reply PreReflectionResult)) where
  -- With or without a request, `run` leaves the plan and every counter as they are, and the status
  -- of the run state is settled.
  pub run-Respects :
      (runner : GateRunner) (c : AgentContext) (s : AgentRunState) (request : Option GateRequest)
      → let r = run gates reply runner c s request in
        Respects c r.context (record s { status = r.run_state.status }) r.run_state
        × (is_running r.run_state.status ≡ false)
  unfolding run
  run-Respects runner c s none = (
    record {
      counts = record {
        steps = refl;
        tool_calls = refl;
        sub_agent_calls = refl;
        revisions = refl;
        running = refl;
      };
      plan = refl;
    },
    refl,
  )
  run-Respects runner c s (some request) = (
    record {
      counts = record {
        steps = ground arith;
        tool_calls = ground arith;
        sub_agent_calls = ground arith;
        revisions = ground arith;
        running = ground arith;
      };
      plan = ground arith;
    },
    ground arith,
  )
