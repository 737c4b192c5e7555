-- ===== src/Agent/Runner/Actions.antt =====
-- Executing an action and applying its observation keep the invariant of AgentRunner.run.
use sql_self_healing_agent.Prelude.{ℕ, ◌+◌, ◌<◌, ◌≡◌, refl, true, some, arith}
use sql_self_healing_agent.Agent.Models.{
  ActionType, AgentAction, ExecutionPlan, Observation, AgentContext, AgentRunState, RunStatus,
  RunResultStatus,
}
use sql_self_healing_agent.Agent.Updater.{apply_observation}
use sql_self_healing_agent.Agent.Updater.Observations.{apply_observation-Observed}
use sql_self_healing_agent.Agent.Runner.{
  Parts, Execution, observed, broken, is_running, workspace_get, count_action, apply,
  observe_action,
}
use sql_self_healing_agent.Agent.Runner.Spec.{Respects, Laws, Inv, IsSound}
use sql_self_healing_agent.Agent.Runner.Turns.{Inv-Respects, finish-IsSettled, propose-IsSound}

module _ {W : Type 0} (parts : Parts W) (laws : Laws parts) where
  open parts use {limits}

  -- The state of a round that may still count one more call or revision.
  pub record InRound (n : ℕ) (c : AgentContext) (s : AgentRunState) : Type 0 where
    pub inv : Inv limits c s
    pub tool_calls : s.tool_call_count < limits.max_tool_calls
    pub sub_agent_calls : s.sub_agent_call_count < limits.max_sub_agent_calls
    pub running : is_running s.status ≡ true
    pub counted : s.step_count ≡ n + 1

  count_action-IsSound :
      (n : ℕ) (t : ActionType) (w : W) (c : AgentContext) (s : AgentRunState) (a : AgentAction)
      → InRound n c s
      → IsSound parts n (count_action parts t w c s a)
  unfolding count_action
  count_action-IsSound n ActionType.tool_call w c s a r =
      let i = r.inv in
      (
        record {
          plan = i.plan;
          steps = i.steps;
          tool_calls = omega (arith, r.tool_calls);
          sub_agent_calls = i.sub_agent_calls;
          revisions = i.revisions;
        },
        r.running,
        r.counted,
      )
  count_action-IsSound n ActionType.run_sub_agent w c s a r =
      let i = r.inv in
      (
        record {
          plan = i.plan;
          steps = i.steps;
          tool_calls = i.tool_calls;
          sub_agent_calls = omega (arith, r.sub_agent_calls);
          revisions = i.revisions;
        },
        r.running,
        r.counted,
      )
  count_action-IsSound n ActionType.propose_sql_candidate w c s a r =
      propose-IsSound parts laws n w c s a (workspace_get "candidate_sql" c.workspace) r.inv refl
  count_action-IsSound n ActionType.update_plan w c s a r = (r.inv, r.running, r.counted)
  count_action-IsSound n ActionType.return_no_sql w c s a r = (r.inv, r.running, r.counted)
  count_action-IsSound n ActionType.return_human_required w c s a r = (r.inv, r.running, r.counted)

  -- An observation is applied to the plan without an error.
  apply-IsSound :
      (n : ℕ) (w : W) (c : AgentContext) (s : AgentRunState) (a : AgentAction) (o : Observation)
      (plan : ExecutionPlan)
      → InRound n c s
      → plan ≡ c.execution_plan
      → IsSound parts n (apply parts w c s a (apply_observation plan o))
  apply-IsSound n w c s a o plan r e =
      let i = r.inv in
      let (plan', run, done) = apply_observation-Observed o c.execution_plan i.plan in
      rw (e, run)
        (count_action-IsSound n a.type w (record c { execution_plan = plan' }) s a
          (record {
            inv = record {
              plan = done.well_formed;
              steps = i.steps;
              tool_calls = i.tool_calls;
              sub_agent_calls = i.sub_agent_calls;
              revisions = i.revisions;
            };
            tool_calls = r.tool_calls;
            sub_agent_calls = r.sub_agent_calls;
            running = r.running;
            counted = r.counted;
          }))

  InRound-Respects :
      (n : ℕ) (c c' : AgentContext) (s s' : AgentRunState)
      → Respects c c' s s'
      → InRound n c s
      → InRound n c' s'
  InRound-Respects n c c' s s' r i = record {
    inv = Inv-Respects limits c c' s s' r i.inv;
    tool_calls = omega (arith, r.counts.tool_calls, i.tool_calls);
    sub_agent_calls = omega (arith, r.counts.sub_agent_calls, i.sub_agent_calls);
    running = ground (arith, r.counts.running, i.running);
    counted = omega (arith, r.counts.steps, i.counted);
  }

  pub observe_action-IsSound :
      (n : ℕ) (w : W) (c : AgentContext) (s : AgentRunState) (a : AgentAction) (x : Execution W)
      → InRound n c s
      → parts.execute w a c s ≡ x
      → IsSound parts n (observe_action parts a x)
  unfolding observe_action
  observe_action-IsSound n w c s a (broken w' c' s') r e =
      finish-IsSettled parts laws n RunStatus.failed RunResultStatus.failed
        (some "AGENT_RUNTIME_ERROR") (some "AGENT_RUNTIME_ERROR") w' c' s'
        (Inv-Respects limits c c' s s' (laws.breaks w a c s w' c' s' e) r.inv) refl refl
  observe_action-IsSound n w c s a (observed w' c' s' o) r e =
      let q = InRound-Respects n c c' s s' (laws.observes w a c s w' c' s' o e) r in
      let i = q.inv in
      apply-IsSound n w' _ _ a _ c'.execution_plan
        (record {
          inv = record {
            plan = i.plan;
            steps = i.steps;
            tool_calls = i.tool_calls;
            sub_agent_calls = i.sub_agent_calls;
            revisions = i.revisions;
          };
          tool_calls = q.tool_calls;
          sub_agent_calls = q.sub_agent_calls;
          running = q.running;
          counted = q.counted;
        })
        refl
