-- ===== src/Agent/Runner/Rounds.antt =====
-- A whole round of AgentRunner.run keeps the invariant, whatever its parts do.
use sql_self_healing_agent.Prelude.{
  ℕ, ◌+◌, ◌<◌, String, ◌≡◌, refl, ap, true, Option, none, some, arith, Bool-cases, Option-cases,
  inl, inr,
}
use sql_self_healing_agent.Agent.Models.{
  ActionType, AgentAction, action_valid, ExecutionPlan, AgentContext, AgentRunState, RunStatus,
  RunResultStatus,
}
use sql_self_healing_agent.Agent.Updater.{Replacement, value_error, invalid, replaced, replace}
use sql_self_healing_agent.Agent.Updater.Revisions.{replace_sound}
use sql_self_healing_agent.Agent.Runner.{
  Parts, Proposal, proposed, malformed, raised, is_running, invalid_action, update_plan, act,
  on_proposal, check_limits, stop_reason, turn,
}
use sql_self_healing_agent.Agent.Runner.Spec.{Laws, Inv, IsSound}
use sql_self_healing_agent.Agent.Runner.Turns.{Inv-Respects, finish-IsSettled}
use sql_self_healing_agent.Agent.Runner.Actions.{InRound, observe_action-IsSound}

module _ {W : Type 0} (parts : Parts W) (laws : Laws parts) where
  open parts use {limits}

  -- Below the limit of revisions `replace` raises no plain ValueError, and counts nothing else.
  replace-counts :
      (current plan : ExecutionPlan) (s : AgentRunState) (plan' : ExecutionPlan)
      (s' : AgentRunState)
      → replace current plan s limits ≡ replaced plan' s'
      → (s'.step_count ≡ s.step_count)
        × (s'.tool_call_count ≡ s.tool_call_count)
        × (s'.sub_agent_call_count ≡ s.sub_agent_call_count)
        × (s'.status ≡ s.status)
  unfolding replace
  replace-counts current plan s plan' s' e =
      (ground arith, ground arith, ground arith, ground arith)

  replace-no_value_error :
      (current plan : ExecutionPlan) (s : AgentRunState)
      → s.plan_revision_count < limits.max_plan_revisions
      → replace current plan s limits ≡ value_error
      → ⊥
  unfolding replace
  replace-no_value_error current plan s room e = ground arith

  update_plan-IsSound :
      (n : ℕ) (w : W) (c : AgentContext) (s : AgentRunState) (plan : ExecutionPlan)
      (x : Replacement)
      → InRound parts laws n c s
      → s.plan_revision_count < limits.max_plan_revisions
      → replace c.execution_plan plan s limits ≡ x
      → IsSound parts n (update_plan parts w c s x)
  unfolding update_plan
  update_plan-IsSound n w c s plan value_error r room e =
      absurd (replace-no_value_error c.execution_plan plan s room e)
  update_plan-IsSound n w c s plan (invalid message) r room e =
      let i = r.inv in
      (
        record {
          plan = i.plan;
          steps = i.steps;
          tool_calls = i.tool_calls;
          sub_agent_calls = i.sub_agent_calls;
          revisions = i.revisions;
        },
        r.running,
        r.counted,
      )
  update_plan-IsSound n w c s plan (replaced plan' s') r room e =
      let i = r.inv in
      let (steps, tools, subs, status) = replace-counts c.execution_plan plan s plan' s' e in
      let (well, _, _, within) = replace_sound c.execution_plan plan s limits plan' s' e in
      (
        record {
          plan = well;
          steps = omega (arith, steps, i.steps);
          tool_calls = omega (arith, tools, i.tool_calls);
          sub_agent_calls = omega (arith, subs, i.sub_agent_calls);
          revisions = within;
        },
        ground (arith, ap is_running status, r.running),
        omega (arith, steps, r.counted),
      )

  update-has_plan :
      (a : AgentAction)
      → action_valid a ≡ true
      → a.type ≡ ActionType.update_plan
      → a.execution_plan ≡ none
      → ⊥
  unfolding action_valid
  update-has_plan a valid e p = ground (arith, valid, e, p)

  act-IsSound :
      (n : ℕ) (w : W) (c : AgentContext) (s : AgentRunState) (a : AgentAction) (t : ActionType)
      → action_valid a ≡ true
      → a.type ≡ t
      → InRound parts laws n c s
      → s.plan_revision_count < limits.max_plan_revisions
      → IsSound parts n (act parts t w c s a)
  unfolding act
  act-IsSound n w c s a ActionType.return_no_sql valid e r room =
      finish-IsSettled parts laws n RunStatus.no_sql RunResultStatus.no_sql s.stop_reason a.reason w
        c s r.inv refl refl
  act-IsSound n w c s a ActionType.return_human_required valid e r room =
      finish-IsSettled parts laws n RunStatus.human_required RunResultStatus.human_required
        s.stop_reason a.reason w c s r.inv refl refl
  act-IsSound n w c s a ActionType.update_plan valid e r room =
      elim (Option-cases a.execution_plan) [
        | inr (plan, p) ↦
            rw p (
              update_plan-IsSound n w c s plan (replace c.execution_plan plan s limits) r room refl)
        | inl p ↦ absurd (update-has_plan a valid e p)
      ]
  act-IsSound n w c s a ActionType.tool_call valid e r room =
      observe_action-IsSound parts laws n w c s a (parts.execute w a c s) r refl
  act-IsSound n w c s a ActionType.run_sub_agent valid e r room =
      observe_action-IsSound parts laws n w c s a (parts.execute w a c s) r refl
  act-IsSound n w c s a ActionType.propose_sql_candidate valid e r room =
      observe_action-IsSound parts laws n w c s a (parts.execute w a c s) r refl

  invalid-IsSound :
      (n : ℕ) (w : W) (c : AgentContext) (s : AgentRunState)
      → Inv limits c s
      → IsSound parts n (invalid_action parts w c s)
  unfolding invalid_action
  invalid-IsSound n w c s i =
      finish-IsSettled parts laws n RunStatus.human_required RunResultStatus.human_required
        (some "INVALID_AGENT_ACTION") (some "INVALID_AGENT_ACTION") w c s i refl refl

  -- A state without a reason to stop is below every limit.
  below :
      (s : AgentRunState)
      → stop_reason limits s ≡ none
      → (s.step_count < limits.max_steps)
        × (s.tool_call_count < limits.max_tool_calls)
        × (s.sub_agent_call_count < limits.max_sub_agent_calls)
        × (s.plan_revision_count < limits.max_plan_revisions)
  unfolding stop_reason
  below s e = (ground arith, ground arith, ground arith, ground arith)

  on_proposal-IsSound :
      (w : W) (c : AgentContext) (s : AgentRunState) (x : Proposal W)
      → Inv limits c s
      → is_running s.status ≡ true
      → stop_reason limits s ≡ none
      → parts.next_action w c s ≡ x
      → IsSound parts s.step_count (on_proposal parts x)
  unfolding on_proposal
  on_proposal-IsSound w c s raised i on free e = tt
  on_proposal-IsSound w c s (malformed w' c' s') i on free e =
      invalid-IsSound s.step_count w' c' s'
        (Inv-Respects limits c c' s s' (laws.fails w c s w' c' s' e) i)
  on_proposal-IsSound w c s (proposed w' c' s' a) i on free e =
      let respects = laws.proposes w c s w' c' s' a e in
      let k = respects.counts in
      let j = Inv-Respects limits c c' s s' respects i in
      let (steps, tools, subs, revs) = below s free in
      elim (Bool-cases (action_valid a)) [
        | inr off ↦ rw off (invalid-IsSound s.step_count w' c' s' j)
        | inl valid ↦ rw valid (
            act-IsSound s.step_count w' (record c' { last_action = some a })
              (record s' { step_count = s'.step_count + 1 }) a a.type valid refl
              (record {
                inv = record {
                  plan = j.plan;
                  steps = omega (arith, k.steps, steps);
                  tool_calls = j.tool_calls;
                  sub_agent_calls = j.sub_agent_calls;
                  revisions = j.revisions;
                };
                tool_calls = omega (arith, k.tool_calls, tools);
                sub_agent_calls = omega (arith, k.sub_agent_calls, subs);
                running = ground (arith, k.running, on);
                counted = omega (arith, k.steps);
              })
              (omega (arith, k.revisions, revs)))
      ]

  -- A round that starts with the invariant keeps it.
  pub turn-IsSound :
      (w : W) (c : AgentContext) (s : AgentRunState)
      → Inv limits c s
      → is_running s.status ≡ true
      → IsSound parts s.step_count (turn parts w c s)
  unfolding turn check_limits on_proposal
  turn-IsSound w c s i on = check (stop_reason limits timed) refl
    where
      timed : AgentRunState
      timed = record s { wall_time_ms = parts.elapsed_ms w }

      j : Inv limits c timed
      j = record {
        plan = i.plan;
        steps = i.steps;
        tool_calls = i.tool_calls;
        sub_agent_calls = i.sub_agent_calls;
        revisions = i.revisions;
      }

      check :
          (x : Option String)
          → stop_reason limits timed ≡ x
          → IsSound parts s.step_count (check_limits parts w c timed x)
      check none e = on_proposal-IsSound w c timed (parts.next_action w c timed) j on e refl
      check (some reason) e =
          finish-IsSettled parts laws s.step_count RunStatus.human_required
            RunResultStatus.human_required (some reason) (some reason) w c timed j refl refl
