-- ===== src/Agent/Runner/Loop.antt =====
-- The whole run of AgentRunner (agent/runner/agent_runner.py): it ends within its limits, and hands
-- out a candidate only from the gate.
use sql_self_healing_agent.Prelude.{
  ℕ, zero, suc, ◌+◌, ◌≤◌, ◌<◌, ◌≡◌, refl, ◌⊎◌, inl, inr, ◌↔◌, true, false, none, arith, subst,
}
use sql_self_healing_agent.Agent.Models.{
  AgentContext, AgentRunState, AgentRunLimits, AgentRunResult, RunResultStatus,
}
use sql_self_healing_agent.Agent.Runner.{
  Parts, Run, returned, part_raised, own_error, exhausted, Turn, again, ends, is_running, go_on,
  turn, run, stop_reason,
}
use sql_self_healing_agent.Agent.Runner.Spec.{Laws, Inv, FromGate, IsSettled, IsSound}
use sql_self_healing_agent.Agent.Runner.Rounds.{turn-IsSound}

module _ {W : Type 0} (parts : Parts W) (laws : Laws parts) where
  open parts use {limits}

  go_on-IsSettled :
      (loop : W → AgentContext → AgentRunState → Run W) (n : ℕ) (t : Turn W)
      → IsSound parts n t
      → ((w : W) (c : AgentContext) (s : AgentRunState)
          → Inv limits c s
          → is_running s.status ≡ true
          → s.step_count ≡ n + 1
          → IsSettled parts (loop w c s))
      → IsSettled parts (go_on parts loop t)
  go_on-IsSettled loop n (ends r) ok rest = ok
  go_on-IsSettled loop n (again w c s) (i, on, counted) rest = rest w c s i on counted

  run-IsSettled :
      (fuel : ℕ) (w : W) (c : AgentContext) (s : AgentRunState)
      → Inv limits c s
      → is_running s.status ≡ true
      → limits.max_steps < fuel + s.step_count
      → IsSettled parts (run parts fuel w c s)
  unfolding run
  run-IsSettled zero w c s i on enough = absurd (omega (arith, enough, i.steps))
  run-IsSettled (suc fuel) w c s i on enough = rw on (
      go_on-IsSettled (run parts fuel) s.step_count (turn parts w c s)
        (turn-IsSound parts laws w c s i on)
        (λ w' c' s' i' on' counted.
          run-IsSettled fuel w' c' s' i' on' (omega (arith, enough, counted))))

  module _ (w : W) (c : AgentContext) (s : AgentRunState) (i : Inv limits c s)
      (on : is_running s.status ≡ true) where
    settled : IsSettled parts (run parts (suc limits.max_steps) w c s)
    settled = run-IsSettled (suc limits.max_steps) w c s i on (omega arith)

    -- A run of a well-formed plan, within its limits and with parts that keep to their laws, ends
    -- after at most as many rounds as there are steps in the budget, and one more: it returns a
    -- result, or ends with an exception of a part. The runner raises none itself.
    pub run-ends :
        ((w' : W) × (c' : AgentContext) × (s' : AgentRunState) × (r : AgentRunResult) × (run parts
              (suc limits.max_steps)
              w
              c
              s
            ≡ returned w' c' s' r))
        ⊎ (run parts (suc limits.max_steps) w c s ≡ part_raised)
    run-ends = ending (run parts (suc limits.max_steps) w c s) refl settled
      where
        ending :
            (x : Run W)
            → run parts (suc limits.max_steps) w c s ≡ x
            → IsSettled parts x
            → ((w' : W) × (c' : AgentContext) × (s' : AgentRunState) × (r : AgentRunResult) × (run
                    parts
                    (suc limits.max_steps)
                    w
                    c
                    s
                  ≡ returned w' c' s' r))
              ⊎ (run parts (suc limits.max_steps) w c s ≡ part_raised)
        ending (returned w' c' s' r) e ok = inl (w', c', s', r, e)
        ending part_raised e ok = inr e
        ending (own_error m) e ok = absurd ok
        ending exhausted e ok = absurd ok

    module _ (w' : W) (c' : AgentContext) (s' : AgentRunState) (r : AgentRunResult)
        (e : run parts (suc limits.max_steps) w c s ≡ returned w' c' s' r) where
      IsSettled-result : IsSettled parts (returned w' c' s' r)
      IsSettled-result = subst (IsSettled parts) e settled

      -- When such a run returns, its plan is still well-formed, none of the counts of steps, tool
      -- calls, sub-agent calls and revisions is over its limit, and the run state is not RUNNING.
      pub run-within_limits : Inv limits c' s' × (is_running s'.status ≡ false)
      run-within_limits = let (inv, off, _) = IsSettled-result in (inv, off)

      -- When such a run answers CANDIDATE_READY, the answer is the gate's, given on a draft that is
      -- the available, non-empty candidate of the workspace, with its artifact.
      pub run-ready-FromGate :
          r.status ≡ RunResultStatus.candidate_ready → FromGate parts w' c' s' r
      run-ready-FromGate ready = let (_, _, from) = IsSettled-result in from ready

-- The run goes on exactly while every count is below its limit, and the gate's repair rounds are
-- not above theirs.
pub stop_reason-none_iff :
    (limits : AgentRunLimits) (s : AgentRunState)
    → (stop_reason limits s ≡ none) ↔ (
        (s.step_count < limits.max_steps)
        × (s.tool_call_count < limits.max_tool_calls)
        × (s.sub_agent_call_count < limits.max_sub_agent_calls)
        × (s.wall_time_ms < limits.max_wall_time_ms)
        × (s.plan_revision_count < limits.max_plan_revisions)
        × (s.gate_repair_rounds ≤ limits.max_gate_repair_rounds)
        × (s.no_progress_steps < limits.max_no_progress_steps))
unfolding stop_reason
stop_reason-none_iff limits s = (
  λ e. (
    ground arith,
    ground arith,
    ground arith,
    ground arith,
    ground arith,
    ground arith,
    ground arith,
  ),
  λ (steps, tools, subs, time, revs, rounds, progress). ground arith,
)
