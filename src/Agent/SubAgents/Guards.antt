-- ===== src/Agent/SubAgents/Guards.antt =====
-- Whole runs of SubAgentRunner (agent/runner/subagent_runner.py): who is let in, and that they end.
use sql_self_healing_agent.Prelude.{
  ℕ, suc, String, ◌≡◌, refl, true, false, ◌||◌, Option, none, some, List, [], arith, contains,
  Bool-cases, Option-cases, ◌⊎◌, inl, inr,
}
use sql_self_healing_agent.Agent.Models.{
  SubAgentRequest, SubAgentStatus, SubAgentResult, AgentContext,
}
use sql_self_healing_agent.Agent.SubAgents.{
  SubParts, SubRun, Supply, outcome, start_prepared, finished, bare, supplied, first_budget, subset,
  refs_error, start_loop, check_refs, with_spec, run,
}
use sql_self_healing_agent.Agent.SubAgents.Specs.{SubAgentTaskSpec, task_specs, find_spec}
use sql_self_healing_agent.Agent.SubAgents.Bounds.{Metered, IsBounded, InLoop, loop_on-IsBounded}

-- A request that may run: of a registered task, without recursion, with tools of the task only, and
-- with references into this session only.
pub record IsPermitted (request : SubAgentRequest) (parent : AgentContext) : Type 0 where
  pub spec : SubAgentTaskSpec
  pub registered : find_spec request.task_name task_specs ≡ some spec
  pub no_sub_agent_tool : contains "RunSubAgentTool" request.allowed_tools ≡ false
  pub no_recursion : request.limits.allow_recursive_sub_agent ≡ false
  pub tools_of_task : subset request.allowed_tools spec.allowed_tools ≡ true
  pub refs_in_session : refs_error parent request.context_refs ≡ none

module _ {W : Type 0} (parts : SubParts W) (request : SubAgentRequest) (parent : AgentContext) where
  abbrev Refused : W → SubRun W → Type 0
  Refused w r = (x : SubAgentResult) × (r ≡ finished w x) × (x.structured_output ≡ none)

  with_spec-cases :
      (w : W) (s : Option SubAgentTaskSpec)
      → find_spec request.task_name task_specs ≡ s
      → (IsPermitted request parent
          × (with_spec parts request parent w s
              ≡ start_loop parts request parent w parts.context_manager))
        ⊎ Refused w (with_spec parts request parent w s)
  unfolding with_spec check_refs
  with_spec-cases w none e = inr (_, refl, refl)
  with_spec-cases w (some spec) e =
      elim (Bool-cases (
        contains "RunSubAgentTool" request.allowed_tools
        || request.limits.allow_recursive_sub_agent)) [
          | inl recursive ↦ inr (
            outcome SubAgentStatus.human_required "禁止递归 SubAgent"
                (some "RECURSIVE_SUB_AGENT_FORBIDDEN"),
            rw recursive refl,
            refl,
          )
          | inr single ↦ elim (Bool-cases (subset request.allowed_tools spec.allowed_tools)) [
            | inr beyond ↦ inr (
              outcome SubAgentStatus.human_required "SubAgent Tool 权限越界" (some "TOOL_NOT_ALLOWED"),
              rw (single, beyond) refl,
              refl,
            )
            | inl within ↦ elim (Option-cases (refs_error parent request.context_refs)) [
              | inr (m, bad) ↦ inr (
                outcome SubAgentStatus.human_required m (some "CONTEXT_FORBIDDEN"),
                rw (single, within, bad) refl,
                refl,
              )
              | inl good ↦ inl (
                record {
                  spec = spec;
                  registered = e;
                  no_sub_agent_tool = ground (arith, single);
                  no_recursion = ground (arith, single);
                  tools_of_task = within;
                  refs_in_session = good;
                },
                rw (single, within, good) refl,
              )
            ]
          ]
        ]

  -- A request is run in the loop only if it is permitted; otherwise the run ends at once, without
  -- the worker or a tool, and with no output.
  pub run-IsPermitted :
      (w : W)
      → (IsPermitted request parent
          × (run parts request parent w ≡ start_loop parts request parent w parts.context_manager))
        ⊎ ((r : SubAgentResult) × (run parts request parent w ≡ finished w r)
            × (r.structured_output ≡ none))
  unfolding run
  run-IsPermitted w = with_spec-cases w (find_spec request.task_name task_specs) refl

  module _ (calls : W → ℕ) (metered : Metered parts request parent calls) where
    start-InLoop :
        (w : W)
        → InLoop parts request parent calls metered
            (calls w)
            (suc request.limits.max_steps)
            w
            (first_budget request)
    unfolding first_budget
    start-InLoop w = record {
      counted = omega arith;
      tools = omega arith;
      max_tools = refl;
      max_steps = refl;
      fueled = omega arith;
      steps = omega arith;
    }

    start_prepared-IsBounded :
        (w : W) (p : Option (List (String × String) × List String))
        → IsBounded parts request parent calls metered
            (calls w)
            (start_prepared parts request parent w p)
    unfolding start_prepared
    start_prepared-IsBounded w none = omega arith
    start_prepared-IsBounded w (some (inline, refs)) =
        loop_on-IsBounded parts request parent calls metered (calls w)
          (suc request.limits.max_steps) w (first_budget request) (supplied inline refs) []
          (start-InLoop w)

    start_loop-IsBounded :
        (w : W) (m : Option Supply)
        → IsBounded parts request parent calls metered
            (calls w)
            (start_loop parts request parent w m)
    unfolding start_loop
    start_loop-IsBounded w none =
        loop_on-IsBounded parts request parent calls metered (calls w)
          (suc request.limits.max_steps) w (first_budget request) (bare request.context_refs) []
          (start-InLoop w)
    start_loop-IsBounded w (some prepare) = start_prepared-IsBounded w (prepare parent request)

    -- Whatever the worker answers, a run ends within the steps of its request; and if the worker
    -- calls no tool itself and each allowed tool counts as one call at most, the run makes at most
    -- one call more than the request's limit of tool calls.
    pub run-IsBounded :
        (w : W)
        → IsBounded parts request parent calls metered (calls w) (run parts request parent w)
    run-IsBounded w = elim (run-IsPermitted w) [
      | inl (_, e) ↦ rw e (start_loop-IsBounded w parts.context_manager)
      | inr (r, e, _) ↦ rw e (omega arith)
    ]
