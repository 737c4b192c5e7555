-- ===== src/Agent/SubAgents/Bounds.antt =====
-- SubAgentRunner.run (agent/runner/subagent_runner.py) ends, and calls only allowed tools, a bounded
-- number of times.
use sql_self_healing_agent.Prelude.{
  ℕ, zero, suc, ◌+◌, ◌≤◌, ◌<◌, String, ◌≡◌, true, false, Option, none, some, List, arith, contains,
  leb, Bool-cases, Option-cases, inl, inr,
}
use sql_self_healing_agent.Agent.Models.{
  Payload, SubAgentBudget, exceeded, SubAgentRequest, SubAgentStatus, SubAgentResult, AgentContext,
}
use sql_self_healing_agent.Agent.SubAgents.{
  SubAgentActionType, SubAgentAction, WorkerAnswer, answers, acts, no_action, worker_raises,
  ToolOutcome, View, bare, supplied, SubParts, SubRun, finished, context_error, exhausted, outcome,
  extend_view, more_context, after_tool, run_tool, call_tool, on_action, on_answer, loop_on,
}

-- What is asked of the parts: the worker calls no tool; a tool that the request allows counts as at
-- most one call.
pub record Metered {W : Type 0} (parts : SubParts W) (request : SubAgentRequest)
    (parent : AgentContext) (calls : W → ℕ) : Type 0 where
  pub worker_calls_none :
      (w : W) (view : View) (b : SubAgentBudget) (observations : List String)
      → calls (parts.worker w request view b observations).0 ≡ calls w
  pub tool_calls_one :
      (w : W) (execute : W → String → AgentContext → Payload → W × ToolOutcome) (tool : String)
      (input : Payload)
      → parts.tools ≡ some execute
      → contains tool request.allowed_tools ≡ true
      → calls (execute w tool parent input).0 ≤ calls w + 1

module _ {W : Type 0} (parts : SubParts W) (request : SubAgentRequest) (parent : AgentContext)
    (calls : W → ℕ) (metered : Metered parts request parent calls) (start : ℕ) where
  -- A run that has ended, with at most so many calls.
  abbrev pub IsBounded : SubRun W → Type 0
  IsBounded (finished w r) = calls w ≤ start + request.limits.max_tool_calls + 1
  IsBounded (context_error w) = calls w ≤ start + request.limits.max_tool_calls + 1
  IsBounded exhausted = ⊥

  -- The loop's state: no more calls than the budget counts, and no count far over its limit.
  pub record InLoop (fuel : ℕ) (w : W) (b : SubAgentBudget) : Type 0 where
    pub counted : calls w ≤ start + b.tool_call_count
    pub tools : b.tool_call_count ≤ request.limits.max_tool_calls + 1
    pub max_tools : b.max_tool_calls ≡ request.limits.max_tool_calls
    pub max_steps : b.max_steps ≡ request.limits.max_steps
    pub fueled : b.step_count + fuel ≡ suc request.limits.max_steps
    pub steps : b.step_count ≤ request.limits.max_steps

  abbrev Continues : ℕ → (W → SubAgentBudget → View → List String → SubRun W) → Type 0
  Continues fuel loop =
      (w : W) (b : SubAgentBudget) (view : View) (observations : List String)
      → InLoop fuel w b
      → IsBounded (loop w b view observations)

  -- Inside a round: one step is counted, and another tool call may be.
  record InRound (fuel : ℕ) (w : W) (b : SubAgentBudget) : Type 0 where
    inside : InLoop fuel w b
    room : b.tool_call_count ≤ request.limits.max_tool_calls

  ends-IsBounded :
      (fuel : ℕ) (w : W) (b : SubAgentBudget) (r : SubAgentResult)
      → InLoop fuel w b
      → IsBounded (finished w r)
  ends-IsBounded fuel w b r i = omega (arith, i.counted, i.tools)

  extend_view-IsBounded :
      (fuel : ℕ) (loop : W → SubAgentBudget → View → List String → SubRun W) (w : W)
      (b : SubAgentBudget) (view : View) (observations more : List String)
      → Continues fuel loop
      → InLoop fuel w b
      → IsBounded (extend_view parts request parent loop w b view observations more)
  unfolding extend_view
  extend_view-IsBounded fuel loop w b (bare refs) observations more go i = go w b _ observations i
  extend_view-IsBounded fuel loop w b (supplied inline refs) observations more go i =
      elim (Option-cases parts.context_manager) [
        | inl e ↦ rw e (go w b (supplied inline refs) observations i)
        | inr (prepare, e) ↦
            elim (Option-cases (prepare parent (record request { context_refs = more }))) [
              | inl f ↦ rw (e, f) (omega (arith, i.counted, i.tools))
              | inr (p, f) ↦ rw (e, f) (go w b _ observations i)
            ]
      ]

  more_context-IsBounded :
      (fuel : ℕ) (loop : W → SubAgentBudget → View → List String → SubRun W) (w : W)
      (b : SubAgentBudget) (view : View) (observations more : List String)
      → Continues fuel loop
      → InLoop fuel w b
      → IsBounded (more_context parts request parent loop w b view observations more)
  unfolding more_context
  more_context-IsBounded fuel loop w b view observations more go i =
      let b' = record b { context_request_count = b.context_request_count + 1 } in
      elim (Bool-cases (exceeded b')) [
        | inl over ↦ rw over (omega (arith, i.counted, i.tools))
        | inr off ↦ rw off (
            extend_view-IsBounded fuel loop w b' view observations more go (record {
              counted = i.counted;
              tools = i.tools;
              max_tools = i.max_tools;
              max_steps = i.max_steps;
              fueled = i.fueled;
              steps = i.steps;
            }))
      ]

  run_tool-IsBounded :
      (fuel : ℕ) (loop : W → SubAgentBudget → View → List String → SubRun W) (w : W)
      (b : SubAgentBudget) (view : View) (observations : List String) (tool : String)
      (input : Payload)
      → Continues fuel loop
      → InRound fuel w b
      → contains tool request.allowed_tools ≡ true
      → IsBounded (run_tool parts request parent loop w b view observations tool input)
  unfolding run_tool
  run_tool-IsBounded fuel loop w b view observations tool input go r allowed =
      elim (Option-cases parts.tools) [
        | inl e ↦ rw e (ends-IsBounded fuel w b (outcome SubAgentStatus.failed "" none) r.inside)
        | inr (execute, e) ↦ rw e (
            called (execute w tool parent input)
              (metered.tool_calls_one w execute tool input e allowed))
      ]
    where
      called :
          (p : W × ToolOutcome)
          → calls p.0 ≤ calls w + 1
          → IsBounded (
              after_tool parts request parent loop
                (record b { tool_call_count = b.tool_call_count + 1 })
                view
                observations
                p)
      called (w', t) one = elim (Bool-cases t.succeeded) [
        | inl on ↦ rw on (
            go w' _ view _ (record {
              counted = omega (arith, one, r.inside.counted);
              tools = omega (arith, r.room);
              max_tools = r.inside.max_tools;
              max_steps = r.inside.max_steps;
              fueled = r.inside.fueled;
              steps = r.inside.steps;
            }))
        | inr off ↦ rw off (omega (arith, one, r.inside.counted, r.room))
      ]

  call_tool-IsBounded :
      (fuel : ℕ) (loop : W → SubAgentBudget → View → List String → SubRun W) (w : W)
      (b : SubAgentBudget) (view : View) (observations : List String) (tool : Option String)
      (input : Payload)
      → Continues fuel loop
      → InRound fuel w b
      → IsBounded (call_tool parts request parent loop w b view observations tool input)
  unfolding call_tool
  call_tool-IsBounded fuel loop w b view observations none input go r =
      omega (arith, r.inside.counted, r.inside.tools)
  call_tool-IsBounded fuel loop w b view observations (some tool) input go r =
      elim (Bool-cases (contains tool request.allowed_tools)) [
        | inl on ↦ rw on (run_tool-IsBounded fuel loop w b view observations tool input go r on)
        | inr off ↦ rw off (omega (arith, r.inside.counted, r.inside.tools))
      ]

  on_action-IsBounded :
      (fuel : ℕ) (type : SubAgentActionType)
      (loop : W → SubAgentBudget → View → List String → SubRun W) (w : W) (b : SubAgentBudget)
      (view : View) (observations : List String) (a : SubAgentAction)
      → Continues fuel loop
      → InRound fuel w b
      → IsBounded (on_action parts request parent type loop w b view observations a)
  unfolding on_action
  on_action-IsBounded fuel SubAgentActionType.return_result loop w b view observations a go r =
      elim (Option-cases a.result) [
        | inl e ↦ rw e (go w b view observations r.inside)
        | inr (x, e) ↦ rw e (omega (arith, r.inside.counted, r.inside.tools))
      ]
  on_action-IsBounded fuel SubAgentActionType.return_failed loop w b view observations a go r =
      omega (arith, r.inside.counted, r.inside.tools)
  on_action-IsBounded fuel SubAgentActionType.need_more_context loop w b view observations a go r =
      more_context-IsBounded fuel loop w b view observations a.requested_context_refs go r.inside
  on_action-IsBounded fuel SubAgentActionType.read_artifact loop w b view observations a go r =
      call_tool-IsBounded fuel loop w b view observations a.tool_name a.tool_input go r
  on_action-IsBounded fuel SubAgentActionType.call_allowed_tool loop w b view observations a go r =
      call_tool-IsBounded fuel loop w b view observations a.tool_name a.tool_input go r

  on_answer-IsBounded :
      (fuel : ℕ) (loop : W → SubAgentBudget → View → List String → SubRun W) (b : SubAgentBudget)
      (view : View) (observations : List String) (p : W × WorkerAnswer)
      → Continues fuel loop
      → InRound fuel p.0 b
      → IsBounded (on_answer parts request parent loop b view observations p)
  unfolding on_answer
  on_answer-IsBounded fuel loop b view observations (w, answers x) go r =
      omega (arith, r.inside.counted, r.inside.tools)
  on_answer-IsBounded fuel loop b view observations (w, acts a) go r =
      on_action-IsBounded fuel a.type loop w b view observations a go r
  on_answer-IsBounded fuel loop b view observations (w, no_action) go r =
      omega (arith, r.inside.counted, r.inside.tools)
  on_answer-IsBounded fuel loop b view observations (w, worker_raises e) go r =
      omega (arith, r.inside.counted, r.inside.tools)

  below :
      (b : SubAgentBudget)
      → exceeded b ≡ false
      → (b.step_count < b.max_steps) × (b.tool_call_count ≤ b.max_tool_calls)
  unfolding exceeded
  below b e = (ground arith, ground arith)

  pub loop_on-IsBounded :
      (fuel : ℕ) (w : W) (b : SubAgentBudget) (view : View) (observations : List String)
      → InLoop fuel w b
      → IsBounded (loop_on parts request parent fuel w b view observations)
  unfolding loop_on
  loop_on-IsBounded zero w b view observations i = absurd (omega (arith, i.fueled, i.steps))
  loop_on-IsBounded (suc fuel) w b view observations i = elim (Bool-cases (exceeded b)) [
    | inl over ↦ rw over (omega (arith, i.counted, i.tools))
    | inr off ↦ elim (Bool-cases (leb b.max_wall_time_ms (parts.elapsed_ms w))) [
      | inl late ↦ rw (off, late) (omega (arith, i.counted, i.tools))
      | inr early ↦
          let (steps, tools) = below b off in
          let b' = record b { step_count = b.step_count + 1 } in
          rw (off, early)
            (on_answer-IsBounded fuel (loop_on parts request parent fuel) b' view observations
              (parts.worker w request view b' observations)
              (λ v c u o j. loop_on-IsBounded fuel v c u o j)
              (record {
                inside = record {
                  counted =
                      omega (arith, metered.worker_calls_none w view b' observations, i.counted);
                  tools = i.tools;
                  max_tools = i.max_tools;
                  max_steps = i.max_steps;
                  fueled = omega (arith, i.fueled);
                  steps = omega (arith, steps, i.max_steps);
                };
                room = omega (arith, tools, i.max_tools);
              }))
    ]
  ]
