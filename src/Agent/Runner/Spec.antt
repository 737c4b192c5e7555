-- ===== src/Agent/Runner/Spec.antt =====
-- What the parts of an AgentRunner owe it, and what a round and a run of it may then do.
use sql_self_healing_agent.Prelude.{ℕ, ◌+◌, ◌≤◌, ◌≡◌, true, false, some, some_text, same_text}
use sql_self_healing_agent.Agent.Models.{
  CandidateStatus, Observation, AgentAction, WorkspaceStatus, WorkspaceValue, Phase, AgentContext,
  AgentRunState, AgentRunLimits, RunResultStatus, AgentRunResult,
}
use sql_self_healing_agent.Agent.Planning.Structure.{IsWellFormed}
use sql_self_healing_agent.Agent.Runner.{
  Parts, proposed, malformed, observed, broken, judged, Run, returned, part_raised, own_error,
  exhausted, Turn, again, ends, is_running, workspace_get,
}

-- The counters that the runner keeps are the same in both states, and so is the status.
pub record SameCounts (s t : AgentRunState) : Type 0 where
  pub steps : t.step_count ≡ s.step_count
  pub tool_calls : t.tool_call_count ≡ s.tool_call_count
  pub sub_agent_calls : t.sub_agent_call_count ≡ s.sub_agent_call_count
  pub revisions : t.plan_revision_count ≡ s.plan_revision_count
  pub running : is_running t.status ≡ is_running s.status

-- A part may change neither the counters nor the plan.
pub record Respects (c c' : AgentContext) (s s' : AgentRunState) : Type 0 where
  pub counts : SameCounts s s'
  pub plan : c'.execution_plan ≡ c.execution_plan

pub record Laws {W : Type 0} (parts : Parts W) : Type 0 where
  pub proposes :
      (w : W) (c : AgentContext) (s : AgentRunState) (w' : W) (c' : AgentContext)
      (s' : AgentRunState) (a : AgentAction)
      → parts.next_action w c s ≡ proposed w' c' s' a
      → Respects c c' s s'
  pub fails :
      (w : W) (c : AgentContext) (s : AgentRunState) (w' : W) (c' : AgentContext)
      (s' : AgentRunState)
      → parts.next_action w c s ≡ malformed w' c' s'
      → Respects c c' s s'
  pub observes :
      (w : W) (a : AgentAction) (c : AgentContext) (s : AgentRunState) (w' : W) (c' : AgentContext)
      (s' : AgentRunState) (o : Observation)
      → parts.execute w a c s ≡ observed w' c' s' o
      → Respects c c' s s'
  pub breaks :
      (w : W) (a : AgentAction) (c : AgentContext) (s : AgentRunState) (w' : W) (c' : AgentContext)
      (s' : AgentRunState)
      → parts.execute w a c s ≡ broken w' c' s'
      → Respects c c' s s'
  -- The gate settles the status, and spends none of these counters.
  pub judges :
      (w : W) (c : AgentContext) (s : AgentRunState) (w' : W) (c' : AgentContext)
      (s' : AgentRunState) (r : AgentRunResult)
      → parts.gate w c s ≡ judged w' c' s' r
      → Respects c c' (record s { status = s'.status }) s' × (is_running s'.status ≡ false)

-- The plan is well-formed and no counter is over its limit.
pub record Inv (limits : AgentRunLimits) (c : AgentContext) (s : AgentRunState) : Type 0 where
  pub plan : IsWellFormed c.execution_plan
  pub steps : s.step_count ≤ limits.max_steps
  pub tool_calls : s.tool_call_count ≤ limits.max_tool_calls
  pub sub_agent_calls : s.sub_agent_call_count ≤ limits.max_sub_agent_calls
  pub revisions : s.plan_revision_count ≤ limits.max_plan_revisions

module _ {W : Type 0} (parts : Parts W) where
  -- The result is the gate's, on a draft that stands in the workspace with its artifact.
  pub record FromGate (w : W) (c : AgentContext) (s : AgentRunState) (r : AgentRunResult)
      : Type 0 where
    pub before : W
    pub context : AgentContext
    pub state : AgentRunState
    pub answer : parts.gate before context state ≡ judged w c s r
    pub value : WorkspaceValue
    pub in_workspace : workspace_get "candidate_sql" context.workspace ≡ some value
    pub available : value.status ≡ WorkspaceStatus.available
    pub draft : context.candidate.draft_sql ≡ value.summary
    pub not_empty : some_text value.summary ≡ true
    pub has_artifact : some_text value.artifact_ref ≡ true
    pub same_artifact : same_text context.candidate.draft_artifact_ref value.artifact_ref ≡ true
    pub is_draft : context.candidate.status ≡ CandidateStatus.draft
    pub gating : context.phase ≡ Phase.gating

  -- A run that has ended as it should: with its invariant, not running, and with a candidate only
  -- from the gate; or with an exception of a part.
  abbrev pub IsSettled : Run W → Type 0
  IsSettled (returned w c s r) =
      Inv parts.limits c s
      × (is_running s.status ≡ false)
      × (r.status ≡ RunResultStatus.candidate_ready → FromGate w c s r)
  IsSettled part_raised = Unit
  IsSettled (own_error _) = ⊥
  IsSettled exhausted = ⊥

  -- A round that has kept the invariant, from `n` steps on: it has counted one step and goes on, or
  -- the run has ended as it should.
  abbrev pub IsSound : ℕ → Turn W → Type 0
  IsSound n (again w c s) =
      Inv parts.limits c s × (is_running s.status ≡ true) × (s.step_count ≡ n + 1)
  IsSound n (ends r) = IsSettled r
