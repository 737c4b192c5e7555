-- ===== src/Agent/Runner.antt =====
-- AgentRunner of agent/runner/agent_runner.py. The main agent (with the context manager in front of
-- it), the action executor and the candidate gate are the runner's parts, and are parameters, as in
-- the code. A part may change the context and the run state, since the code shares them, and has a
-- state `W` of its own, from which the clock is read as well.

pub mod Spec
pub mod Turns
pub mod Actions
pub mod Rounds
pub mod Loop
use Prim.Native.String.{◌++◌ as str_append}
use sql_self_healing_agent.Prelude.{
  ℕ, zero, suc, ◌+◌, String, Bool, true, false, not, ◌||◌, Option, none, some, List, [], ◌∷◌, ◌++◌,
  ◌==◌, leb, ltb, is_none, truthy, some_text, same_text, decimal, if◌then◌else◌,
}
use sql_self_healing_agent.Gates.Models.{Env}
use sql_self_healing_agent.Agent.Models.{
  ObservationStatus, Observation, CandidateStatus, ActionType, AgentAction, action_valid,
  WorkspaceStatus, WorkspaceValue, Phase, AgentContext, RunStatus, AgentRunState, AgentRunLimits,
  RunResultStatus, AgentRunResult, ExecutionPlan,
}
use sql_self_healing_agent.Agent.Updater.{
  Replacement, value_error, invalid, replaced, replace, apply_observation, made_progress,
}

-- What `next_action`, with the preparation of its input, does: it proposes an action, which may lack
-- fields; raises one of the errors that the runner catches; or raises another one.
pub data Proposal (W : Type 0) : Type 0 where
  proposed : W → AgentContext → AgentRunState → AgentAction → Proposal W
  malformed : W → AgentContext → AgentRunState → Proposal W
  raised : Proposal W

-- What `execute` does; the runner catches every exception.
pub data Execution (W : Type 0) : Type 0 where
  observed : W → AgentContext → AgentRunState → Observation → Execution W
  broken : W → AgentContext → AgentRunState → Execution W

-- What the candidate gate does; the runner catches no exception of it.
pub data Judgement (W : Type 0) : Type 0 where
  judged : W → AgentContext → AgentRunState → AgentRunResult → Judgement W
  gate_raised : Judgement W

pub record Parts (W : Type 0) : Type 0 where
  pub env : Env
  pub limits : AgentRunLimits
  pub elapsed_ms : W → ℕ
  pub next_action : W → AgentContext → AgentRunState → Proposal W
  pub execute : W → AgentAction → AgentContext → AgentRunState → Execution W
  pub gate : W → AgentContext → AgentRunState → Judgement W

-- How a run ends: it returns; a part raises an exception that is not caught; the runner itself
-- raises one (the ValueError of `replace`, the KeyError of `apply_observation`, or an
-- AttributeError on an action without its plan); or the fuel is used up.
pub data Run (W : Type 0) : Type 0 where
  returned : W → AgentContext → AgentRunState → AgentRunResult → Run W
  part_raised : Run W
  own_error : String → Run W
  exhausted : Run W

-- One round of the loop: it goes on, or the run ends.
pub data Turn (W : Type 0) : Type 0 where
  again : W → AgentContext → AgentRunState → Turn W
  ends : Run W → Turn W

-- `_stop_reason`
unfoldable pub stop_reason : AgentRunLimits → AgentRunState → Option String
stop_reason limits s =
    if leb limits.max_steps s.step_count
    then some "MAX_STEPS"
    else if leb limits.max_tool_calls s.tool_call_count
    then some "MAX_TOOL_CALLS"
    else if leb limits.max_sub_agent_calls s.sub_agent_call_count
    then some "MAX_SUB_AGENT_CALLS"
    else if leb limits.max_wall_time_ms s.wall_time_ms
    then some "MAX_WALL_TIME"
    else if leb limits.max_plan_revisions s.plan_revision_count
    then some "MAX_PLAN_REVISIONS"
    else if ltb limits.max_gate_repair_rounds s.gate_repair_rounds
    then some "MAX_GATE_REPAIR_ROUNDS"
    else if leb limits.max_no_progress_steps s.no_progress_steps
    then some "NO_PROGRESS"
    else none

abbrev is_candidate_ready : RunResultStatus → Bool
is_candidate_ready RunResultStatus.candidate_ready = true
is_candidate_ready _ = false

-- `_result`
unfoldable pub run_result :
    RunResultStatus → AgentContext → AgentRunState → Option String → AgentRunResult
run_result status context state reason = record {
  status = status;
  candidate_sql = if is_candidate_ready status then context.candidate.formal_sql else none;
  candidate_artifact_ref =
      if is_candidate_ready status then context.candidate.draft_artifact_ref else none;
  risk_level = none;
  gate_result_ref = none;
  reason = reason;
  stop_reason = state.stop_reason;
  plan_revision = context.execution_plan.revision;
  step_count = state.step_count;
  trace_ref = none;
}

-- `context.workspace.get(key)`
unfoldable pub workspace_get : String → List (String × WorkspaceValue) → Option WorkspaceValue
workspace_get key [] = none
workspace_get key ((k, v) ∷ rest) = if k == key then some v else workspace_get key rest

abbrev is_available : WorkspaceStatus → Bool
is_available WorkspaceStatus.available = true
is_available _ = false

-- Whether the candidate that an action proposes is the one of the workspace, with its artifact.
unfoldable pub backed : AgentContext → AgentAction → Option WorkspaceValue → Bool
backed context action none = false
backed context action (some v) = not (
    not (is_available v.status)
    || not (some_text v.summary)
    || not (same_text v.summary action.candidate_sql)
    || not (some_text v.artifact_ref)
    || not (same_text context.candidate.draft_artifact_ref v.artifact_ref))

-- `action.type in {"TOOL_CALL", "RUN_SUB_AGENT"}`
abbrev pub belongs_to_step : ActionType → Bool
belongs_to_step ActionType.tool_call = true
belongs_to_step ActionType.run_sub_agent = true
belongs_to_step _ = false

abbrev pub is_running : RunStatus → Bool
is_running RunStatus.running = true
is_running _ = false

-- The observation that the runner itself makes of a plan update.
abbrev plan_observation : Env → ObservationStatus → String → Observation
plan_observation env status summary = record {
  observation_id = str_append "obs_" env.uuid4;
  action_type = "UPDATE_PLAN";
  status = status;
  summary = summary;
  artifact_refs = [];
  produced_workspace_keys = [];
  plan_step_id = none;
  created_at = env.now;
}

abbrev note : AgentContext → Observation → AgentContext
note context o = record context { recent_observations = context.recent_observations ++ o ∷ [] }

module _ {W : Type 0} (parts : Parts W) where
  open parts use {env, limits, elapsed_ms, next_action, execute, gate}

  -- The run ends with this status of the run state and this result.
  abbrev finish :
      RunStatus
      → RunResultStatus
      → Option String
      → Option String
      → W
      → AgentContext
      → AgentRunState
      → Turn W
  finish status outcome stop reason w context state =
      let state' = record state { status = status; stop_reason = stop } in
      ends (returned w context state' (run_result outcome context state' reason))

  unfoldable pub invalid_action : W → AgentContext → AgentRunState → Turn W
  invalid_action =
      finish RunStatus.human_required RunResultStatus.human_required (some "INVALID_AGENT_ACTION")
        (some "INVALID_AGENT_ACTION")

  abbrev hand_out : Judgement W → Turn W
  hand_out (judged w context state r) = ends (returned w context state r)
  hand_out gate_raised = ends part_raised

  -- PROPOSE_SQL_CANDIDATE, after the observation
  unfoldable pub propose :
      W → AgentContext → AgentRunState → AgentAction → Option WorkspaceValue → Turn W
  propose w context state action none =
      finish RunStatus.human_required RunResultStatus.human_required (some "NO_CANDIDATE_ARTIFACT")
        (some "NO_CANDIDATE_ARTIFACT") w context state
  propose w context state action (some v) =
      if backed context action (some v)
      then (let draft = record (context.candidate) {
        draft_sql = v.summary;
        status = CandidateStatus.draft;
      } in
          hand_out (gate w (record context { candidate = draft; phase = Phase.gating }) state))
      else finish RunStatus.human_required RunResultStatus.human_required
          (some "NO_CANDIDATE_ARTIFACT") (some "NO_CANDIDATE_ARTIFACT") w context state

  -- The end of a round, by the type of its action.
  unfoldable pub count_action : ActionType → W → AgentContext → AgentRunState → AgentAction → Turn W
  unfolding propose
  count_action ActionType.tool_call w context state action =
      again w context (record state { tool_call_count = state.tool_call_count + 1 })
  count_action ActionType.run_sub_agent w context state action =
      again w context (record state { sub_agent_call_count = state.sub_agent_call_count + 1 })
  count_action ActionType.propose_sql_candidate w context state action =
      propose w context state action (workspace_get "candidate_sql" context.workspace)
  count_action _ w context state action = again w context state

  abbrev apply : W → AgentContext → AgentRunState → AgentAction → Option ExecutionPlan → Turn W
  apply w context state action none = ends (own_error "KeyError")
  apply w context state action (some plan) =
      count_action action.type w (record context { execution_plan = plan }) state action

  -- TOOL_CALL, RUN_SUB_AGENT and PROPOSE_SQL_CANDIDATE
  unfoldable pub observe_action : AgentAction → Execution W → Turn W
  observe_action action (broken w context state) =
      finish RunStatus.failed RunResultStatus.failed (some "AGENT_RUNTIME_ERROR")
        (some "AGENT_RUNTIME_ERROR") w context state
  observe_action action (observed w context state o) =
      let o' =
        if belongs_to_step action.type
        then record o { plan_step_id = context.execution_plan.current_step_id }
        else o in
      let progress = made_progress o' context.recent_observations in
      let context' = record (note context o') { last_action = some action } in
      let state' = record state {
        no_progress_steps = if progress then 0 else state.no_progress_steps + 1;
      } in
      apply w context' state' action (apply_observation context.execution_plan o')

  -- UPDATE_PLAN
  unfoldable pub update_plan : W → AgentContext → AgentRunState → Replacement → Turn W
  update_plan w context state value_error = ends (own_error "ValueError")
  update_plan w context state (invalid message) =
      again w
        (note context (
          plan_observation env ObservationStatus.blocked
            (str_append "ExecutionPlan rejected: " message)))
        (record state { no_progress_steps = state.no_progress_steps + 1 })
  update_plan w context state (replaced plan state') =
      again w
        (note (record context { execution_plan = plan })
          (plan_observation env ObservationStatus.succeeded
            (str_append "ExecutionPlan revision=" (decimal plan.revision))))
        (record state' { no_progress_steps = 0 })

  abbrev replace_plan : W → AgentContext → AgentRunState → Option ExecutionPlan → Turn W
  replace_plan w context state none = ends (own_error "AttributeError")
  replace_plan w context state (some plan) =
      update_plan w context state (replace context.execution_plan plan state limits)

  unfoldable pub act : ActionType → W → AgentContext → AgentRunState → AgentAction → Turn W
  act ActionType.return_no_sql w context state action =
      finish RunStatus.no_sql RunResultStatus.no_sql state.stop_reason action.reason w context state
  act ActionType.return_human_required w context state action =
      finish RunStatus.human_required RunResultStatus.human_required state.stop_reason action.reason
        w context state
  act ActionType.update_plan w context state action =
      replace_plan w context state action.execution_plan
  act _ w context state action = observe_action action (execute w action context state)

  unfoldable pub on_proposal : Proposal W → Turn W
  on_proposal raised = ends part_raised
  on_proposal (malformed w context state) = invalid_action w context state
  on_proposal (proposed w context state action) =
      if action_valid action
      then act action.type w (record context { last_action = some action })
          (record state { step_count = state.step_count + 1 }) action
      else invalid_action w context state

  -- Stops for a reason, or asks the main agent.
  unfoldable pub check_limits : W → AgentContext → AgentRunState → Option String → Turn W
  check_limits w context state (some reason) =
      finish RunStatus.human_required RunResultStatus.human_required (some reason) (some reason) w
        context state
  check_limits w context state none = on_proposal (next_action w context state)

  unfoldable pub turn : W → AgentContext → AgentRunState → Turn W
  turn w context state =
      let state' = record state { wall_time_ms = elapsed_ms w } in
      check_limits w context state' (stop_reason limits state')

  abbrev go_on : (W → AgentContext → AgentRunState → Run W) → Turn W → Run W
  go_on loop (again w context state) = loop w context state
  go_on loop (ends r) = r

  -- AgentRunner.run
  unfoldable pub run : ℕ → W → AgentContext → AgentRunState → Run W
  run zero w context state = exhausted
  run (suc fuel) w context state =
      let round = go_on (run fuel) (turn w context state) in
      if is_running state.status
      then round
      else returned w context state
          (run_result RunResultStatus.failed context state state.stop_reason)
