-- ===== src/Agent/SubAgents.antt =====
-- SubAgentRunner of agent/runner/subagent_runner.py. The worker, the tools and the context manager
-- are given to the runner and are parameters here; they may change a state `W`, from which the clock
-- is read as well.
pub mod Specs
pub mod Bounds
pub mod Guards
use Prim.Native.String.{◌++◌ as str_append}
use sql_self_healing_agent.Prelude.{
  ℕ, zero, suc, ◌+◌, String, Bool, true, false, not, ◌&&◌, ◌||◌, Option, none, some, List, [], ◌∷◌,
  ◌++◌, all, contains, from_keys, is_none, leb, ltb, if◌then◌else◌,
}
use sql_self_healing_agent.Repair.Words.{codes}
use sql_self_healing_agent.Agent.Models.{
  Payload, SubAgentBudget, exceeded, SubAgentRequest, SubAgentStatus, SubAgentResult,
  WorkspaceValue, AgentContext,
}
use sql_self_healing_agent.Agent.Planning.{prefix_codes}
use sql_self_healing_agent.Agent.Runner.{workspace_get}
use sql_self_healing_agent.Agent.SubAgents.Specs.{SubAgentTaskSpec, task_specs, find_spec}

pub data SubAgentActionType : Type 0 where
  read_artifact call_allowed_tool return_result need_more_context return_failed : SubAgentActionType

pub record SubAgentAction : Type 0 where
  pub type : SubAgentActionType
  pub tool_name : Option String
  pub tool_input : Payload
  pub requested_context_refs : List String
  pub result : Option SubAgentResult

-- What the worker answers: a result, an action, something that is no action, or an exception.
pub data WorkerAnswer : Type 0 where
  answers : SubAgentResult → WorkerAnswer
  acts : SubAgentAction → WorkerAnswer
  no_action : WorkerAnswer
  worker_raises : String → WorkerAnswer

-- What a tool call gives: whether its status is SUCCEEDED, its error code, and what is observed.
pub record ToolOutcome : Type 0 where
  pub succeeded : Bool
  pub error_code : Option String
  pub observed : String

-- The controlled view: the references only, or what the context manager supplies.
pub data View : Type 0 where
  bare : List String → View
  supplied : List (String × String) → List String → View

-- `prepare_for_sub_agent`: inline texts and artifacts; `none` is a ContextCompactionError.
abbrev pub Supply : Type 0
Supply = AgentContext → SubAgentRequest → Option (List (String × String) × List String)

pub record SubParts (W : Type 0) : Type 0 where
  pub elapsed_ms : W → ℕ
  pub worker : W → SubAgentRequest → View → SubAgentBudget → List String → W × WorkerAnswer
  pub tools : Option (W → String → AgentContext → Payload → W × ToolOutcome)
  pub context_manager : Option Supply

pub data SubRun (W : Type 0) : Type 0 where
  finished : W → SubAgentResult → SubRun W
  context_error : W → SubRun W
  exhausted : SubRun W

abbrev pub outcome : SubAgentStatus → String → Option String → SubAgentResult
outcome status summary stop = record {
  status = status;
  summary = summary;
  artifact_ref = none;
  requested_context_refs = [];
  structured_output = none;
  stop_reason = stop;
}

-- `text.startswith(prefix)`
unfoldable pub starts_with : String → String → Bool
starts_with prefix text = prefix_codes (codes prefix) (codes text)

-- The check of one context reference: what is wrong with it
unfoldable pub ref_error : AgentContext → String → Option String
ref_error context ref =
    if starts_with "artifact://" ref
    then (if starts_with (str_append "artifact://" (str_append context.session_id "/")) ref
        then none
        else some "上下文引用不属于当前 Session")
    else if is_none (workspace_get ref context.workspace)
    then some "上下文引用不存在"
    else none

abbrev or_else : Option String → Option String → Option String
or_else none later = later
or_else (some e) later = some e

-- The loop over the references: the first that is wrong
unfoldable pub refs_error : AgentContext → List String → Option String
unfolding ref_error
refs_error context [] = none
refs_error context (r ∷ rs) = or_else (ref_error context r) (refs_error context rs)

unfoldable pub first_budget : SubAgentRequest → SubAgentBudget
first_budget request = record {
  max_steps = request.limits.max_steps;
  max_tool_calls = request.limits.max_tool_calls;
  max_wall_time_ms = request.limits.max_wall_time_ms;
  max_context_requests = request.limits.max_context_requests;
  step_count = 0;
  tool_call_count = 0;
  context_request_count = 0;
}

-- `set(xs) <= set(ys)`
unfoldable pub subset : List String → List String → Bool
subset xs ys = all (λ x. contains x ys) xs

abbrev or_default : Option SubAgentResult → SubAgentResult
or_default none = outcome SubAgentStatus.failed "SubAgent 返回失败" none
or_default (some r) = r

abbrev in_allowed : Option String → List String → Bool
in_allowed none tools = false
in_allowed (some t) tools = contains t tools

module _ {W : Type 0} (parts : SubParts W) (request : SubAgentRequest) (parent : AgentContext) where
  abbrev Loop : Type 0
  Loop = W → SubAgentBudget → View → List String → SubRun W

  -- NEED_MORE_CONTEXT, within the budget
  extend_view : Loop → W → SubAgentBudget → View → List String → List String → SubRun W
  extend_view loop w b (bare refs) observations more =
      loop w b (bare (from_keys (refs ++ more))) observations
  extend_view loop w b (supplied inline refs) observations more = elim parts.context_manager [
    | none ↦ loop w b (supplied inline refs) observations
    | some prepare ↦ elim (prepare parent (record request { context_refs = more })) [
      | none ↦ context_error w
      | some (inline', refs') ↦ loop w b (supplied (inline' ++ inline) (refs ++ refs')) observations
    ]
  ]

  unfoldable pub more_context :
      Loop → W → SubAgentBudget → View → List String → List String → SubRun W
  unfolding extend_view
  more_context loop w b view observations more =
      let b' = record b { context_request_count = b.context_request_count + 1 } in
      let extended = extend_view loop w b' view observations more in
      if exceeded b'
      then finished w
          (outcome SubAgentStatus.budget_exceeded "SubAgent 上下文请求超限" (some "MAX_CONTEXT_REQUESTS"))
      else extended

  abbrev after_tool : Loop → SubAgentBudget → View → List String → W × ToolOutcome → SubRun W
  after_tool loop b view observations (w, t) =
      let next = loop w b view (observations ++ t.observed ∷ []) in
      if t.succeeded
      then next
      else finished w (outcome SubAgentStatus.failed "SubAgent Tool 执行失败" t.error_code)

  -- A call of an allowed tool
  unfoldable pub run_tool :
      Loop → W → SubAgentBudget → View → List String → String → Payload → SubRun W
  run_tool loop w b view observations tool input = elim parts.tools [
    | none ↦ finished w (
        outcome SubAgentStatus.failed "SubAgent ToolRegistry 未配置"
          (some "TOOL_REGISTRY_UNAVAILABLE"))
    | some execute ↦
        after_tool loop (record b { tool_call_count = b.tool_call_count + 1 }) view observations
          (execute w tool parent input)
  ]

  -- READ_ARTIFACT and CALL_ALLOWED_TOOL
  unfoldable pub call_tool :
      Loop → W → SubAgentBudget → View → List String → Option String → Payload → SubRun W
  call_tool loop w b view observations none input =
      finished w
        (outcome SubAgentStatus.human_required "SubAgent Tool 权限越界" (some "TOOL_NOT_ALLOWED"))
  call_tool loop w b view observations (some tool) input =
      let called = run_tool loop w b view observations tool input in
      if contains tool request.allowed_tools
      then called
      else finished w
          (outcome SubAgentStatus.human_required "SubAgent Tool 权限越界" (some "TOOL_NOT_ALLOWED"))

  unfoldable pub on_action :
      SubAgentActionType
      → Loop
      → W
      → SubAgentBudget
      → View
      → List String
      → SubAgentAction
      → SubRun W
  on_action SubAgentActionType.return_result loop w b view observations a = elim a.result [
    | some r ↦ finished w r
    | none ↦ loop w b view observations
  ]
  on_action SubAgentActionType.return_failed loop w b view observations a =
      finished w (or_default a.result)
  on_action SubAgentActionType.need_more_context loop w b view observations a =
      more_context loop w b view observations a.requested_context_refs
  on_action SubAgentActionType.read_artifact loop w b view observations a =
      call_tool loop w b view observations a.tool_name a.tool_input
  on_action SubAgentActionType.call_allowed_tool loop w b view observations a =
      call_tool loop w b view observations a.tool_name a.tool_input

  unfoldable pub on_answer :
      Loop → SubAgentBudget → View → List String → W × WorkerAnswer → SubRun W
  on_answer loop b view observations (w, answers r) = finished w r
  on_answer loop b view observations (w, acts a) = on_action a.type loop w b view observations a
  on_answer loop b view observations (w, no_action) =
      finished w
        (outcome SubAgentStatus.failed "SubAgent Action 非法" (some "INVALID_SUB_AGENT_ACTION"))
  on_answer loop b view observations (w, worker_raises error) = finished w (
      outcome SubAgentStatus.failed (str_append "SubAgent worker failed: " error)
        (some "SUB_AGENT_LLM_ERROR"))

  -- The `while` loop
  unfoldable pub loop_on : ℕ → Loop
  loop_on zero w b view observations = exhausted
  loop_on (suc fuel) w b view observations =
      let b' = record b { step_count = b.step_count + 1 } in
      let round =
        on_answer (loop_on fuel) b' view observations
          (parts.worker w request view b' observations) in
      if exceeded b
      then finished w (
          outcome SubAgentStatus.budget_exceeded "SubAgent 独立预算耗尽"
            (some "SUB_AGENT_BUDGET_EXCEEDED"))
      else if leb b.max_wall_time_ms (parts.elapsed_ms w)
      then finished w
          (outcome SubAgentStatus.budget_exceeded "SubAgent 独立时间预算耗尽" (some "MAX_WALL_TIME"))
      else round

  -- The loop on the view that was prepared
  unfoldable pub start_prepared : W → Option (List (String × String) × List String) → SubRun W
  start_prepared w none = context_error w
  start_prepared w (some (inline, refs)) =
      loop_on (suc request.limits.max_steps) w (first_budget request) (supplied inline refs) []

  unfoldable pub start_loop : W → Option Supply → SubRun W
  start_loop w none =
      loop_on (suc request.limits.max_steps) w (first_budget request) (bare request.context_refs) []
  start_loop w (some prepare) = start_prepared w (prepare parent request)

  abbrev refuse : W → String → String → SubRun W
  refuse w summary stop = finished w (outcome SubAgentStatus.human_required summary (some stop))

  check_refs : W → Option String → SubRun W
  check_refs w (some summary) = refuse w summary "CONTEXT_FORBIDDEN"
  check_refs w none = start_loop w parts.context_manager

  unfoldable pub with_spec : W → Option SubAgentTaskSpec → SubRun W
  unfolding check_refs
  with_spec w none =
      finished w (outcome SubAgentStatus.failed "未注册的 SubAgent 任务" (some "TASK_NOT_REGISTERED"))
  with_spec w (some spec) =
      if contains "RunSubAgentTool" request.allowed_tools
        || request.limits.allow_recursive_sub_agent
      then refuse w "禁止递归 SubAgent" "RECURSIVE_SUB_AGENT_FORBIDDEN"
      else if not (subset request.allowed_tools spec.allowed_tools)
      then refuse w "SubAgent Tool 权限越界" "TOOL_NOT_ALLOWED"
      else check_refs w (refs_error parent request.context_refs)

  -- SubAgentRunner.run
  unfoldable pub run : W → SubRun W
  run w = with_spec w (find_spec request.task_name task_specs)
