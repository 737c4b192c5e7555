-- ===== src/Hooks/Budget.antt =====
-- BudgetHook and CompactionBudget of agent/hooks/budget_hook.py.
pub mod Room
use sql_self_healing_agent.Prelude.{
  ℕ, ◌+◌, ◌≤◌, ◌<◌, String, ◌≡◌, refl, ◌↔◌, Bool, true, false, Option, none, some, [], arith, leb,
  ltb, if◌then◌else◌,
}
use sql_self_healing_agent.Agent.Models.{AgentRunState, AgentRunLimits}
use sql_self_healing_agent.Hooks.Models.{
  OperationType, OperationContext, OperationStatus, HookAction, HookDecision,
}

pub record CompactionBudget : Type 0 where
  pub max_calls : ℕ
  pub max_output_tokens : ℕ
  pub timeout_ms : ℕ
  pub call_count : ℕ

-- The hook's fields; the run state is shared with the runner.
pub record BudgetHook : Type 0 where
  pub run_state : Option AgentRunState
  pub limits : AgentRunLimits
  pub compaction_budget : CompactionBudget

abbrev pub proceed_decision : HookDecision
proceed_decision = record {
  action = HookAction.proceed;
  reason_code = none;
  message = none;
  metadata = [];
}

abbrev pub block_decision : String → Option String → HookDecision
block_decision reason message = record {
  action = HookAction.block;
  reason_code = some reason;
  message = message;
  metadata = [];
}

-- The table `checks`: whether an operation of this type is over its budget
unfoldable pub over_budget : AgentRunLimits → AgentRunState → OperationType → Bool
over_budget limits s OperationType.tool_call = leb limits.max_tool_calls s.tool_call_count
over_budget limits s OperationType.sub_agent_run =
    leb limits.max_sub_agent_calls s.sub_agent_call_count
over_budget limits s OperationType.gate_run = ltb limits.max_gate_repair_rounds s.gate_repair_rounds
over_budget limits s OperationType.llm_call = leb limits.max_wall_time_ms s.wall_time_ms
over_budget limits s OperationType.context_compaction = false

before_run : BudgetHook → Option AgentRunState → OperationType → HookDecision
before_run hook none type = proceed_decision
before_run hook (some s) type =
    if over_budget hook.limits s type
    then block_decision "OPERATION_BUDGET_EXCEEDED" none
    else proceed_decision

before_compaction : CompactionBudget → HookDecision
before_compaction b =
    if leb b.max_calls b.call_count
    then block_decision "COMPACTION_BUDGET_EXCEEDED" none
    else proceed_decision

-- BudgetHook.before
unfoldable pub budget_before : BudgetHook → OperationContext → HookDecision
unfolding before_run before_compaction
budget_before hook operation = elim operation.operation_type [
  | OperationType.context_compaction ↦ before_compaction hook.compaction_budget
  | _ ↦ before_run hook hook.run_state operation.operation_type
]

abbrev is_compaction : OperationType → Bool
is_compaction OperationType.context_compaction = true
is_compaction _ = false

abbrev is_llm_call : OperationType → Bool
is_llm_call OperationType.llm_call = true
is_llm_call _ = false

abbrev succeeded : OperationStatus → Bool
succeeded OperationStatus.succeeded = true
succeeded _ = false

count_compaction : OperationContext → CompactionBudget → CompactionBudget
count_compaction operation b =
    if is_compaction operation.operation_type
    then (if succeeded operation.status then record b { call_count = b.call_count + 1 } else b)
    else b

count_llm_call : OperationContext → Option AgentRunState → Option AgentRunState
count_llm_call operation none = none
count_llm_call operation (some s) =
    if is_llm_call operation.operation_type
    then some (record s { llm_call_count = s.llm_call_count + 1 })
    else some s

-- BudgetHook.after
unfoldable pub budget_after : BudgetHook → OperationContext → BudgetHook
unfolding count_compaction count_llm_call
budget_after hook operation = record hook {
  run_state = count_llm_call operation hook.run_state;
  compaction_budget = count_compaction operation hook.compaction_budget;
}
