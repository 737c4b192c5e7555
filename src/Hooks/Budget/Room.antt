-- ===== src/Hooks/Budget/Room.antt =====
-- What BudgetHook (agent/hooks/budget_hook.py) lets through.
use sql_self_healing_agent.Prelude.{◌≤◌, ◌<◌, ◌≡◌, refl, ◌↔◌, false, Option, none, some, arith}
use sql_self_healing_agent.Agent.Models.{AgentRunState}
use sql_self_healing_agent.Hooks.Models.{OperationType, OperationContext, HookAction}
use sql_self_healing_agent.Hooks.Budget.{
  BudgetHook, before_run, before_compaction, over_budget, budget_before, budget_after,
}

-- Whether the budget has room for an operation of this type.
abbrev pub HasRoom : BudgetHook → OperationType → Type 0
HasRoom hook OperationType.context_compaction =
    hook.compaction_budget.call_count < hook.compaction_budget.max_calls
HasRoom hook OperationType.tool_call =
    (s : AgentRunState) → hook.run_state ≡ some s → s.tool_call_count < hook.limits.max_tool_calls
HasRoom hook OperationType.sub_agent_run =
    (s : AgentRunState)
    → hook.run_state ≡ some s
    → s.sub_agent_call_count < hook.limits.max_sub_agent_calls
HasRoom hook OperationType.gate_run =
    (s : AgentRunState)
    → hook.run_state ≡ some s
    → s.gate_repair_rounds ≤ hook.limits.max_gate_repair_rounds
HasRoom hook OperationType.llm_call =
    (s : AgentRunState) → hook.run_state ≡ some s → s.wall_time_ms < hook.limits.max_wall_time_ms

before_run-HasRoom :
    (hook : BudgetHook) (r : Option AgentRunState) (type : OperationType)
    → hook.run_state ≡ r
    → ((before_run hook r type).action ≡ HookAction.proceed)
      ↔ ((s : AgentRunState) → hook.run_state ≡ some s → over_budget hook.limits s type ≡ false)
unfolding before_run
before_run-HasRoom hook none type e = (λ p s f. cc, λ h. refl)
before_run-HasRoom hook (some t) type e =
    (λ p s f. (let same : t ≡ s = cc in rw (← same) (ground arith)), λ h. ground (arith, h t e))

by_type :
    (hook : BudgetHook) (operation : OperationContext) (type : OperationType)
    → operation.operation_type ≡ type
    → ((budget_before hook operation).action ≡ HookAction.proceed)
      ↔ HasRoom hook operation.operation_type
unfolding budget_before before_compaction over_budget
by_type hook operation OperationType.context_compaction e =
    rw e (λ p. ground arith, λ h. ground arith)
by_type hook operation OperationType.tool_call e =
    let (there, back) = before_run-HasRoom hook hook.run_state OperationType.tool_call refl in
    rw e (λ p s f. ground (arith, there p s f), λ h. back (λ s f. ground (arith, h s f)))
by_type hook operation OperationType.sub_agent_run e =
    let (there, back) = before_run-HasRoom hook hook.run_state OperationType.sub_agent_run refl in
    rw e (λ p s f. ground (arith, there p s f), λ h. back (λ s f. ground (arith, h s f)))
by_type hook operation OperationType.gate_run e =
    let (there, back) = before_run-HasRoom hook hook.run_state OperationType.gate_run refl in
    rw e (λ p s f. ground (arith, there p s f), λ h. back (λ s f. ground (arith, h s f)))
by_type hook operation OperationType.llm_call e =
    let (there, back) = before_run-HasRoom hook hook.run_state OperationType.llm_call refl in
    rw e (λ p s f. ground (arith, there p s f), λ h. back (λ s f. ground (arith, h s f)))

-- The hook lets an operation through exactly when its budget has room: for a compaction, fewer
-- compactions have succeeded than are allowed; for a tool call, a sub-agent, a gate or a model call
-- that belongs to a run, the count, the repair rounds or the time of the run are within the limit.
pub budget_before-proceed_iff :
    (hook : BudgetHook) (operation : OperationContext)
    → ((budget_before hook operation).action ≡ HookAction.proceed)
      ↔ HasRoom hook operation.operation_type
budget_before-proceed_iff hook operation = by_type hook operation operation.operation_type refl

-- An operation that was let through never takes the count of compactions over its limit.
pub budget_after-compactions :
    (hook : BudgetHook) (operation finished : OperationContext)
    → finished.operation_type ≡ operation.operation_type
    → (budget_before hook operation).action ≡ HookAction.proceed
    → hook.compaction_budget.call_count ≤ hook.compaction_budget.max_calls
    → (budget_after hook finished).compaction_budget.call_count ≤ hook.compaction_budget.max_calls
unfolding budget_after budget_before before_compaction
budget_after-compactions hook operation finished e p h = ground arith
