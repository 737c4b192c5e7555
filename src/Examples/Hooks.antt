-- ===== src/Examples/Hooks.antt =====
-- The theorems on retries and hooks at a flaky operation and at a refused tool call.
use sql_self_healing_agent.Prelude.{
  ℕ, zero, suc, ◌++◌, ◌+◌, ◌≤◌, String, ◌≡◌, refl, ◌↔◌, true, Option, none, some, List, [], ◌∷◌,
  arith,
}
use sql_self_healing_agent.Agent.Models.{default_limits}
use sql_self_healing_agent.Hooks.Models.{
  OperationType, Caller, OperationContext, OperationStatus, HookAction,
}
use sql_self_healing_agent.Hooks.Retry.{
  LlmErrorType, Called, value, client_error, default_retries, run,
}
use sql_self_healing_agent.Hooks.Retry.Bounds.{final_state, called_state, run-call_bound}
use sql_self_healing_agent.Hooks.Budget.{BudgetHook, block_decision, budget_before, over_budget}
use sql_self_healing_agent.Hooks.Budget.Room.{HasRoom, budget_before-proceed_iff}
use sql_self_healing_agent.Hooks.Safety.{safety_before, caller_allowed, search_forbidden}
use sql_self_healing_agent.Hooks.Safety.Policy.{IsSafe, safety_before-proceed_iff}
use sql_self_healing_agent.Hooks.Manager.{
  hook_blocked, Answer, ok, raises, Hook, run_after, execute_operation, decide, run_before,
}
use sql_self_healing_agent.Hooks.Manager.Outcomes.{Passes, nothing_left, execute_operation-value}
use sql_self_healing_agent.Hooks.Manager.Blocked.{execute_operation-blocked}
use sql_self_healing_agent.Hooks.Standard.{Tracer, standard_hooks, execute_operation-checked}
use sql_self_healing_agent.Examples.Data.{fresh_state}
use sql_self_healing_agent.Repair.Words.{take_word}

-- The first call times out and the second returns a text; the state counts the calls.
abbrev flaky : Option String → ℕ → Called ℕ String
flaky f zero = client_error 1 LlmErrorType.timeout
flaky f (suc n) = value (suc n + 1) "plan"

flaky_counts : (f : Option String) (w : ℕ) → called_state (flaky f w) ≡ w + 1
flaky_counts f zero = refl
flaky_counts f (suc n) = omega arith

run-call_bound_example :
    (w' : ℕ) × (final_state (run default_retries flaky 0) ≡ some w')
    × (0 + 1 ≤ w')
    × (w' ≤ 0 + suc (default_retries.max_schema_retries + default_retries.max_transient_retries))
run-call_bound_example = run-call_bound default_retries flaky (λ w. w) flaky_counts 0

abbrev operation : OperationContext
operation = record {
  operation_id = "op_1";
  operation_type = OperationType.tool_call;
  session_id = "s1";
  attempt_id = some "a1";
  parent_operation_id = none;
  caller = Caller.main_agent;
  purpose = "ReadLogTool";
  started_at = "2026-01-01";
  finished_at = none;
  status = OperationStatus.created;
  error_code = none;
  artifact_ref = none;
  input_summary = some "ReadLogTool";
  output_summary = none;
}

abbrev budget : BudgetHook
budget = record {
  run_state = some fresh_state;
  limits = default_limits;
  compaction_budget = record {
    max_calls = 2;
    max_output_tokens = 2000;
    timeout_ms = 10000;
    call_count = 0;
  };
}

budget_before_example :
    ((budget_before budget operation).action ≡ HookAction.proceed)
    ↔ HasRoom budget OperationType.tool_call
budget_before_example = budget_before-proceed_iff budget operation

abbrev compaction : OperationContext
compaction = record operation {
  operation_type = OperationType.context_compaction;
  caller = Caller.context_manager;
}

compaction_proceeds : (budget_before budget compaction).action ≡ HookAction.proceed
unfolding budget_before
compaction_proceeds = refl

safety_before_example : ((safety_before operation).action ≡ HookAction.proceed) ↔ IsSafe operation
safety_before_example = safety_before-proceed_iff operation

abbrev tracer : Tracer ℕ
tracer = record { started = λ o n. (n + 1, ok tt); finished = λ o n. n + 1 }

abbrev call : BudgetHook × ℕ → (BudgetHook × ℕ) × Answer String
call w = (w, ok "log")

abbrev running : OperationContext
running = record operation { status = OperationStatus.running }

call_returns :
    (execute_operation
      (λ s. s)
      "2026-01-02"
      (standard_hooks tracer none)
      operation
      call
      (budget, 0)).answer
    ≡ ok "log"
unfolding execute_operation run_before standard_hooks decide budget_before over_budget safety_before
    caller_allowed search_forbidden take_word
call_returns = refl

execute_operation-checked_example : HasRoom budget OperationType.tool_call × IsSafe running
execute_operation-checked_example =
    execute_operation-checked tracer none (λ s. s) "2026-01-02" operation call budget 0 "log"
      call_returns

execute_operation-value_example :
    (executed : List (Hook (BudgetHook × ℕ))) × (before : BudgetHook × ℕ) × (v : BudgetHook × ℕ)
    × Passes running (standard_hooks tracer none) [] (budget, 0) executed before
    × (call before ≡ (v, ok "log"))
execute_operation-value_example =
    execute_operation-value (λ s. s) "2026-01-02" (standard_hooks tracer none) operation call
      (budget, 0) "log" call_returns

abbrev refusing : Hook ℕ
refusing = record {
  applies_to = λ o. true;
  before = λ o n. (n + 1, ok (block_decision "OPERATION_BUDGET_EXCEEDED" none));
  after = λ o n. n + 10;
}

abbrev count_call : ℕ → ℕ × Answer String
count_call n = (n + 100, ok "log")

execute_operation-blocked_example :
    let r = execute_operation (λ s. s) "2026-01-02" ([] ++ refusing ∷ []) operation count_call 0 in
    (r.answer ≡ raises (hook_blocked "OPERATION_BUDGET_EXCEEDED"))
    × (r.operation.status ≡ OperationStatus.before_blocked)
    × (r.operation.error_code ≡ some "OPERATION_BUDGET_EXCEEDED")
    × (r.state ≡ run_after r.operation (refusing ∷ []) 1)
execute_operation-blocked_example =
    execute_operation-blocked (λ s. s) "2026-01-02" [] [] [] refusing operation count_call 0 0 1
      (block_decision "OPERATION_BUDGET_EXCEEDED" none) nothing_left refl refl refl
