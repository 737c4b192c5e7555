-- ===== src/Hooks/Safety/Policy.antt =====
-- The policy that SafetyHook (agent/hooks/safety_hook.py) enforces.
use sql_self_healing_agent.Prelude.{◌≡◌, ◌↔◌, ◌≢◌, true, false, arith, is_none, truthy}
use sql_self_healing_agent.Hooks.Models.{OperationType, OperationContext, Caller, HookAction}
use sql_self_healing_agent.Hooks.Safety.{caller_allowed, is_forbidden, safety_before}

-- What an operation needs to be safe.
pub record IsSafe (o : OperationContext) : Type 0 where
  pub sub_agent_by_main :
      o.operation_type ≡ OperationType.sub_agent_run → o.caller ≡ Caller.main_agent
  pub gate_by_runner : o.operation_type ≡ OperationType.gate_run → o.caller ≡ Caller.gate_runner
  pub compaction_by_manager :
      o.operation_type ≡ OperationType.context_compaction → o.caller ≡ Caller.context_manager
  pub has_session : truthy o.session_id ≡ true
  pub has_attempt :
      o.operation_type ≢ OperationType.context_compaction → is_none o.attempt_id ≡ false
  pub input_clean : is_forbidden o.input_summary ≡ false

-- The hook lets exactly the safe operations through: sub-agents are run by the main agent only, the
-- gate by the gate runner only, compactions by the context manager only; a session is named, and an
-- attempt unless it is a compaction; and the input has no forbidden text.
pub safety_before-proceed_iff :
    (o : OperationContext) → ((safety_before o).action ≡ HookAction.proceed) ↔ IsSafe o
unfolding safety_before caller_allowed
safety_before-proceed_iff o = (
  λ p. record {
    sub_agent_by_main = λ e. ground arith;
    gate_by_runner = λ e. ground arith;
    compaction_by_manager = λ e. ground arith;
    has_session = ground arith;
    has_attempt = λ e. ground arith;
    input_clean = ground arith;
  },
  λ safe. ground (
    arith, safe.sub_agent_by_main, safe.gate_by_runner, safe.compaction_by_manager,
    safe.has_session, safe.has_attempt, safe.input_clean,
  ),
)
