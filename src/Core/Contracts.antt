-- ===== src/Core/Contracts.antt =====
-- What the validator of `AgentExternalResult` (core/models.py) accepts.
use sql_self_healing_agent.Prelude.{◌≡◌, ◌↔◌, true, false, some, is_none, arith}
use sql_self_healing_agent.Core.{
  AgentExternalResult, ResultStatus, has_text, validate_status_fields,
}

-- The contract that a caller may rely on.
pub record HonoursContract (r : AgentExternalResult) : Type 0 where
  pub ready_has_sql : r.status ≡ ResultStatus.sql_ready → has_text r.sql ≡ true
  pub sql_only_if_ready : is_none r.sql ≡ false → r.status ≡ ResultStatus.sql_ready
  pub human_has_message : r.status ≡ ResultStatus.human_required → has_text r.message ≡ true

-- A result passes validation exactly when it honours the contract: a SQL_READY result has a
-- non-blank SQL text, no other result has a SQL text, and HUMAN_REQUIRED has a non-blank message.
pub validate_status_fields_iff :
    (r : AgentExternalResult) → (validate_status_fields r ≡ some r) ↔ HonoursContract r
unfolding validate_status_fields
validate_status_fields_iff r = (
  λ h. record {
    ready_has_sql = λ e. ground arith;
    sql_only_if_ready = λ e. ground arith;
    human_has_message = λ e. ground arith;
  },
  λ c. ground (arith),
)
