-- ===== src/Hooks/Retry.antt =====
-- LLMRetryHook of llm/retry_hook.py. The operation is a parameter that may change a state `W`; it
-- returns a value, raises an LLMClientError of some type, or raises another exception.
pub mod Bounds
use sql_self_healing_agent.Prelude.{
  ℕ, zero, suc, ◌+◌, String, Bool, true, false, ◌&&◌, Option, none, some, ltb, if◌then◌else◌,
}

-- LLMErrorType of llm/llm_client.py
pub data LlmErrorType : Type 0 where
  schema_error transient_error timeout auth_error invalid_request service_error : LlmErrorType

pub data Called (W T : Type 0) : Type 0 where
  value : W → T → Called W T
  client_error : W → LlmErrorType → Called W T
  other_error : W → Called W T

pub data Retried (W T : Type 0) : Type 0 where
  completed : W → T → Retried W T
  gave_up : W → LlmErrorType → Retried W T
  escaped : W → Retried W T
  exhausted : Retried W T

pub record RetryLimits : Type 0 where
  pub max_schema_retries : ℕ
  pub max_transient_retries : ℕ

-- The defaults of LLMRetryHook
abbrev pub default_retries : RetryLimits
default_retries = record { max_schema_retries = 1; max_transient_retries = 2 }

abbrev pub is_schema : LlmErrorType → Bool
is_schema LlmErrorType.schema_error = true
is_schema _ = false

abbrev pub is_transient : LlmErrorType → Bool
is_transient LlmErrorType.transient_error = true
is_transient LlmErrorType.timeout = true
is_transient LlmErrorType.service_error = true
is_transient _ = false

abbrev pub schema_feedback_text : String
schema_feedback_text = "上一次输出未通过结构化 Schema，仅返回合法 JSON。"

module _ {W T : Type 0} (limits : RetryLimits) (operation : Option String → W → Called W T) where
  -- What is done with the outcome of a call; `loop` makes the next one.
  unfoldable pub settle :
      (ℕ → ℕ → Option String → W → Retried W T) → ℕ → ℕ → Option String → Called W T → Retried W T
  settle loop transient schema feedback (value w t) = completed w t
  settle loop transient schema feedback (other_error w) = escaped w
  settle loop transient schema feedback (client_error w e) =
      let again_schema = loop transient (schema + 1) (some schema_feedback_text) w in
      let again_transient = loop (transient + 1) schema feedback w in
      if is_schema e && ltb schema limits.max_schema_retries
      then again_schema
      else if is_transient e && ltb transient limits.max_transient_retries
      then again_transient
      else gave_up w e

  -- The `while True` of `run`, from counts of the retries made
  unfoldable pub retry_loop : ℕ → ℕ → ℕ → Option String → W → Retried W T
  retry_loop zero transient schema feedback w = exhausted
  retry_loop (suc fuel) transient schema feedback w =
      settle (retry_loop fuel) transient schema feedback (operation feedback w)

  -- LLMRetryHook.run, with fuel for the first call and for every retry
  unfoldable pub run : W → Retried W T
  unfolding retry_loop
  run w = retry_loop (suc (limits.max_schema_retries + limits.max_transient_retries)) 0 0 none w
