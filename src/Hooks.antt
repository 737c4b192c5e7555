-- ===== src/Hooks.antt =====
-- The operation hooks of agent/hooks and the retries of llm/retry_hook.py.
pub mod Models
pub mod Retry
pub mod Budget
pub mod Safety
pub mod Manager
pub mod Standard
