-- ===== src/Service.antt =====
-- RepairAgentService of orchestrator/repair_agent_service.py, on the world of the session store.
pub mod Models
pub mod Results
pub mod Success
pub mod Recovery
pub mod Failed
pub mod Dispatch
pub mod Closing
pub mod Replay
pub mod Answers
