-- ===== src/Agent.antt =====
-- The agent package: its state (agent/models), its plan (agent/planning) and its runner.
pub mod Models
pub mod Graph
pub mod Planning
pub mod Updater
pub mod Runner
pub mod MainAgent
pub mod SubAgents
pub mod Tools
