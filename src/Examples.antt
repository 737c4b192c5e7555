-- ===== src/Examples.antt =====
-- Concrete inputs on which the theorems of the components are applied.
mod Data
mod Repair
mod Agent
mod Gates
mod Runner
mod Hooks
mod SubAgents
mod Sessions
mod Tools
