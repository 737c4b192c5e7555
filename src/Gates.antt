-- ===== src/Gates.antt =====
-- The candidate gates (agent/gates): static validation, semantic reflection, the output contract,
-- the aggregation of their risks, and the runner that orders them.
pub mod Models
pub mod Static
pub mod Semantic
pub mod Output
pub mod Aggregate
pub mod Runner
