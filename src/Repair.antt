-- ===== src/Repair.antt =====
-- The repair package: plans, candidates and their static and semantic assessment.
pub mod Models
pub mod Words
pub mod Apply
pub mod Normalize
pub mod Diff
pub mod Validator
pub mod Evaluator
