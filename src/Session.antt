-- ===== src/Session.antt =====
-- Sessions, attempts and events: the session package, and the commit of a candidate.
pub mod Models
pub mod Keys
pub mod Numbers
pub mod World
pub mod Artifacts
pub mod Store
pub mod Commit
