-- ===== src/Engine.antt =====
-- The planner of the request path: backend/app/engine.
pub mod Types
pub mod CachePolicy
pub mod Classification
pub mod Candidates
pub mod Planner
pub mod Outcomes
