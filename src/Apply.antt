-- ===== src/Apply.antt =====
-- Applying recommendations: the levers, the rows of the database that a change touches, the eval
-- gate, change requests, execution policies, and the transitions of a recommendation.
pub mod Records
pub mod EvalGate
pub mod Governance
pub mod Policies
pub mod Savings
pub mod Transitions
