-- ===== src/Payload.antt =====
-- What the gateway reads in the body of a request: JSON values, the predicate of smart routing, the
-- facts for the planner, the safety of a route across providers, and the trimming of a prompt.
pub mod Json
pub mod Nesting
pub mod Predicate
pub mod Facts
pub mod Wire
pub mod Dialects
pub mod CrossProvider
pub mod Whitespace
pub mod Equality
pub mod Trim
pub mod Stream
pub mod Gemini
