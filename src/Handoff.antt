-- ===== src/Handoff.antt =====
-- The pull request that follows a run: what an observation of it says, what the host keeps of it,
-- and what it does next.
pub mod Observation
pub mod Entry
pub mod Action
pub mod Attribution
pub mod Review
pub mod Decision
pub mod Perform
pub mod Life
