-- ===== src/Scheduler.antt =====
-- The scheduler of packages/core/src/core: its state, the transitions of it, the poll that drives it
-- and the policy that admits an issue.
pub mod State
pub mod Claims
pub mod Runs
pub mod Retries
pub mod Workspaces
pub mod Scheduling
pub mod Polling
pub mod Policy
