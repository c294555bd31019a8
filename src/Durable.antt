-- ===== src/Durable.antt =====
-- The durable workflow of one issue: packages/core/src/domain/durable-workflow.ts and
-- packages/core/src/core/durable.
pub mod Types
pub mod Store
pub mod Transition
pub mod Controller
pub mod Settlement
pub mod Admission
pub mod Host
pub mod Restore
pub mod External
pub mod Cleanup
