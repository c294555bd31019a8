-- ===== src/Domain.antt =====
-- packages/core/src/domain: the values that the other parts exchange.
pub mod Issue
pub mod Telemetry
pub mod Handoff
pub mod Execution
pub mod Retention
