-- ===== src/Tests.antt =====
-- Concrete runs of the theorems.
mod Data
mod Sorting
mod Durable
mod Journal
mod Handoffs
mod Codex
mod Scheduler
mod Retention
