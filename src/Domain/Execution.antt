-- ===== src/Domain/Execution.antt =====
-- `ExecutionSnapshot` of packages/core/src/core/state.ts: what a run captured of the workflow that
-- it was dispatched under. The ports and the runner's settings are not modelled; `id` stands for the
-- captured instances.
use sloppenheimer_ts.Base.{ℕ, String, List}

pub record ExecutionSnapshot : Type 0 where
  pub id : ℕ
  pub required_labels : List String
  pub active_states : List String
  pub terminal_states : List String
  pub max_turns : ℕ
  pub stall_timeout_ms : ℕ
