-- ===== src/Domain/Handoff.antt =====
-- packages/core/src/domain/handoff.ts: the states of a handoff and the snapshot that is persisted.
use sloppenheimer_ts.Base.{ℕ, String, Bool, List, Option}

pub data HandoffState : Type 0 where
  merged closed_without_merge awaiting_checks repair_needed rebase_needed : HandoffState
  ready_to_merge merging intervention_required delivery_failed : HandoffState

pub HandoffState-discrete : Discrete HandoffState
HandoffState-discrete = hlevel

pub data RepairPublication : Type 0 where
  pending published no_changes delivery_failed : RepairPublication

pub record HandoffSnapshot : Type 0 where
  pub issue_id : String
  pub identifier : String
  pub pull_request_url : String
  pub branch_name : String
  pub state : HandoffState
  pub head_sha : Option String
  pub reason : Option String
  pub repair_attempts : ℕ
  pub repair_head_shas : Option (List String)
  pub repair_observed_head_shas : Option (List String)
  pub repair_started_head_sha : Option String
  pub repair_worker_started : Option Bool
  pub repair_publication : Option RepairPublication
  pub repair_published_head_sha : Option String
  pub review_requested_head_sha : Option String
  pub review_completed_head_sha : Option String
  pub observed_at : ℕ
