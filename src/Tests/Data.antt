-- ===== src/Tests/Data.antt =====
-- The issue, the workflow and the pull request that the runs are about.
use sloppenheimer_ts.Base.{true, [], ◌∷◌, none, some}
use sloppenheimer_ts.Domain.Issue.{Issue}
use sloppenheimer_ts.Domain.Execution.{ExecutionSnapshot}
use sloppenheimer_ts.Domain.Handoff.{HandoffState}
use sloppenheimer_ts.Durable.Types.{
  Operation, publish, Artifact, Repository, WorkflowStatus, queued, waiting, review, active,
  to_review, SourceControlTarget, normal, DurableWorkflow,
}
use sloppenheimer_ts.Durable.Transition.{Settlement, Outcome}
use sloppenheimer_ts.Durable.Store.{Store}
use sloppenheimer_ts.Durable.Host.{Host}
use sloppenheimer_ts.Handoff.Observation.{
  Observation, PullRequestCheck, CheckStatus, OpenPullRequest, opened, ReviewStatus,
}
use sloppenheimer_ts.Handoff.Entry.{HandoffEntry}

abbrev pub issue : Issue
issue = record {
  id = "I7";
  identifier = "repo#7";
  title = "Fix the parser";
  description = none;
  priority = none;
  state = "open";
  labels = [];
  blocked_by = [];
  dispatchable = true;
  created_at = none;
}

abbrev pub repository : Repository
repository = record {
  identity = none;
  branch_name = "issue-7";
  base_branch = "main";
  base_sha = "base";
  head_sha = "h1";
  tree_sha = some "t1";
}

-- The candidate that was verified, before its publication.
abbrev pub verified_artifact : Artifact
verified_artifact = record {
  id = "a";
  workspace_path = "/w/7";
  workspace_key = "7";
  baseline_sha = "base";
  candidate_revision = "t1";
  expected_remote_head = none;
  verified_revision = some "t1";
  published_head = none;
  remote_observation = none;
  publication_conflict = none;
  repository = some repository;
}

abbrev pub delivered_artifact : Artifact
delivered_artifact = record verified_artifact { published_head = some "h1" }

abbrev pub publication : Operation
publication = record {
  id = "I7:publish";
  generation = 4;
  kind = publish;
  input_revision = "t1";
  attempt = 0;
  timeout_ms = 900;
}

abbrev pub branch : SourceControlTarget
branch = normal "issue-7"

-- The workflow with its publication queued.
abbrev pub workflow : DurableWorkflow
workflow = record {
  issue_id = "I7";
  identifier = "repo#7";
  objective = "Fix the parser";
  revision = 3;
  intent = active;
  verification_required = true;
  after_publication = some to_review;
  run_target = some branch;
  owner = some "I7:run:1";
  completion = none;
  handoff = none;
  publication_recovery = none;
  external_operation = none;
  cleanup = none;
  status = queued publication;
  artifact = some verified_artifact;
  coding_attempts = 1;
  repair_attempts = 0;
  maximum_coding_attempts = 3;
  maximum_repair_attempts = 3;
  budget_deadline = 90000;
  last_progress_at = 10;
  last_failure_signature = none;
  repeated_failures = 0;
  updated_at = 10;
}

abbrev pub store : Store
store = record { rows = ("I7", workflow) ∷ []; history = workflow ∷ [] }

-- The report that the publication is done.
abbrev pub completion : Settlement
completion = record {
  operation_id = "I7:publish";
  generation = 4;
  outcome = Outcome.succeeded;
  next = WorkflowStatus.completed (some "h1");
  artifact = some delivered_artifact;
  failure_signature = none;
}

-- The workflow as it waits for its review, and a host that recorded it.
abbrev pub reviewing : DurableWorkflow
reviewing = record workflow { status = waiting review 0; artifact = some delivered_artifact }

abbrev pub host : Host
host = record {
  records = ("I7", reviewing) ∷ [];
  store = record { rows = ("I7", reviewing) ∷ []; history = reviewing ∷ [] };
  failure = none;
}

abbrev pub execution : ExecutionSnapshot
execution = record {
  id = 1;
  required_labels = [];
  active_states = "open" ∷ [];
  terminal_states = "closed" ∷ [];
  max_turns = 10;
  stall_timeout_ms = 1000;
}

abbrev pub handoff : HandoffEntry
handoff = record {
  issue = issue;
  execution = execution;
  pull_request_number = 12;
  pull_request_url = "https://example.test/12";
  branch_name = "issue-7";
  state = HandoffState.awaiting_checks;
  head_sha = some "h1";
  reason = none;
  repair_head_shas = [];
  repair_observed_head_shas = [];
  repair = none;
  rebase = none;
  review_requested_head_sha = some "h1";
  review_completed_head_sha = some "h1";
  observed_at = 10;
}

abbrev pub check : PullRequestCheck
check = record { name = "build"; status = CheckStatus.completed; conclusion = some "success" }

abbrev pub open_at_h1 : OpenPullRequest
open_at_h1 = record {
  url = "https://example.test/12";
  head_sha = "h1";
  mergeable = some true;
  merge_state = "clean";
}

abbrev pub observation : Observation
observation = record {
  number = 12;
  checks = check ∷ [];
  review_decision = none;
  review_threads = [];
  codex_review = some (record { head_sha = "h1"; status = ReviewStatus.completed });
  merged_at = none;
  pull_request = opened open_at_h1;
}
