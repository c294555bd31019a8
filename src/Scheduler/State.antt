-- ===== src/Scheduler/State.antt =====
-- packages/core/src/core/state.ts: the scheduler's state, without the agents' detail records, the
-- workflow in force and the ports that a reload replaces. Instants are milliseconds.
use sloppenheimer_ts.Base.{ℕ, String, Bool, false, [], List, Option, if◌then◌else◌}
use sloppenheimer_ts.Base.{length}
use sloppenheimer_ts.Collections.{Map, Set}
use sloppenheimer_ts.Domain.Issue.{Issue}
use sloppenheimer_ts.Domain.Execution.{ExecutionSnapshot}
use sloppenheimer_ts.Domain.Handoff.{HandoffSnapshot}
use sloppenheimer_ts.Domain.Telemetry.{Usage, no_usage, AgentEvent}
use sloppenheimer_ts.Handoff.Entry.{HandoffEntry}

pub data RunPhase : Type 0 where
  preparing : RunPhase
  agent : ℕ → RunPhase
  postflight : ℕ → RunPhase

-- The cell of session ports is not modelled.
pub record RunningEntry : Type 0 where
  pub run_id : ℕ
  pub issue : Issue
  pub execution : ExecutionSnapshot
  pub attempt : Option ℕ
  pub repair_run : Bool
  pub started_at : ℕ
  pub phase : RunPhase
  pub last_event_at : Option ℕ
  pub last_event : Option String
  pub last_message : Option String
  pub process_id : Option ℕ
  pub thread_id : Option String
  pub turn_id : Option String
  pub session_id : Option String
  pub turn_count : ℕ
  pub turn_active : Bool
  pub tokens : Usage
  pub last_reported_tokens : Usage

pub record CompletedEntry : Type 0 where
  pub issue_id : String
  pub identifier : String
  pub title : String
  pub url : Option String
  pub finished_at : ℕ
  pub pull_request_url : Option String

pub record RetainedWorkspaceEntry : Type 0 where
  pub issue_id : String
  pub identifier : String
  pub count : ℕ
  pub bytes : ℕ
  pub observed_at : ℕ

pub record RetryEntry : Type 0 where
  pub issue : Issue
  pub attempt : ℕ
  pub repair_run : Bool
  pub due_at : ℕ
  pub error : Option String

-- `DeliveryFailure` and `DeliveryEntry` of postflight.ts. `prepared` stands for the preparation that
-- the retained work belongs to.
pub record DeliveryFailure : Type 0 where
  pub category : String
  pub message : String
  pub retryable : Bool
  pub worktree_preserved : Bool

pub record DeliveryEntry : Type 0 where
  pub issue : Issue
  pub execution : ExecutionSnapshot
  pub prepared : ℕ
  pub attempt : ℕ
  pub worker_attempt : Option ℕ
  pub due_at : ℕ
  pub failure : DeliveryFailure
  pub changed_file_count : Option ℕ
  pub repair_run : Bool
  pub observed_at : ℕ
  pub publishing_since : Option ℕ
  pub armed : Bool

-- `seconds_running` is kept in milliseconds.
pub record TokenTotals : Type 0 where
  pub used : Usage
  pub milliseconds_running : ℕ

pub record HandoffRecoveryCounts : Type 0 where
  pub loaded : ℕ
  pub recovered : ℕ
  pub skipped : ℕ
  pub failed : ℕ

-- A caller that awaits a refresh: its Deferred, and how many polls had begun when it asked, which
-- no transition reads.
pub record Waiter : Type 0 where
  pub reply : ℕ
  pub asked_at : ℕ

pub record RuntimeState : Type 0 where
  pub running : Map String RunningEntry
  pub retries : Map String RetryEntry
  pub deliveries : Map String DeliveryEntry
  pub completed : Map String CompletedEntry
  pub retained_workspaces : Map String RetainedWorkspaceEntry
  pub workspace_removals : Map String ℕ
  pub prune_runs : Map String (Option ℕ)
  pub paused_issue_numbers : Set ℕ
  pub handoffs : Map String HandoffEntry
  pub totals : TokenTotals
  pub identifiers : Map String String
  pub pending_usage : Map String Usage
  pub pending_lifecycle : Map String (List AgentEvent)
  pub tick_queued : Bool
  pub poll_running : Bool
  pub follow_up_requested : Bool
  pub next_run_id : ℕ
  pub current_refresh_waiters : List Waiter
  pub next_refresh_waiters : List Waiter
  pub startup_recovery_finished : Bool
  pub store_read_failed : Bool
  pub recovery_counts : HandoffRecoveryCounts
  pub pending_restored_handoffs : List HandoffSnapshot
  pub recovery_resolved : Set String

abbrev pub remembered_identifiers : ℕ
remembered_identifiers = 500

unfoldable pub initial_state : List HandoffSnapshot → Bool → RuntimeState
initial_state restored store_read_failed = record {
  running = [];
  retries = [];
  deliveries = [];
  completed = [];
  retained_workspaces = [];
  workspace_removals = [];
  prune_runs = [];
  paused_issue_numbers = [];
  handoffs = [];
  totals = record { used = no_usage; milliseconds_running = 0 };
  identifiers = [];
  pending_usage = [];
  pending_lifecycle = [];
  tick_queued = false;
  poll_running = false;
  follow_up_requested = false;
  next_run_id = 1;
  current_refresh_waiters = [];
  next_refresh_waiters = [];
  startup_recovery_finished = false;
  store_read_failed = store_read_failed;
  recovery_counts = record {
    loaded = length restored;
    recovered = 0;
    skipped = 0;
    failed = if store_read_failed then 1 else 0;
  };
  pending_restored_handoffs = restored;
  recovery_resolved = [];
}
