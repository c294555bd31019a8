-- ===== src/Scheduler/Workspaces.antt =====
-- packages/core/src/core/transitions/workspaces.ts: what each issue keeps on disk, and the passes over
-- it.
pub mod Passes
use sloppenheimer_ts.Base.{
  ℕ, String, Bool, true, false, Option, none, some, ◌==◌, ltb, if◌then◌else◌, nat_eq, string_eq,
}
use sloppenheimer_ts.Collections.{get, has, with_entry, without_entry, with_capped_entry}
use sloppenheimer_ts.Scheduler.State.{RuntimeState, RetainedWorkspaceEntry}

abbrev pub recorded_workspace_removals : ℕ
recorded_workspace_removals = 500

-- `state.workspaceRemovals.get(id) ?? 0`.
abbrev pub removed_before : Option ℕ → ℕ
removed_before none = 0
removed_before (some run_id) = run_id

unfoldable pub record_retained_workspaces : RetainedWorkspaceEntry → ℕ → RuntimeState → RuntimeState
record_retained_workspaces entry run_id state =
    if ltb run_id (removed_before (get state.workspace_removals entry.issue_id))
    then state
    else record state {
      retained_workspaces =
          if entry.count == 0
          then without_entry state.retained_workspaces entry.issue_id
          else with_entry state.retained_workspaces entry.issue_id entry;
    }

unfoldable pub forget_retained_workspaces : String → RuntimeState → RuntimeState
unfolding with_capped_entry
forget_retained_workspaces id state = record state {
  retained_workspaces = without_entry state.retained_workspaces id;
  prune_runs = without_entry state.prune_runs id;
  workspace_removals =
      with_capped_entry state.workspace_removals id state.next_run_id recorded_workspace_removals;
}

unfoldable pub admit_prune : String → ℕ → RuntimeState → Bool × RuntimeState
admit_prune id run_id state =
    if has state.prune_runs id
    then (false, record state { prune_runs = with_entry state.prune_runs id (some run_id) })
    else (true, record state { prune_runs = with_entry state.prune_runs id none })

unfoldable pub take_prune_request : String → RuntimeState → Option ℕ × RuntimeState
take_prune_request id state = elim (get state.prune_runs id) [
  | some (some owed) ↦
      (some owed, record state { prune_runs = with_entry state.prune_runs id none })
  | other ↦ (none, record state { prune_runs = without_entry state.prune_runs id })
]

unfoldable pub release_prune_run : String → RuntimeState → RuntimeState
release_prune_run id state = record state { prune_runs = without_entry state.prune_runs id }
