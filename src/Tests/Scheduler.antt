-- ===== src/Tests/Scheduler.antt =====
-- Runs of the theorems about the scheduler.
use Prim.Native.Nat.{compare}
use mathlib.Core.List.{Perm}
use sloppenheimer_ts.Base.{
  ℕ, String, ◌≡◌, refl, ◌≤◌, ◌+◌, true, false, List, [], ◌∷◌, ◌++◌, ℕ_discrete, string_discrete,
  none, some, arith, if◌then◌else◌, ◌==◌, leb, string_eq, nat_eq, count, length, All,
}
use sloppenheimer_ts.Collections.{get, has, with_entry}
use sloppenheimer_ts.Domain.Issue.{Issue}
use sloppenheimer_ts.Domain.Telemetry.{no_usage}
use sloppenheimer_ts.Scheduler.State.{
  RuntimeState, RunningEntry, RetainedWorkspaceEntry, DeliveryEntry, initial_state, preparing,
}
use sloppenheimer_ts.Scheduler.Policy.{
  dispatch_admission, issue_is_paused, issue_is_active, issue_is_routable, state_is_in, has_slot,
  used_in, TextRules, WorkflowConfig, sort_issues,
}
use sloppenheimer_ts.Scheduler.Policy.Sorting.{
  IsLocaleOrder, InOrder, MayPrecede, sort_issues-IsSorted,
}
use sloppenheimer_ts.Scheduler.Scheduling.{timer}
use sloppenheimer_ts.Scheduler.Polling.{
  PollEvent, asks_tick, asks_refresh, offers_tick, loop_steps, poll_steps, at_start,
}
use sloppenheimer_ts.Scheduler.Polling.Ticks.{IsQuiet, busy, one_tick}
use sloppenheimer_ts.Scheduler.Polling.Drain.{IsAtRest, loops, poll_loop_drains}
use sloppenheimer_ts.Scheduler.Polling.Waiters.{answered_times, asks, refreshes_answered}
use sloppenheimer_ts.Scheduler.Polling.Freshness.{IsFresh, refreshes_are_timely}
use sloppenheimer_ts.Scheduler.Runs.{begin_run, take_run_id}
use sloppenheimer_ts.Scheduler.Runs.Trace.{
  RunEvent, dispatches, continues, proceeds, meets_conflict, reserves, exits, launcher_of,
  run_steps, run_step, all_ended, meet_conflict, try_dispatch, give_slot, step_dispatch,
  refused_before_claim, reserve_slot, waiting_for, without_run,
}
use sloppenheimer_ts.Scheduler.Runs.Bounds.{running_bounded, contended}
use sloppenheimer_ts.Scheduler.Runs.Exits.{run_ends_once}
use sloppenheimer_ts.Scheduler.Workspaces.{forget_retained_workspaces}
use sloppenheimer_ts.Scheduler.Workspaces.Passes.{
  record_counts, removal_overtakes_counts, PruneEvent, all_starts, all_stops, one_if, prune_steps,
  prune_passes_balance,
}
use sloppenheimer_ts.Scheduler.Workspaces.Passes
use sloppenheimer_ts.Scheduler.Retries.Deliveries
use sloppenheimer_ts.Scheduler.Retries.Deliveries.{
  delivery_settles_once, delivery_steps, sum_over, settled, begun, publishing,
}
use sloppenheimer_ts.Tests.Sorting.{insertion_sort, insertion_sort-IsArraySort}
use sloppenheimer_ts.Tests.Data.{issue, execution}

abbrev start : RuntimeState
start = record (initial_state [] false) { startup_recovery_finished = true }

quiet : IsQuiet start
unfolding initial_state
quiet = record {
  not_queued = refl;
  not_running = refl;
  not_owed = refl;
  no_current = refl;
  no_next = refl;
}

-- A refresh joins the tick of a timer, and another arrives while the poll runs.
abbrev polls : List PollEvent
polls =
    asks_tick timer
    ∷ asks_refresh 5
    ∷ offers_tick
    ∷ loop_steps
    ∷ loop_steps
    ∷ asks_refresh 6
    ∷ loop_steps
    ∷ []

one_tick_example :
    (poll_steps polls (at_start start)).ticks
      + (poll_steps polls (at_start start)).offers
      + busy (poll_steps polls (at_start start)).stage
    ≡ (if (poll_steps polls (at_start start)).state.tick_queued then 1 else 0)
one_tick_example = one_tick start polls quiet

poll_loop_drains_example :
    IsAtRest (poll_steps (offers_tick ∷ loops 10) (poll_steps polls (at_start start)))
poll_loop_drains_example = poll_loop_drains start polls quiet

refreshes_answered_example :
    answered_times 6
      (poll_steps (offers_tick ∷ loops 10) (poll_steps polls (at_start start))).answers
    ≡ count 6 (asks polls)
refreshes_answered_example = refreshes_answered start polls 6 quiet

refreshes_are_timely_example : All IsFresh (poll_steps polls (at_start start)).answers
refreshes_are_timely_example = refreshes_are_timely start polls quiet

-- Texts are compared by how their first letter of two stands.
abbrev rank : String → ℕ
rank s = if s == "repo#7" then 1 else 0

abbrev rules : TextRules
rules = record {
  normalize = λ s. s;
  issue_number = λ s. if s == "repo#7" then some 7 else none;
  locale_compare = λ s t. compare (rank s) (rank t);
}

by_rank : IsLocaleOrder rules.locale_compare
by_rank = record { total = λ s t h. ground arith; trans = λ s t u h k. ground arith }

abbrev urgent : Issue
urgent = record issue { id = "I8"; identifier = "repo#8"; priority = some 1 }

sort_issues-IsSorted_example :
    Perm (sort_issues rules insertion_sort (issue ∷ urgent ∷ [])) (issue ∷ urgent ∷ [])
    × InOrder (MayPrecede rules) (sort_issues rules insertion_sort (issue ∷ urgent ∷ []))
sort_issues-IsSorted_example =
    sort_issues-IsSorted rules by_rank insertion_sort (issue ∷ urgent ∷ [])
      insertion_sort-IsArraySort

abbrev config : WorkflowConfig
config = record {
  tracker = record {
    required_labels = [];
    active_states = "open" ∷ [];
    terminal_states = "closed" ∷ [];
  };
  max_concurrent_agents = 1;
  max_concurrent_agents_by_state = [];
}

abbrev entry : RunningEntry
entry = record {
  run_id = 0;
  issue = issue;
  execution = execution;
  attempt = none;
  repair_run = false;
  started_at = 10;
  phase = preparing;
  last_event_at = none;
  last_event = none;
  last_message = none;
  process_id = none;
  thread_id = none;
  turn_id = none;
  session_id = none;
  turn_count = 0;
  turn_active = false;
  tokens = no_usage;
  last_reported_tokens = no_usage;
}

-- A dispatch finds the one slot, a conflict repair takes it, and the dispatch begins all the same. Then
-- the exit of its run is reported twice, and the run is continued.
abbrev runs : List RunEvent
runs =
    meets_conflict (record entry { issue = urgent })
    ∷ dispatches config entry
    ∷ proceeds
    ∷ reserves config 1
    ∷ proceeds
    ∷ proceeds
    ∷ []

abbrev more : List RunEvent
more = exits "I7" (some 2) ∷ exits "I7" (some 2) ∷ continues config entry ∷ []

-- The maximum of one is exceeded.
two_runs : length (run_steps rules runs (launcher_of start)).state.running ≡ 2
unfolding run_steps run_step meet_conflict take_run_id try_dispatch dispatch_admission
    issue_is_paused issue_is_active issue_is_routable state_is_in has_slot used_in give_slot
    step_dispatch refused_before_claim reserve_slot waiting_for without_run begin_run has get
    with_entry initial_state string_discrete ℕ_discrete
two_runs = refl

running_bounded_example :
    length (run_steps rules runs (launcher_of start)).state.running ≤ 1 + contended runs
unfolding initial_state
running_bounded_example =
    running_bounded rules 1 runs start (tt, (omega arith, (tt, (omega arith, (tt, (tt, tt))))))
      (ground arith)

run_ends_once_example :
    count 2 (all_ended rules (runs ++ more) (launcher_of start))
    ≤ (if leb start.next_run_id 2 then 1 else 0)
unfolding initial_state
run_ends_once_example = run_ends_once rules 2 (runs ++ more) start refl

abbrev counted : RetainedWorkspaceEntry
counted = record { issue_id = "I7"; identifier = "repo#7"; count = 2; bytes = 9; observed_at = 30 }

-- Two runs had begun, and the second of them counts after the removal.
abbrev begun_twice : RuntimeState
begun_twice = record start { next_run_id = 3; retained_workspaces = ("I7", counted) ∷ [] }

removal_overtakes_counts_example :
    get
      (record_counts
        ((counted, 2) ∷ [])
        (forget_retained_workspaces "I7" begun_twice)).retained_workspaces
      "I7"
    ≡ none
unfolding initial_state has
removal_overtakes_counts_example =
    removal_overtakes_counts "I7" ((counted, 2) ∷ []) begun_twice (refl, tt) tt (ground arith, tt)

abbrev passes : List PruneEvent
passes =
    Passes.asks 1
    ∷ Passes.asks 2
    ∷ Passes.finishes
    ∷ Passes.finishes
    ∷ Passes.asks 3
    ∷ Passes.gives_up
    ∷ []

prune_passes_balance_example :
    all_starts "I7" passes start + one_if (has start.prune_runs "I7")
    ≡ all_stops "I7" passes start + one_if (has (prune_steps "I7" passes start).prune_runs "I7")
unfolding initial_state
prune_passes_balance_example = prune_passes_balance "I7" passes start tt

abbrev delivery : DeliveryEntry
delivery = record {
  issue = issue;
  execution = execution;
  prepared = 1;
  attempt = 1;
  worker_attempt = none;
  due_at = 100;
  failure = record {
    category = "push_rejected";
    message = "rejected";
    retryable = true;
    worktree_preserved = true;
  };
  changed_file_count = some 2;
  repair_run = false;
  observed_at = 90;
  publishing_since = none;
  armed = true;
}

abbrev settlements : List Deliveries.DeliveryEvent
settlements =
    Deliveries.schedules delivery
    ∷ Deliveries.comes_due "I7" 1
    ∷ Deliveries.begins "I7" 1 120
    ∷ Deliveries.settles "I7" 1
    ∷ Deliveries.settles "I7" 1
    ∷ []

delivery_settles_once_example :
    sum_over settled "I7" settlements start
      + publishing (get (delivery_steps settlements start).deliveries "I7")
    ≤ sum_over begun "I7" settlements start + publishing (get start.deliveries "I7")
unfolding initial_state
delivery_settles_once_example = delivery_settles_once "I7" settlements start tt
