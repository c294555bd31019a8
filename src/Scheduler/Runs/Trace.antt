-- ===== src/Scheduler/Runs/Trace.antt =====
-- What may happen to the live runs. The mailbox handles one event at a time, so at most one dispatch is
-- under way: `dispatchCandidates` of core/polling/pass.ts, a due continuation of
-- core/polling/retry-due.ts or a repair of core/handoff-reconciliation.ts finds a slot, and then
-- core/dispatch.ts awaits the journal, the credentials and the prompt before it takes a number and
-- begins the run. Other fibers act in between: core/retained-conflict-worker.ts begins runs of its own,
-- and core/polling/rebase.ts takes numbers. Each event names the workflow that it asks.
use sloppenheimer_ts.Base.{
  ℕ, String, Bool, true, false, not, ◌&&◌, ◌||◌, [], ◌∷◌, ◌++◌, List, Option, none, some, ◌==◌,
  if◌then◌else◌, string_eq, nat_eq,
}
use sloppenheimer_ts.Collections.{has}
use sloppenheimer_ts.Domain.Issue.{Issue}
use sloppenheimer_ts.Domain.Telemetry.{AgentEvent}
use sloppenheimer_ts.Scheduler.State.{RuntimeState, RunningEntry, postflight}
use sloppenheimer_ts.Scheduler.Runs.{
  begin_run, take_run_id, end_run, update_run, note_postflight_started, apply_run_event,
}
use sloppenheimer_ts.Scheduler.Policy.{
  TextRules, WorkflowConfig, admit, refuse, dispatch_admission, issue_is_paused, issue_is_active,
  issue_is_routable, has_slot,
}

-- Where the dispatch that is under way stands: a slot was found, the issue was not refused, and a
-- number was taken. The entry is what the run begins with.
pub data DispatchStage : Type 0 where
  idle : DispatchStage
  slotted entered numbered : RunningEntry → DispatchStage

-- `conflicts` are the conflict repairs that have a number and wait for a slot.
pub record Launcher : Type 0 where
  pub state : RuntimeState
  pub stage : DispatchStage
  pub conflicts : List RunningEntry

pub data RunEvent : Type 0 where
  -- A candidate, a due continuation or a repair looks for a slot.
  dispatches continues repairs : WorkflowConfig → (entry : RunningEntry) → RunEvent
  -- The dispatch goes on, or the journal, the credentials or the prompt end it.
  proceeds gives_up : RunEvent
  -- A conflict repair takes its number, tries to begin, and is cancelled.
  meets_conflict : RunningEntry → RunEvent
  reserves : WorkflowConfig → ℕ → RunEvent
  is_cancelled : ℕ → RunEvent
  takes_number : RunEvent
  exits : String → Option ℕ → RunEvent
  reports : String → AgentEvent → RunEvent
  enters_postflight : String → ℕ → ℕ → RunEvent

-- The numbers of the runs that an event ends.
unfoldable pub ended : RunEvent → RuntimeState → List ℕ
ended (exits id expected) state = elim (end_run id expected state).0 [
  | some entry ↦ entry.run_id ∷ []
  | none ↦ []
]
ended e state = []

unfoldable pub waiting_for : ℕ → List RunningEntry → Option RunningEntry
waiting_for run_id [] = none
waiting_for run_id (entry ∷ rest) =
    let later = waiting_for run_id rest in if entry.run_id == run_id then some entry else later

unfoldable pub without_run : ℕ → List RunningEntry → List RunningEntry
without_run run_id [] = []
without_run run_id (entry ∷ rest) =
    let later = without_run run_id rest in if entry.run_id == run_id then rest else entry ∷ later

-- An event of the mailbox waits while a dispatch is under way.
abbrev pub when_idle : DispatchStage → Launcher → Launcher → Launcher
when_idle idle next l = next
when_idle (slotted entry) next l = l
when_idle (entered entry) next l = l
when_idle (numbered entry) next l = l

unfoldable pub give_slot : Bool → RunningEntry → Launcher → Launcher
give_slot found entry l =
    if found then when_idle l.stage (record l { stage = slotted entry }) l else l

-- A conflict repair is registered with the number that it takes.
unfoldable pub meet_conflict : RunningEntry → Launcher → Launcher
unfolding take_run_id
meet_conflict entry l =
    let (run_id, reserved) = take_run_id l.state in
    record l { state = reserved; conflicts = record entry { run_id = run_id } ∷ l.conflicts }

module _ (text : TextRules) where
  -- A candidate of `dispatchCandidates`.
  unfoldable pub try_dispatch : WorkflowConfig → RunningEntry → Launcher → Launcher
  unfolding give_slot
  try_dispatch workflow entry l = elim (dispatch_admission text l.state entry.issue workflow) [
    | admit ↦ give_slot true entry l
    | refuse reason ↦ give_slot false entry l
  ]

  -- The end of `resumeContinuation` in retry-due.ts.
  unfoldable pub try_continuation : WorkflowConfig → RunningEntry → Launcher → Launcher
  unfolding give_slot
  try_continuation workflow entry l =
      let wanted =
        issue_is_active text entry.issue workflow.tracker
        && issue_is_routable text entry.issue workflow.tracker in
      if not wanted then l else give_slot (has_slot text l.state entry.issue workflow) entry l

  -- The end of a repair's dispatch in handoff-reconciliation.ts, which asks the handoff's workflow.
  unfoldable pub try_repair : WorkflowConfig → RunningEntry → Launcher → Launcher
  unfolding give_slot
  try_repair workflow entry l = give_slot (has_slot text l.state entry.issue workflow) entry l

  -- `refusedBeforeClaim` of dispatch.ts.
  unfoldable pub refused_before_claim : RuntimeState → Issue → Bool
  unfolding issue_is_paused
  refused_before_claim state issue = has state.running issue.id || issue_is_paused text state issue

  -- The next step of `runDispatch`.
  unfoldable pub step_dispatch : DispatchStage → Launcher → Launcher
  unfolding refused_before_claim take_run_id begin_run
  step_dispatch idle l = l
  step_dispatch (slotted entry) l =
      if refused_before_claim l.state entry.issue
      then record l { stage = idle }
      else record l { stage = entered entry }
  step_dispatch (entered entry) l =
      let (run_id, reserved) = take_run_id l.state in
      record l { state = reserved; stage = numbered (record entry { run_id = run_id }) }
  step_dispatch (numbered entry) l = record l { state = begin_run entry l.state; stage = idle }

  -- One try of `reserveSlot` of retained-conflict-worker.ts: the check and the begin are one update.
  unfoldable pub reserve_slot : WorkflowConfig → ℕ → Launcher → Launcher
  unfolding begin_run waiting_for without_run
  reserve_slot workflow run_id l = elim (waiting_for run_id l.conflicts) [
    | none ↦ l
    | some entry ↦
        if has l.state.running entry.issue.id || not (has_slot text l.state entry.issue workflow)
        then l
        else record l {
          state = begin_run (record entry { phase = postflight entry.started_at }) l.state;
          conflicts = without_run run_id l.conflicts;
        }
  ]

  unfoldable pub run_step : RunEvent → Launcher → Launcher
  unfolding try_dispatch try_continuation try_repair step_dispatch meet_conflict reserve_slot
  run_step (dispatches workflow entry) l = try_dispatch workflow entry l
  run_step (continues workflow entry) l = try_continuation workflow entry l
  run_step (repairs workflow entry) l = try_repair workflow entry l
  run_step proceeds l = step_dispatch l.stage l
  run_step gives_up l = record l { stage = idle }
  run_step (meets_conflict entry) l = meet_conflict entry l
  run_step (reserves workflow run_id) l = reserve_slot workflow run_id l
  run_step (is_cancelled run_id) l = record l { conflicts = without_run run_id l.conflicts }
  run_step takes_number l = record l { state = (take_run_id l.state).1 }
  run_step (exits id expected) l = record l { state = (end_run id expected l.state).1 }
  run_step (reports id update) l = record l {
    state = update_run id (λ entry. apply_run_event entry update) l.state;
  }
  run_step (enters_postflight id run_id at) l = record l {
    state = note_postflight_started id run_id at l.state;
  }

  unfoldable pub run_steps : List RunEvent → Launcher → Launcher
  unfolding run_step
  run_steps [] l = l
  run_steps (e ∷ es) l = run_steps es (run_step e l)

  unfoldable pub all_ended : List RunEvent → Launcher → List ℕ
  unfolding run_step ended
  all_ended [] l = []
  all_ended (e ∷ es) l = ended e l.state ++ all_ended es (run_step e l)

-- A launcher with nothing under way.
abbrev pub launcher_of : RuntimeState → Launcher
launcher_of state = record { state = state; stage = idle; conflicts = [] }
