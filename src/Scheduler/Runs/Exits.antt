-- ===== src/Scheduler/Runs/Exits.antt =====
-- A run's number is given once, and its exit is taken once.
use sloppenheimer_ts.Base.{
  ℕ, ◌+◌, ◌≤◌, ◌≡◌, refl, String, Bool, true, false, not, ◌&&◌, ◌||◌, [], ◌∷◌, List, Option, none,
  some, ◌==◌, leb, if◌then◌else◌, nat_eq, string_eq, arith, count, count-append, Option-cases,
  Bool-cases, inl, inr,
}
use sloppenheimer_ts.Collections.{Map, get, has, with_entry, without_entry}
use sloppenheimer_ts.Domain.Telemetry.{AgentEvent}
use sloppenheimer_ts.Scheduler.State.{RuntimeState, RunningEntry, postflight}
use sloppenheimer_ts.Scheduler.Runs.{
  begin_run, take_run_id, end_run, update_run, note_postflight_started, apply_run_event,
}
use sloppenheimer_ts.Scheduler.Policy.{
  TextRules, WorkflowConfig, DispatchAdmission, admit, refuse, dispatch_admission, has_slot,
  issue_is_active, issue_is_routable,
}
use sloppenheimer_ts.Scheduler.Runs.Trace.{
  RunEvent, dispatches, continues, repairs, proceeds, gives_up, meets_conflict, reserves,
  is_cancelled, takes_number, exits, reports, enters_postflight, DispatchStage, idle, slotted,
  entered, numbered, Launcher, launcher_of, waiting_for, without_run, give_slot, meet_conflict,
  try_dispatch, try_continuation, try_repair, refused_before_claim, step_dispatch, reserve_slot,
  ended, run_step, all_ended,
}

-- How many of the live runs have a number.
abbrev live : ℕ → Map String RunningEntry → ℕ
live r [] = 0
live r ((id, entry) ∷ m) = (if entry.run_id == r then 1 else 0) + live r m

abbrev live_at : ℕ → Option RunningEntry → ℕ
live_at r none = 0
live_at r (some entry) = if entry.run_id == r then 1 else 0

abbrev number_at : ℕ → RunningEntry → ℕ
number_at r entry = if entry.run_id == r then 1 else 0

live-with_entry :
    (r : ℕ) (m : Map String RunningEntry) (id : String) (entry : RunningEntry)
    → live r (with_entry m id entry) + live_at r (get m id)
      ≡ live r m + (if entry.run_id == r then 1 else 0)
unfolding with_entry get
live-with_entry r [] id entry = omega arith
live-with_entry r ((j, e) ∷ m) id entry = ground (arith, live-with_entry r m id entry)

live-without_entry :
    (r : ℕ) (m : Map String RunningEntry) (id : String)
    → live r (without_entry m id) + live_at r (get m id) ≡ live r m
unfolding without_entry get
live-without_entry r [] id = refl
live-without_entry r ((j, e) ∷ m) id = ground (arith, live-without_entry r m id)

-- What may still end with a number: a live run, or the run that is yet to take it.
to_end : ℕ → RuntimeState → ℕ
to_end r state = live r state.running + (if leb state.next_run_id r then 1 else 0)

begin_run-to_end :
    (r : ℕ) (entry : RunningEntry) (state : RuntimeState)
    → to_end r (begin_run entry state) ≤ to_end r state + number_at r entry
unfolding to_end begin_run
begin_run-to_end r entry state = omega (arith, live-with_entry r state.running entry.issue.id entry)

take_run_id-to_end :
    (r : ℕ) (state : RuntimeState)
    → to_end r (take_run_id state).1 + (if (take_run_id state).0 == r then 1 else 0)
      ≤ to_end r state
unfolding to_end take_run_id
take_run_id-to_end r state = ground arith

-- The number of the dispatch that is under way, and those of the waiting conflict repairs.
abbrev staged : ℕ → DispatchStage → ℕ
staged r idle = 0
staged r (slotted entry) = 0
staged r (entered entry) = 0
staged r (numbered entry) = number_at r entry

abbrev waiting : ℕ → List RunningEntry → ℕ
waiting r [] = 0
waiting r (entry ∷ rest) = number_at r entry + waiting r rest

unfoldable all_to_end : ℕ → Launcher → ℕ
all_to_end r l = to_end r l.state + staged r l.stage + waiting r l.conflicts

without_run-waiting :
    (r n : ℕ) (es : List RunningEntry) → waiting r (without_run n es) ≤ waiting r es
unfolding without_run
without_run-waiting r n [] = omega arith
without_run-waiting r n (e ∷ es) = ground (arith, without_run-waiting r n es)

waiting_for-waiting :
    (r n : ℕ) (es : List RunningEntry) (entry : RunningEntry)
    → waiting_for n es ≡ some entry
    → waiting r (without_run n es) + number_at r entry ≡ waiting r es
unfolding without_run waiting_for
waiting_for-waiting r n [] entry h = cc
waiting_for-waiting r n (e ∷ es) entry h = ground (arith, waiting_for-waiting r n es entry)

-- A run's entry is rewritten under its number.
replaced-to_end :
    (r : ℕ) (id : String) (entry new : RunningEntry) (state : RuntimeState)
    → get state.running id ≡ some entry
    → new.run_id ≡ entry.run_id
    → to_end r (record state { running = with_entry state.running id new }) ≡ to_end r state
unfolding to_end
replaced-to_end r id entry new state e h = ground (arith, live-with_entry r state.running id new)

update_run-to_end :
    (r : ℕ) (id : String) (update : RunningEntry → RunningEntry) (state : RuntimeState)
    → ((entry : RunningEntry) → (update entry).run_id ≡ entry.run_id)
    → to_end r (update_run id update state) ≡ to_end r state
unfolding update_run
update_run-to_end r id update state same = updated (get state.running id) refl
  where
    updated :
        (o : Option RunningEntry)
        → get state.running id ≡ o
        → to_end r (update_run id update state) ≡ to_end r state
    updated none e = rw (e, update_run)
    updated (some entry) e =
        rw (e, update_run) (replaced-to_end r id entry (update entry) state e (same entry))

note_postflight_started-to_end :
    (r : ℕ) (id : String) (run_id at : ℕ) (state : RuntimeState)
    → to_end r (note_postflight_started id run_id at state) ≡ to_end r state
unfolding note_postflight_started
note_postflight_started-to_end r id run_id at state = entered (get state.running id) refl
  where
    entered :
        (o : Option RunningEntry)
        → get state.running id ≡ o
        → to_end r (note_postflight_started id run_id at state) ≡ to_end r state
    entered none e = ground (arith, e)
    entered (some entry) e =
        ground (
          arith,
          e,
          replaced-to_end r id entry (record entry { phase = postflight at }) state e refl,
        )

exits-to_end :
    (r : ℕ) (id : String) (expected : Option ℕ) (state : RuntimeState)
    → count r (ended (exits id expected) state) + to_end r (end_run id expected state).1
      ≤ to_end r state
unfolding ended to_end end_run
exits-to_end r id expected state = exited (get state.running id) refl
  where
    exited :
        (o : Option RunningEntry)
        → get state.running id ≡ o
        → count r (ended (exits id expected) state) + to_end r (end_run id expected state).1
          ≤ to_end r state
    exited none e = ground (arith, e)
    exited (some entry) e = ground (arith, e, live-without_entry r state.running id)

apply_run_event-run_id :
    (update : AgentEvent) (entry : RunningEntry)
    → (apply_run_event entry update).run_id ≡ entry.run_id
unfolding apply_run_event
apply_run_event-run_id update entry = refl

give_slot-all_to_end :
    (r : ℕ) (found : Bool) (entry : RunningEntry) (l : Launcher)
    → all_to_end r (give_slot found entry l) ≤ all_to_end r l
unfolding give_slot all_to_end
give_slot-all_to_end r false entry l = omega arith
give_slot-all_to_end r true entry l = given l.stage refl
  where
    given :
        (s : DispatchStage) → l.stage ≡ s → all_to_end r (give_slot true entry l) ≤ all_to_end r l
    given idle e = rw e (omega arith)
    given (slotted other) e = rw e (omega arith)
    given (entered other) e = rw e (omega arith)
    given (numbered other) e = rw e (omega arith)

meet_conflict-all_to_end :
    (r : ℕ) (entry : RunningEntry) (l : Launcher)
    → all_to_end r (meet_conflict entry l) ≤ all_to_end r l
unfolding meet_conflict all_to_end
meet_conflict-all_to_end r entry l = omega (arith, take_run_id-to_end r l.state)

module _ (text : TextRules) where
  step_dispatch-all_to_end :
      (r : ℕ) (s : DispatchStage) (l : Launcher)
      → l.stage ≡ s
      → all_to_end r (step_dispatch text s l) ≤ all_to_end r l
  unfolding step_dispatch all_to_end
  step_dispatch-all_to_end r idle l e = omega arith
  step_dispatch-all_to_end r (slotted entry) l e =
      elim (Bool-cases (refused_before_claim text l.state entry.issue)) [
        | inl h ↦ rw (h, e) (omega arith)
        | inr h ↦ rw (h, e) (omega arith)
      ]
  step_dispatch-all_to_end r (entered entry) l e =
      rw e (omega (arith, take_run_id-to_end r l.state))
  step_dispatch-all_to_end r (numbered entry) l e =
      rw e (omega (arith, begin_run-to_end r entry l.state))

  reserve_slot-all_to_end :
      (r : ℕ) (workflow : WorkflowConfig) (n : ℕ) (l : Launcher)
      → all_to_end r (reserve_slot text workflow n l) ≤ all_to_end r l
  unfolding reserve_slot all_to_end
  reserve_slot-all_to_end r workflow n l = elim (Option-cases (waiting_for n l.conflicts)) [
    | inl e ↦ rw (e, reserve_slot) (omega arith)
    | inr (entry, e) ↦
        elim (Bool-cases (
          has l.state.running entry.issue.id || not (has_slot text l.state entry.issue workflow))) [
            | inl h ↦ rw (e, h, reserve_slot) (omega arith)
            | inr h ↦
                rw (e, h, reserve_slot)
                  (omega (
                    arith,
                    begin_run-to_end r (record entry { phase = postflight entry.started_at })
                        l.state,
                    waiting_for-waiting r n l.conflicts entry e,
                  ))
          ]
  ]

  try_dispatch-all_to_end :
      (r : ℕ) (workflow : WorkflowConfig) (entry : RunningEntry) (l : Launcher)
      → all_to_end r (try_dispatch text workflow entry l) ≤ all_to_end r l
  unfolding try_dispatch
  try_dispatch-all_to_end r workflow entry l =
      tried (dispatch_admission text l.state entry.issue workflow) refl
    where
      tried :
          (a : DispatchAdmission)
          → dispatch_admission text l.state entry.issue workflow ≡ a
          → all_to_end r (try_dispatch text workflow entry l) ≤ all_to_end r l
      tried admit e = rw (e, try_dispatch) (give_slot-all_to_end r true entry l)
      tried (refuse reason) e = rw (e, try_dispatch) (give_slot-all_to_end r false entry l)

  try_continuation-all_to_end :
      (r : ℕ) (workflow : WorkflowConfig) (entry : RunningEntry) (l : Launcher)
      → all_to_end r (try_continuation text workflow entry l) ≤ all_to_end r l
  unfolding try_continuation
  try_continuation-all_to_end r workflow entry l =
      elim (Bool-cases (
        issue_is_active text entry.issue workflow.tracker
        && issue_is_routable text entry.issue workflow.tracker)) [
          | inl e ↦
              rw e (give_slot-all_to_end r (has_slot text l.state entry.issue workflow) entry l)
          | inr e ↦ rw e (omega arith)
        ]

  run_step-all_to_end :
      (r : ℕ) (e : RunEvent) (l : Launcher)
      → count r (ended e l.state) + all_to_end r (run_step text e l) ≤ all_to_end r l
  unfolding run_step ended all_to_end try_repair
  run_step-all_to_end r (dispatches workflow entry) l =
      omega (arith, try_dispatch-all_to_end r workflow entry l)
  run_step-all_to_end r (continues workflow entry) l =
      omega (arith, try_continuation-all_to_end r workflow entry l)
  run_step-all_to_end r (repairs workflow entry) l =
      omega (arith, give_slot-all_to_end r (has_slot text l.state entry.issue workflow) entry l)
  run_step-all_to_end r proceeds l = omega (arith, step_dispatch-all_to_end r l.stage l refl)
  run_step-all_to_end r gives_up l = omega arith
  run_step-all_to_end r (meets_conflict entry) l = omega (arith, meet_conflict-all_to_end r entry l)
  run_step-all_to_end r (reserves workflow n) l =
      omega (arith, reserve_slot-all_to_end r workflow n l)
  run_step-all_to_end r (is_cancelled n) l = omega (arith, without_run-waiting r n l.conflicts)
  run_step-all_to_end r takes_number l = omega (arith, take_run_id-to_end r l.state)
  run_step-all_to_end r (exits id expected) l = omega (arith, exits-to_end r id expected l.state)
  run_step-all_to_end r (reports id update) l = omega (
    arith,
    update_run-to_end r id (λ entry. apply_run_event entry update) l.state
        (apply_run_event-run_id update),
  )
  run_step-all_to_end r (enters_postflight id run_id at) l =
      omega (arith, note_postflight_started-to_end r id run_id at l.state)

  all_ended-to_end :
      (r : ℕ) (es : List RunEvent) (l : Launcher) → count r (all_ended text es l) ≤ all_to_end r l
  unfolding all_ended
  all_ended-to_end r [] l = omega arith
  all_ended-to_end r (e ∷ es) l = omega (
    arith,
    count-append r (ended e l.state) (all_ended text es (run_step text e l)),
    run_step-all_to_end r e l,
    all_ended-to_end r es (run_step text e l),
  )

  -- From a state with no live runs, over any sequence of events of dispatches, conflict repairs and
  -- runs: no run number ends twice, and none below the counter that the state starts from ends at all.
  pub run_ends_once :
      (r : ℕ) (es : List RunEvent) (state : RuntimeState)
      → state.running ≡ []
      → count r (all_ended text es (launcher_of state)) ≤ (if leb state.next_run_id r then 1 else 0)
  unfolding to_end all_to_end
  run_ends_once r es state h = ground (arith, all_ended-to_end r es (launcher_of state))
