-- ===== src/Scheduler/Runs/Bounds.antt =====
-- The concurrency budget, and the identity of runs.
use sloppenheimer_ts.Base.{
  ℕ, suc, ◌+◌, ◌≤◌, ◌<◌, ◌≡◌, refl, String, true, not, ◌&&◌, ◌||◌, [], ◌∷◌, List, Option, none,
  some, nat_eq, string_eq, arith, length, Option-cases, Bool-cases, inl, inr, All, subst, sym,
}
use sloppenheimer_ts.Collections.{Map, get, has, with_entry, without_entry}
use sloppenheimer_ts.Domain.Issue.{Issue}
use sloppenheimer_ts.Scheduler.State.{RuntimeState, RunningEntry, postflight}
use sloppenheimer_ts.Scheduler.Runs.{
  begin_run, take_run_id, end_run, update_run, note_postflight_started, apply_run_event,
}
use sloppenheimer_ts.Scheduler.Policy.{
  TextRules, WorkflowConfig, DispatchAdmission, admit, refuse, dispatch_admission, has_slot,
  issue_is_active, issue_is_routable,
}
use sloppenheimer_ts.Scheduler.Runs.Trace.{
  RunEvent, dispatches, continues, repairs, proceeds, gives_up, meets_conflict, reserves,
  is_cancelled, takes_number, exits, reports, enters_postflight, DispatchStage, idle, slotted,
  entered, numbered, Launcher, launcher_of, waiting_for, give_slot, meet_conflict, try_dispatch,
  try_continuation, try_repair, refused_before_claim, step_dispatch, reserve_slot, run_step,
  run_steps,
}

module _ {V : Type 0} where
  length-with_entry-le :
      (m : Map String V) (k : String) (v : V) → length (with_entry m k v) ≤ suc (length m)
  unfolding with_entry
  length-with_entry-le [] k v = omega arith
  length-with_entry-le ((j, w) ∷ m) k v = ground (arith, length-with_entry-le m k v)

  length-with_entry_present :
      (m : Map String V) (k : String) (v w : V)
      → get m k ≡ some w
      → length (with_entry m k v) ≡ length m
  unfolding with_entry get
  length-with_entry_present [] k v w h = cc
  length-with_entry_present ((j, x) ∷ m) k v w h = ground (arith, length-with_entry_present m k v w)

  length-without_entry-le : (m : Map String V) (k : String) → length (without_entry m k) ≤ length m
  unfolding without_entry
  length-without_entry-le [] k = omega arith
  length-without_entry-le ((j, w) ∷ m) k = ground (arith, length-without_entry-le m k)

end_run-length :
    (id : String) (expected : Option ℕ) (state : RuntimeState)
    → length (end_run id expected state).1.running ≤ length state.running
unfolding end_run
end_run-length id expected state =
    ground (arith, Option-cases (get state.running id), length-without_entry-le state.running id)

update_run-length :
    (id : String) (update : RunningEntry → RunningEntry) (state : RuntimeState)
    → length (update_run id update state).running ≡ length state.running
unfolding update_run
update_run-length id update state = updated (get state.running id) refl
  where
    updated :
        (o : Option RunningEntry)
        → get state.running id ≡ o
        → length (update_run id update state).running ≡ length state.running
    updated none e = rw (e, update_run)
    updated (some entry) e =
        rw (e, update_run) (length-with_entry_present state.running id (update entry) entry e)

note_postflight_started-length :
    (id : String) (run_id at : ℕ) (state : RuntimeState)
    → length (note_postflight_started id run_id at state).running ≡ length state.running
unfolding note_postflight_started
note_postflight_started-length id run_id at state = entered (get state.running id) refl
  where
    entered :
        (o : Option RunningEntry)
        → get state.running id ≡ o
        → length (note_postflight_started id run_id at state).running ≡ length state.running
    entered none e = ground (arith, e)
    entered (some entry) e = ground (
      arith,
      e,
      length-with_entry_present state.running id (record entry { phase = postflight at }) entry e,
    )

-- A dispatch that is under way holds the slot that it found.
abbrev busy : DispatchStage → ℕ
busy idle = 0
busy (slotted entry) = 1
busy (entered entry) = 1
busy (numbered entry) = 1

-- The workflows that an event asks allow no more runs than a maximum.
abbrev pub AsksWithin : ℕ → RunEvent → Type 0
AsksWithin maximum (dispatches workflow entry) = workflow.max_concurrent_agents ≤ maximum
AsksWithin maximum (continues workflow entry) = workflow.max_concurrent_agents ≤ maximum
AsksWithin maximum (repairs workflow entry) = workflow.max_concurrent_agents ≤ maximum
AsksWithin maximum (reserves workflow run_id) = workflow.max_concurrent_agents ≤ maximum
AsksWithin maximum e = Unit

-- One if a conflict repair tries to begin, and none otherwise.
abbrev pub contended : List RunEvent → ℕ
contended [] = 0
contended (reserves workflow run_id ∷ es) = 1
contended (e ∷ es) = contended es

contended-le : (es : List RunEvent) → contended es ≤ 1
contended-le [] = omega arith
contended-le (reserves workflow run_id ∷ es) = omega arith
contended-le (dispatches workflow entry ∷ es) = contended-le es
contended-le (continues workflow entry ∷ es) = contended-le es
contended-le (repairs workflow entry ∷ es) = contended-le es
contended-le (proceeds ∷ es) = contended-le es
contended-le (gives_up ∷ es) = contended-le es
contended-le (meets_conflict entry ∷ es) = contended-le es
contended-le (is_cancelled run_id ∷ es) = contended-le es
contended-le (takes_number ∷ es) = contended-le es
contended-le (exits id expected ∷ es) = contended-le es
contended-le (reports id update ∷ es) = contended-le es
contended-le (enters_postflight id run_id at ∷ es) = contended-le es

contended-cons : (e : RunEvent) (es : List RunEvent) → contended es ≤ contended (e ∷ es)
contended-cons (reserves workflow run_id) es = contended-le es
contended-cons (dispatches workflow entry) es = omega arith
contended-cons (continues workflow entry) es = omega arith
contended-cons (repairs workflow entry) es = omega arith
contended-cons proceeds es = omega arith
contended-cons gives_up es = omega arith
contended-cons (meets_conflict entry) es = omega arith
contended-cons (is_cancelled run_id) es = omega arith
contended-cons takes_number es = omega arith
contended-cons (exits id expected) es = omega arith
contended-cons (reports id update) es = omega arith
contended-cons (enters_postflight id run_id at) es = omega arith

unfoldable Fits : ℕ → ℕ → Launcher → Type 0
Fits maximum extra l = length l.state.running + busy l.stage ≤ maximum + extra

busy-le : (s : DispatchStage) → busy s ≤ 1
busy-le idle = omega arith
busy-le (slotted entry) = omega arith
busy-le (entered entry) = omega arith
busy-le (numbered entry) = omega arith

module _ (text : TextRules) where
  has_slot-has_room :
      (state : RuntimeState) (issue : Issue) (workflow : WorkflowConfig)
      → has_slot text state issue workflow ≡ true
      → length state.running < workflow.max_concurrent_agents
  unfolding has_slot
  has_slot-has_room state issue workflow h = ground arith

  admit-has_slot :
      (state : RuntimeState) (issue : Issue) (workflow : WorkflowConfig)
      → dispatch_admission text state issue workflow ≡ admit
      → has_slot text state issue workflow ≡ true
  unfolding dispatch_admission
  admit-has_slot state issue workflow h = ground arith

  give_slot-Fits :
      (maximum extra : ℕ) (entry : RunningEntry) (l : Launcher)
      → length l.state.running < maximum
      → Fits maximum extra l
      → Fits maximum extra (give_slot true entry l)
  unfolding give_slot Fits
  give_slot-Fits maximum extra entry l room h = given l.stage refl
    where
      given : (s : DispatchStage) → l.stage ≡ s → Fits maximum extra (give_slot true entry l)
      given idle e = rw e (omega (arith, room))
      given (slotted other) e = rw e (rw e at h)
      given (entered other) e = rw e (rw e at h)
      given (numbered other) e = rw e (rw e at h)

  found_slot-Fits :
      (maximum extra : ℕ) (workflow : WorkflowConfig) (entry : RunningEntry) (l : Launcher)
      → workflow.max_concurrent_agents ≤ maximum
      → Fits maximum extra l
      → Fits maximum extra (give_slot (has_slot text l.state entry.issue workflow) entry l)
  unfolding give_slot
  found_slot-Fits maximum extra workflow entry l w h =
      elim (Bool-cases (has_slot text l.state entry.issue workflow)) [
        | inl e ↦ rw e (
            give_slot-Fits maximum extra entry l
              (omega (arith, w, has_slot-has_room l.state entry.issue workflow e)) h)
        | inr e ↦ rw e h
      ]

  step_dispatch-Fits :
      (maximum extra : ℕ) (s : DispatchStage) (l : Launcher)
      → l.stage ≡ s
      → Fits maximum extra l
      → Fits maximum extra (step_dispatch text s l)
  unfolding step_dispatch Fits begin_run take_run_id
  step_dispatch-Fits maximum extra idle l e h = h
  step_dispatch-Fits maximum extra (slotted entry) l e h =
      elim (Bool-cases (refused_before_claim text l.state entry.issue)) [
        | inl r ↦ rw r (omega (arith, h))
        | inr r ↦ rw r (rw e at h)
      ]
  step_dispatch-Fits maximum extra (entered entry) l e h = rw e at h
  step_dispatch-Fits maximum extra (numbered entry) l e h =
      omega (arith, rw e at h, length-with_entry-le l.state.running entry.issue.id entry)

  reserve_slot-Fits :
      (maximum : ℕ) (workflow : WorkflowConfig) (run_id : ℕ) (l : Launcher)
      → workflow.max_concurrent_agents ≤ maximum
      → Fits maximum 1 l
      → Fits maximum 1 (reserve_slot text workflow run_id l)
  unfolding reserve_slot Fits begin_run
  reserve_slot-Fits maximum workflow run_id l w h =
      elim (Option-cases (waiting_for run_id l.conflicts)) [
        | inl e ↦ rw (e, reserve_slot) h
        | inr (entry, e) ↦
            elim (Bool-cases (
              has l.state.running entry.issue.id
              || not (has_slot text l.state entry.issue workflow))) [
                | inl r ↦ rw (e, r, reserve_slot) h
                | inr r ↦
                    rw (e, r, reserve_slot)
                      (omega (
                        arith,
                        w,
                        busy-le l.stage,
                        has_slot-has_room l.state entry.issue workflow (ground arith),
                        length-with_entry-le l.state.running entry.issue.id
                            (record entry { phase = postflight entry.started_at }),
                      ))
              ]
      ]

  try_dispatch-Fits :
      (maximum extra : ℕ) (workflow : WorkflowConfig) (entry : RunningEntry) (l : Launcher)
      → workflow.max_concurrent_agents ≤ maximum
      → Fits maximum extra l
      → Fits maximum extra (try_dispatch text workflow entry l)
  unfolding try_dispatch give_slot
  try_dispatch-Fits maximum extra workflow entry l w h =
      tried (dispatch_admission text l.state entry.issue workflow) refl
    where
      tried :
          (a : DispatchAdmission)
          → dispatch_admission text l.state entry.issue workflow ≡ a
          → Fits maximum extra (try_dispatch text workflow entry l)
      tried admit e =
          rw (e, try_dispatch)
            (give_slot-Fits maximum extra entry l
              (omega (
                arith,
                w,
                has_slot-has_room l.state entry.issue workflow
                    (admit-has_slot l.state entry.issue workflow e),
              ))
              h)
      tried (refuse reason) e = rw (e, try_dispatch) h

  run_step-Fits :
      (maximum extra : ℕ) (e : RunEvent) (es : List RunEvent) (l : Launcher)
      → AsksWithin maximum e
      → contended (e ∷ es) ≤ extra
      → extra ≤ 1
      → Fits maximum extra l
      → Fits maximum extra (run_step text e l)
  unfolding run_step Fits meet_conflict take_run_id try_continuation try_repair
  run_step-Fits maximum extra (dispatches workflow entry) es l w c one h =
      try_dispatch-Fits maximum extra workflow entry l w h
  run_step-Fits maximum extra (continues workflow entry) es l w c one h =
      elim (Bool-cases (
        issue_is_active text entry.issue workflow.tracker
        && issue_is_routable text entry.issue workflow.tracker)) [
          | inl e ↦ rw e (found_slot-Fits maximum extra workflow entry l w h)
          | inr e ↦ rw e h
        ]
  run_step-Fits maximum extra (repairs workflow entry) es l w c one h =
      found_slot-Fits maximum extra workflow entry l w h
  run_step-Fits maximum extra proceeds es l w c one h =
      step_dispatch-Fits maximum extra l.stage l refl h
  run_step-Fits maximum extra gives_up es l w c one h = omega (arith, h)
  run_step-Fits maximum extra (meets_conflict entry) es l w c one h = h
  run_step-Fits maximum extra (reserves workflow run_id) es l w c one h =
      let is_one : 1 ≡ extra = omega (arith, c, one) in
      subst (λ x. Fits maximum x (reserve_slot text workflow run_id l)) is_one
        (reserve_slot-Fits maximum workflow run_id l w
          (subst (λ x. Fits maximum x l) (sym is_one) h))
  run_step-Fits maximum extra (is_cancelled run_id) es l w c one h = h
  run_step-Fits maximum extra takes_number es l w c one h = h
  run_step-Fits maximum extra (exits id expected) es l w c one h =
      omega (arith, h, end_run-length id expected l.state)
  run_step-Fits maximum extra (reports id update) es l w c one h =
      omega (arith, h, update_run-length id (λ entry. apply_run_event entry update) l.state)
  run_step-Fits maximum extra (enters_postflight id run_id at) es l w c one h =
      omega (arith, h, note_postflight_started-length id run_id at l.state)

  run_steps-Fits :
      (maximum extra : ℕ) (es : List RunEvent) (l : Launcher)
      → All (AsksWithin maximum) es
      → contended es ≤ extra
      → extra ≤ 1
      → Fits maximum extra l
      → Fits maximum extra (run_steps text es l)
  unfolding run_steps
  run_steps-Fits maximum extra [] l w c one h = h
  run_steps-Fits maximum extra (e ∷ es) l w c one h =
      run_steps-Fits maximum extra es (run_step text e l) w.1
        (omega (arith, c, contended-cons e es)) one (run_step-Fits maximum extra e es l w.0 c one h)

  -- From a state within a maximum, if every workflow that is asked allows no more runs than it: over any
  -- sequence of events the live runs are never more than the maximum, and one more if a conflict repair
  -- has tried to begin, since it may take the slot that a dispatch under way has found.
  pub running_bounded :
      (maximum : ℕ) (es : List RunEvent) (state : RuntimeState)
      → All (AsksWithin maximum) es
      → length state.running ≤ maximum
      → length (run_steps text es (launcher_of state)).state.running ≤ maximum + contended es
  unfolding Fits
  running_bounded maximum es state w h =
      let fits =
        run_steps-Fits maximum (contended es) es (launcher_of state) w (omega arith)
          (contended-le es) (omega (arith, h)) in
      omega (arith, fits)
