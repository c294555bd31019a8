-- ===== src/Durable/Transition/Stopping.antt =====
-- What a pause, a cancellation and a restart do to a workflow.
use sloppenheimer_ts.Base.{
  ℕ, ◌+◌, ◌≡◌, refl, ◌≤◌, List, [], ◌∷◌, arith, Bool, true, false, All, min,
}
use sloppenheimer_ts.Durable.Types.{
  Operation, DurableWorkflow, WorkflowStatus, Intent, queued, executing, stopping,
}
use sloppenheimer_ts.Durable.Transition.{
  WorkflowEvent, intent_changed, started, settled, recovered, transition_workflow, run, is_active,
  retry_operation,
}

abbrev pub is_executing : WorkflowStatus → Bool
is_executing (executing _ _) = true
is_executing _ = false

-- The workflow is not wanted, and runs nothing but what is being stopped.
pub record IsIdle (w : DurableWorkflow) : Type 0 where
  pub unwanted : is_active w.intent ≡ false
  pub stopped : is_executing w.status ≡ false

-- An event that neither makes the workflow wanted nor settles an operation into execution.
abbrev pub IsQuiet : WorkflowEvent × ℕ → Type 0
IsQuiet (intent_changed i, now) = is_active i ≡ false
IsQuiet (started id g, now) = Unit
IsQuiet (settled x, now) = is_executing x.next ≡ false
IsQuiet (recovered, now) = Unit

transition-IsIdle :
    (w : DurableWorkflow) (e : WorkflowEvent) (now : ℕ)
    → IsQuiet (e, now)
    → IsIdle w
    → IsIdle (transition_workflow w e now)
unfolding transition_workflow
transition-IsIdle w (intent_changed i) now q h = ground arith
transition-IsIdle w (started i g) now q h = ground arith
transition-IsIdle w (settled x) now q h = ground arith
transition-IsIdle w recovered now q h = ground arith

run-IsIdle :
    (w : DurableWorkflow) (es : List (WorkflowEvent × ℕ))
    → All IsQuiet es
    → IsIdle w
    → IsIdle (run w es)
unfolding run
run-IsIdle w [] q h = h
run-IsIdle w ((e, now) ∷ es) q h =
    run-IsIdle (transition_workflow w e now) es q.1 (transition-IsIdle w e now q.0 h)

stop-IsIdle :
    (w : DurableWorkflow) (i : Intent) (now : ℕ)
    → is_active w.intent ≡ true
    → is_active i ≡ false
    → IsIdle (transition_workflow w (intent_changed i) now)
unfolding transition_workflow
stop-IsIdle w i now a h = ground arith

-- Once an active workflow is paused or cancelled, it executes nothing after any later events that
-- neither make it active again nor settle an operation into execution.
pub stop_executes_nothing :
    (w : DurableWorkflow) (i : Intent) (now : ℕ) (es : List (WorkflowEvent × ℕ))
    → is_active w.intent ≡ true
    → is_active i ≡ false
    → All IsQuiet es
    → is_executing (run w ((intent_changed i, now) ∷ es)).status ≡ false
unfolding run
stop_executes_nothing w i now es a h q =
    (run-IsIdle (transition_workflow w (intent_changed i) now) es q
      (stop-IsIdle w i now a h)).stopped

-- A pause or cancellation of an executing operation keeps the operation and the artifact, and gives
-- it at most ten seconds, and never more than it had.
pub stop_deadline :
    (w : DurableWorkflow) (i : Intent) (o : Operation) (now deadline : ℕ)
    → w.status ≡ executing o deadline
    → is_active w.intent ≡ true
    → is_active i ≡ false
    → (d : ℕ) × ((transition_workflow w (intent_changed i) now).status ≡ stopping o d)
      × ((transition_workflow w (intent_changed i) now).artifact ≡ w.artifact)
      × (d ≤ deadline)
      × (d ≤ now + 10000)
unfolding transition_workflow
stop_deadline w i o now deadline s a h =
    (min deadline (now + 10000), ground arith, ground arith, omega arith, omega arith)

abbrev pub is_in_flight : WorkflowStatus → Bool
is_in_flight (executing _ _) = true
is_in_flight (stopping _ _) = true
is_in_flight _ = false

-- After a recovery nothing is in flight, and a second recovery changes nothing.
pub recovered_settles :
    (w : DurableWorkflow) (now later : ℕ)
    → let v = transition_workflow w recovered now in
      (is_in_flight v.status ≡ false) × (transition_workflow v recovered later ≡ v)
unfolding transition_workflow
recovered_settles w now later = ground arith

-- The event reports on the operation of this id and generation.
abbrev pub Reports : Operation → WorkflowEvent × ℕ → Type 0
Reports o (started id g, now) = (id ≡ o.id) × (g ≡ o.generation)
Reports o (settled x, now) = (x.operation_id ≡ o.id) × (x.generation ≡ o.generation)
Reports o (_, now) = ⊥

late_report :
    (w : DurableWorkflow) (o : Operation) (e : WorkflowEvent) (now : ℕ)
    → w.status ≡ queued (retry_operation o)
    → Reports o (e, now)
    → transition_workflow w e now ≡ w
unfolding transition_workflow retry_operation
late_report w o (intent_changed i) now s r = absurd r
late_report w o (started i g) now s r = ground arith
late_report w o (settled x) now s r = ground arith
late_report w o recovered now s r = absurd r

-- An operation that was queued again under its next generation is fenced: no sequence of reports
-- that name the earlier generation starts or settles it.
pub retry_fences :
    (w : DurableWorkflow) (o : Operation) (es : List (WorkflowEvent × ℕ))
    → w.status ≡ queued (retry_operation o)
    → All (Reports o) es
    → run w es ≡ w
unfolding run
retry_fences w o [] s r = refl
retry_fences w o ((e, now) ∷ es) s r = rw (late_report w o e now s r.0) (retry_fences w o es s r.1)
