-- ===== src/Durable/Transition/Frame.antt =====
-- What an event never changes, and how the revision counts the accepted events.
use sloppenheimer_ts.Base.{ℕ, suc, ◌+◌, ◌≢◌, ◌≡◌, ◌⊎◌, List, [], ◌∷◌, none, some, arith}
use sloppenheimer_ts.Durable.Types.{DurableWorkflow}
use sloppenheimer_ts.Durable.Transition.{
  WorkflowEvent, intent_changed, started, settled, recovered, advance, transition_workflow, run,
}

-- The fields that no event of the workflow may write.
pub record SameRecord (w v : DurableWorkflow) : Type 0 where
  pub issue_id : v.issue_id ≡ w.issue_id
  pub identifier : v.identifier ≡ w.identifier
  pub objective : v.objective ≡ w.objective
  pub verification_required : v.verification_required ≡ w.verification_required
  pub after_publication : v.after_publication ≡ w.after_publication
  pub run_target : v.run_target ≡ w.run_target
  pub owner : v.owner ≡ w.owner
  pub handoff : v.handoff ≡ w.handoff
  pub external_operation : v.external_operation ≡ w.external_operation
  pub cleanup : v.cleanup ≡ w.cleanup
  pub maximum_coding_attempts : v.maximum_coding_attempts ≡ w.maximum_coding_attempts
  pub maximum_repair_attempts : v.maximum_repair_attempts ≡ w.maximum_repair_attempts
  pub budget_deadline : v.budget_deadline ≡ w.budget_deadline

pub transition-SameRecord :
    (w : DurableWorkflow) (e : WorkflowEvent) (now : ℕ) → SameRecord w (transition_workflow w e now)
unfolding transition_workflow
transition-SameRecord w (intent_changed i) now = ground arith
transition-SameRecord w (started i g) now = ground arith
transition-SameRecord w (settled x) now = ground arith
transition-SameRecord w recovered now = ground arith

SameRecord-trans : {u v w : DurableWorkflow} → SameRecord u v → SameRecord v w → SameRecord u w
SameRecord-trans h k = ground arith

SameRecord-refl : (w : DurableWorkflow) → SameRecord w w
SameRecord-refl w = ground arith

-- Whatever events a workflow receives, its identity, owner, target, budget and maxima, and the
-- records of its handoff, external operation and cleanup, are those it had.
pub run-SameRecord : (w : DurableWorkflow) (es : List (WorkflowEvent × ℕ)) → SameRecord w (run w es)
unfolding run
run-SameRecord w [] = SameRecord-refl w
run-SameRecord w ((e, now) ∷ es) =
    SameRecord-trans (transition-SameRecord w e now)
      (run-SameRecord (transition_workflow w e now) es)

-- An event is refused, and then the workflow is the same one, or it is accepted, and then the
-- revision grows by exactly one and the update time is that of the event.
pub transition-revision :
    (w : DurableWorkflow) (e : WorkflowEvent) (now : ℕ)
    → ((advance w e now ≡ none) × (transition_workflow w e now ≡ w))
      ⊎ ((advance w e now ≢ none)
          × ((transition_workflow w e now).revision ≡ w.revision + 1)
          × ((transition_workflow w e now).updated_at ≡ now))
unfolding transition_workflow
transition-revision w (intent_changed i) now = ground arith
transition-revision w (started i g) now = ground arith
transition-revision w (settled x) now = ground arith
transition-revision w recovered now = ground arith

-- The events that were accepted.
abbrev pub accepted : DurableWorkflow → List (WorkflowEvent × ℕ) → ℕ
accepted w [] = 0
accepted w ((e, now) ∷ es) =
    let rest = accepted (transition_workflow w e now) es in
    elim (advance w e now) [ none ↦ rest | some _ ↦ suc rest ]

-- The revision counts the accepted events, so a store that compares revisions sees every change.
pub run-revision :
    (w : DurableWorkflow) (es : List (WorkflowEvent × ℕ))
    → (run w es).revision ≡ w.revision + accepted w es
unfolding run
run-revision w [] = omega arith
run-revision w ((e, now) ∷ es) =
    ground (arith, run-revision (transition_workflow w e now) es, transition-revision w e now)
