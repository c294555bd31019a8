-- ===== src/Durable/Transition/Budget.antt =====
-- The budgets of a workflow: how many coding and repair attempts it makes, and until when.
use sloppenheimer_ts.Base.{
  ℕ, String, ◌≡◌, ◌≢◌, ◌≤◌, ◌<◌, List, [], ◌∷◌, Option, some, none, arith, false, ◌⊎◌,
}
use sloppenheimer_ts.Durable.Types.{
  Operation, Artifact, DurableWorkflow, queued, executing, active, implement, repair,
}
use sloppenheimer_ts.Durable.Transition.{
  WorkflowEvent, intent_changed, started, settled, recovered, transition_workflow, run, is_publish,
  start,
}

pub record WithinBudget (w : DurableWorkflow) : Type 0 where
  pub coding : w.coding_attempts ≤ w.maximum_coding_attempts
  pub repairs : w.repair_attempts ≤ w.maximum_repair_attempts

transition-WithinBudget :
    (w : DurableWorkflow) (e : WorkflowEvent) (now : ℕ)
    → WithinBudget w
    → WithinBudget (transition_workflow w e now)
unfolding transition_workflow
transition-WithinBudget w (intent_changed i) now h = ground arith
transition-WithinBudget w (started i g) now h = ground arith
transition-WithinBudget w (settled x) now h = ground arith
transition-WithinBudget w recovered now h = ground arith

-- No sequence of events takes the coding or the repair attempts of a workflow that is within its
-- budget over their maxima.
pub run-WithinBudget :
    (w : DurableWorkflow) (es : List (WorkflowEvent × ℕ)) → WithinBudget w → WithinBudget (run w es)
unfolding run
run-WithinBudget w [] h = h
run-WithinBudget w ((e, now) ∷ es) h =
    run-WithinBudget (transition_workflow w e now) es (transition-WithinBudget w e now h)

-- The artifact is verified and is the input of the operation.
abbrev pub HasVerifiedInput : Option Artifact → Operation → Type 0
HasVerifiedInput none o = ⊥
HasVerifiedInput (some a) o =
    (a.verified_revision ≡ some a.candidate_revision) × (o.input_revision ≡ a.candidate_revision)

abbrev pub MayPublish : DurableWorkflow → Operation → Type 0
MayPublish w o = (is_publish o.kind ≡ false) ⊎ HasVerifiedInput w.artifact o

-- What holds of a workflow whose queued operation a `started` event puts into execution.
pub record IsLaunch (w : DurableWorkflow) (o : Operation) (id : String) (generation now : ℕ)
    : Type 0 where
  pub was_queued : w.status ≡ queued o
  pub same_id : o.id ≡ id
  pub same_generation : o.generation ≡ generation
  pub wanted : w.intent ≡ active
  pub in_time : now < w.budget_deadline
  pub codes : (o.kind ≢ implement) ⊎ (w.coding_attempts < w.maximum_coding_attempts)
  pub repairs : (o.kind ≢ repair) ⊎ (w.repair_attempts < w.maximum_repair_attempts)
  pub publishes : MayPublish w o

-- If a `started` event is accepted and the workflow is executing after it, then the operation was
-- the queued one of that id and generation, the intent was active, the time and attempt budgets
-- were not spent, and a publication had its exact input verified.
pub started-IsLaunch :
    (w v : DurableWorkflow) (o : Operation) (id : String) (generation now deadline : ℕ)
    → start w id generation now ≡ some v
    → v.status ≡ executing o deadline
    → IsLaunch w o id generation now
unfolding start
started-IsLaunch w v o id generation now deadline h k = ground arith
