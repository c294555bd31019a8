-- ===== src/Durable/Controller.antt =====
-- packages/core/src/core/durable/controller.ts and the claim of execute.ts: an event is applied to
-- the stored workflow and committed before anything follows from it. The two flags say whether the
-- database answers the read and the commit; the clock's reading is an argument.
pub mod Claims
use sloppenheimer_ts.Base.{
  ℕ, String, Bool, true, false, List, [], ◌∷◌, Option, none, some, if◌then◌else◌, string_eq,
}
use sloppenheimer_ts.Collections.{Map, get}
use sloppenheimer_ts.Durable.Types.{Operation, WorkflowStatus, DurableWorkflow, queued, executing}
use sloppenheimer_ts.Durable.Store.{Store, conflict, storage, Result, ok, err, ◌>>=◌, commit}
use sloppenheimer_ts.Durable.Transition.{
  WorkflowEvent, started, recovered, advance, transition_workflow,
}

pub record Answers : Type 0 where
  pub reads : Bool
  pub writes : Bool

-- `store.get`.
unfoldable pub read_row : Answers → String → Store → Result (Option DurableWorkflow)
unfolding get
read_row a id s = if a.reads then ok (get s.rows id) else err storage

-- The commit of what an event made of `current`; a refused event commits nothing.
unfoldable pub commit_event :
    Answers → DurableWorkflow → WorkflowEvent → ℕ → Store → Result (DurableWorkflow × Store)
unfolding commit transition_workflow
commit_event a current event now s = elim (advance current event now) [
  | none ↦ ok (current, s)
  | some _ ↦
      commit a.writes (transition_workflow current event now) (some current.revision) s >>= λ t.
      ok (transition_workflow current event now, t)
]

abbrev pub apply_to :
    Option DurableWorkflow → Answers → WorkflowEvent → ℕ → Store → Result (DurableWorkflow × Store)
apply_to none a event now s = err conflict
apply_to (some current) a event now s = commit_event a current event now s

unfoldable pub apply_workflow_event :
    Answers → String → WorkflowEvent → ℕ → Store → Result (DurableWorkflow × Store)
unfolding read_row commit_event
apply_workflow_event a id event now s = read_row a id s >>= λ row. apply_to row a event now s

pub record ClaimedOperation : Type 0 where
  pub workflow : DurableWorkflow
  pub operation : Operation
  pub deadline : ℕ

abbrev pub claimed : DurableWorkflow → WorkflowStatus → Option ClaimedOperation
claimed w (executing o d) = some (record { workflow = w; operation = o; deadline = d })
claimed w _ = none

abbrev pub is_queued : WorkflowStatus → Bool
is_queued (queued _) = true
is_queued _ = false

-- `claim` after its read: what the claimant does with the workflow that it saw.
unfoldable pub claim_seen :
    Answers → DurableWorkflow → String → ℕ → ℕ → Store → Result (Option ClaimedOperation × Store)
unfolding commit transition_workflow
claim_seen a before id generation now s =
    let next = transition_workflow before (started id generation) now in
    let written =
      commit a.writes next (some before.revision) s >>= λ t. ok (claimed next next.status, t) in
    if is_queued before.status
    then elim (advance before (started id generation) now) [
      | none ↦ ok (none, s)
      | some _ ↦ written
    ]
    else ok (none, s)

abbrev pub claim_row :
    Option DurableWorkflow
    → Answers
    → String
    → ℕ
    → ℕ
    → Store
    → Result (Option ClaimedOperation × Store)
claim_row none a id generation now s = ok (none, s)
claim_row (some before) a id generation now s = claim_seen a before id generation now s

unfoldable pub claim :
    Answers → String → String → ℕ → ℕ → Store → Result (Option ClaimedOperation × Store)
unfolding read_row claim_seen
claim a issue_id id generation now s =
    read_row a issue_id s >>= λ row. claim_row row a id generation now s

-- `reconcileInterruptedWorkflows`: the listed workflows in turn, each applied on its own read.
unfoldable pub reconcile_each : Answers → List (String × DurableWorkflow) → ℕ → Store → Result Store
unfolding apply_workflow_event
reconcile_each a [] now s = ok s
reconcile_each a ((id, w) ∷ rows) now s =
    apply_workflow_event a id recovered now s >>= λ r. reconcile_each a rows now r.1

unfoldable pub reconcile_interrupted_workflows : Answers → ℕ → Store → Result Store
unfolding reconcile_each
reconcile_interrupted_workflows a now s =
    if a.reads then reconcile_each a s.rows now s else err storage
