-- ===== src/Durable/Controller/Claims.antt =====
-- Only one writer gets permission to launch an operation.
use sloppenheimer_ts.Base.{ℕ, ◌+◌, ◌≡◌, ◌≢◌, String, true, none, some, arith, string_eq, ◌∙◌, sym}
use sloppenheimer_ts.Collections.{get}
use sloppenheimer_ts.Durable.Types.{Operation, DurableWorkflow, executing}
use sloppenheimer_ts.Durable.Store.{Store, conflict, ok, err, commit}
use sloppenheimer_ts.Durable.Store.Commits.{commit_writes, stale_commit_conflicts}
use sloppenheimer_ts.Durable.Transition.{started, advance, transition_workflow}
use sloppenheimer_ts.Durable.Transition.Frame.{transition-SameRecord}
use sloppenheimer_ts.Durable.Transition.Budget.{IsLaunch}
use sloppenheimer_ts.Durable.Controller.{
  Answers, ClaimedOperation, claim, claim_seen, claimed, is_queued,
}

-- What a claim that got the operation did: the workflow that it saw was queued with this operation,
-- and the store holds that workflow's successor, which executes it.
pub record IsGranted (before : DurableWorkflow) (id : String) (generation now : ℕ) (s t : Store)
    (c : ClaimedOperation) : Type 0 where
  pub launched : IsLaunch before c.operation id generation now
  pub executes : c.workflow.status ≡ executing c.operation c.deadline
  pub due : c.deadline ≡ now + c.operation.timeout_ms
  pub stored : get t.rows before.issue_id ≡ some c.workflow

-- A claim that is granted committed the transition of the workflow that it saw.
claim_seen_commits :
    (a : Answers) (before : DurableWorkflow) (id : String) (generation now : ℕ) (s t : Store)
    (c : ClaimedOperation)
    → claim_seen a before id generation now s ≡ ok (some c, t)
    → (let next = transition_workflow before (started id generation) now in
        (commit a.writes next (some before.revision) s ≡ ok t)
        × (claimed next next.status ≡ some c)
        × (advance before (started id generation) now ≢ none))
unfolding claim_seen
claim_seen_commits a before id generation now s t c h = ground arith

launched_status :
    (before : DurableWorkflow) (id : String) (generation now : ℕ) (c : ClaimedOperation)
    → (let next = transition_workflow before (started id generation) now in
        claimed next next.status ≡ some c)
    → (c.workflow ≡ transition_workflow before (started id generation) now)
      × (c.workflow.status ≡ executing c.operation c.deadline)
launched_status before id generation now c h = ground arith

start_due :
    (before : DurableWorkflow) (id : String) (o : Operation) (generation now deadline : ℕ)
    → advance before (started id generation) now ≢ none
    → (transition_workflow before (started id generation) now).status ≡ executing o deadline
    → IsLaunch before o id generation now × (deadline ≡ now + o.timeout_ms)
unfolding transition_workflow
start_due before id o generation now deadline n h = ground arith

-- If a claim on the stored workflow is granted, the operation was queued under that id and
-- generation and allowed to launch, and the store now holds the workflow that executes it with its
-- deadline.
pub claim_seen-IsGranted :
    (a : Answers) (before : DurableWorkflow) (id : String) (generation now : ℕ) (s t : Store)
    (c : ClaimedOperation)
    → claim_seen a before id generation now s ≡ ok (some c, t)
    → IsGranted before id generation now s t c
claim_seen-IsGranted a before id generation now s t c h =
    let (e, k, n) = claim_seen_commits a before id generation now s t c h in
    let (same, status) = launched_status before id generation now c k in
    let (l, due) =
      start_due before id c.operation generation now c.deadline n (rw same at status) in
    let w = commit_writes a.writes _ _ s t before.issue_id e in
    let r = transition-SameRecord before (started id generation) now in
    record { launched = l; executes = status; due = due; stored = ground arith }

not_queued_again :
    (a : Answers) (w : DurableWorkflow) (o : Operation) (deadline : ℕ) (id : String)
    (generation now : ℕ) (s : Store)
    → w.status ≡ executing o deadline
    → claim_seen a w id generation now s ≡ ok (none, s)
unfolding claim_seen
not_queued_again a w o deadline id generation now s h = ground arith

-- After a granted claim, whoever claims an operation of that issue next on an answering database
-- gets nothing and changes nothing, whatever id and generation it names.
pub claim_once :
    (a b : Answers) (before : DurableWorkflow) (id other : String)
    (generation later_generation now later : ℕ) (s t : Store) (c : ClaimedOperation)
    → claim_seen a before id generation now s ≡ ok (some c, t)
    → b.reads ≡ true
    → claim b before.issue_id other later_generation later t ≡ ok (none, t)
unfolding claim
claim_once a b before id other generation later_generation now later s t c h r =
    let k = claim_seen-IsGranted a before id generation now s t c h in
    ground (
      arith,
      k.stored,
      not_queued_again b c.workflow c.operation c.deadline other later_generation later t
          k.executes,
    )

-- Whether a `started` event is accepted does not depend on the time.
accepted_later :
    (before : DurableWorkflow) (id : String) (generation now later : ℕ)
    → advance before (started id generation) now ≢ none
    → (is_queued before.status ≡ true) × (advance before (started id generation) later ≢ none)
unfolding advance
accepted_later before id generation now later h = ground arith

claim_seen_refused :
    (b : Answers) (before : DurableWorkflow) (id : String) (generation later : ℕ) (t : Store)
    → (is_queued before.status ≡ true) × (advance before (started id generation) later ≢ none)
    → commit b.writes
        (transition_workflow before (started id generation) later)
        (some before.revision)
        t
      ≡ err conflict
    → claim_seen b before id generation later t ≡ err conflict
unfolding claim_seen
claim_seen_refused b before id generation later t q e = ground arith

-- Two claimants that saw the same queued workflow: once one was granted the operation, the commit
-- of the other conflicts on an answering database, so it launches nothing.
pub claim_race :
    (a b : Answers) (before : DurableWorkflow) (id : String) (generation now later : ℕ)
    (s t : Store) (c : ClaimedOperation)
    → claim_seen a before id generation now s ≡ ok (some c, t)
    → b.writes ≡ true
    → claim_seen b before id generation later t ≡ err conflict
claim_race a b before id generation now later s t c h r =
    let (e, k, n) = claim_seen_commits a before id generation now s t c h in
    let same = (transition-SameRecord before (started id generation) now).issue_id in
    let same' = (transition-SameRecord before (started id generation) later).issue_id in
    claim_seen_refused b before id generation later t
      (accepted_later before id generation now later n)
      (rw r (
        stale_commit_conflicts a.writes (transition_workflow before (started id generation) now)
          (transition_workflow before (started id generation) later) (some before.revision) s t e
          (same' ∙ sym same)))
