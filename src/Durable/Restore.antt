-- ===== src/Durable/Restore.antt =====
-- packages/core/src/core/durable/restore.ts: what a host makes of the records that it finds at its
-- start. An external operation that was pending becomes unknown, and unfinished work is held.
pub mod Laws
use sloppenheimer_ts.Base.{
  ℕ, ◌+◌, String, Bool, true, false, ◌&&◌, ◌||◌, List, [], ◌∷◌, Option, none, some, is_some,
  if◌then◌else◌,
}
use sloppenheimer_ts.Durable.Types.{
  Artifact, ExternalOperation, ExternalOutcome, pending, unknown, WorkflowStatus, waiting,
  completed, intervention, WaitCondition, continuation, review, retry, DurableWorkflow,
}
use sloppenheimer_ts.Durable.Store.{Store, Result, ok, err, ◌>>=◌, commit}

abbrev pub is_pending : ExternalOutcome → Bool
is_pending pending = true
is_pending _ = false

abbrev pub has_pending : Option ExternalOperation → Bool
has_pending none = false
has_pending (some o) = is_pending o.outcome

abbrev pub with_unknown : Option ExternalOperation → Option ExternalOperation
with_unknown none = none
with_unknown (some o) = some (record o { outcome = unknown })

-- `artifact?.publishedHead` is neither null nor undefined.
abbrev pub has_published : Option Artifact → Bool
has_published none = false
has_published (some a) = is_some a.published_head

abbrev pub condition_stands : WaitCondition → DurableWorkflow → Bool
condition_stands continuation w = true
condition_stands review w = is_some w.handoff
condition_stands retry w = is_some w.run_target
condition_stands _ w = false

-- The statuses that a restart leaves as they are.
abbrev pub stands : WorkflowStatus → DurableWorkflow → Bool
stands (completed _) w = true
stands (intervention _) w = true
stands (waiting condition _) w = condition_stands condition w || has_published w.artifact
stands _ w = false

abbrev pub restart_reason : String
restart_reason =
    "Host restarted with unfinished work. Confirm the previous command has stopped and inspect the retained candidate before recovery."

-- `none` where the stored record is kept and nothing is committed.
unfoldable pub restore_record : DurableWorkflow → ℕ → Option DurableWorkflow
restore_record stored now =
    let known =
      if has_pending stored.external_operation
      then with_unknown stored.external_operation
      else stored.external_operation in
    if stands stored.status stored
    then (if has_pending stored.external_operation
        then some (record stored {
          external_operation = known;
          revision = stored.revision + 1;
          updated_at = now;
        })
        else none)
    else some (record stored {
      external_operation = known;
      revision = stored.revision + 1;
      updated_at = now;
      status = intervention restart_reason;
    })

unfoldable pub restored : DurableWorkflow → ℕ → DurableWorkflow
unfolding restore_record
restored stored now = elim (restore_record stored now) [ none ↦ stored | some next ↦ next ]

unfoldable pub restore_one : Bool → DurableWorkflow → ℕ → Store → Result (DurableWorkflow × Store)
unfolding restore_record commit
restore_one available stored now s = elim (restore_record stored now) [
  | none ↦ ok (stored, s)
  | some next ↦ commit available next (some stored.revision) s >>= λ t. ok (next, t)
]

-- `restoreWorkflows`: the records that the store listed, in turn; the first failure ends it.
unfoldable pub restore_workflows :
    Bool → List DurableWorkflow → ℕ → Store → Result (List DurableWorkflow × Store)
unfolding restore_one
restore_workflows available [] now s = ok ([], s)
restore_workflows available (w ∷ ws) now s = restore_one available w now s >>= λ r.
    restore_workflows available ws now r.1 >>= λ q. ok (r.0 ∷ q.0, q.1)
