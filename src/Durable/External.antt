-- ===== src/Durable/External.antt =====
-- packages/core/src/core/durable/external-operation.ts: a write to the code host is recorded as pending,
-- with its exact head, before the adapter is called, and every exit of the call is recorded after it.
-- Other writers may come between the two, so each half is a step of its own on the host.
pub mod Laws
use sloppenheimer_ts.Base.{
  ℕ, ◌+◌, min, String, Bool, true, false, not, ◌&&◌, ◌||◌, [], ◌∷◌, Option, none, some, ◌==◌, ◌!=◌,
  leb, is_some, if◌then◌else◌, nat_eq, string_eq, option_eq, template,
}
use sloppenheimer_ts.Collections.{get}
use sloppenheimer_ts.Durable.Types.{
  ExternalOperationKind, ensure_pull_request, request_review, resolve_threads, merge,
  ExternalOutcome, pending, succeeded, failed, unknown, ExternalOperation, Artifact, WorkflowStatus,
  intervention, DurableWorkflow,
}
use sloppenheimer_ts.Durable.Transition.{is_active}
use sloppenheimer_ts.Durable.Restore.{has_pending}
use sloppenheimer_ts.Durable.Host.{Host, Exit, done, interrupted, Update, write}

abbrev pub kind_name : ExternalOperationKind → String
kind_name ensure_pull_request = "ensure_pull_request"
kind_name request_review = "request_review"
kind_name resolve_threads = "resolve_threads"
kind_name merge = "merge"

-- `${issueId}:${kind}:${headSha}`.
unfoldable pub operation_id : String → ExternalOperationKind → String → String
unfolding template
operation_id issue_id kind head = template (issue_id ∷ ":" ∷ kind_name kind ∷ ":" ∷ head ∷ [])

abbrev pub opens_pull_request : ExternalOperationKind → Bool
opens_pull_request ensure_pull_request = true
opens_pull_request _ = false

-- `artifact.verifiedRevision === artifact.repository?.treeSha`, for a revision that is not null.
abbrev pub tree_verified : Artifact → Bool
tree_verified a = elim a.repository [
  | none ↦ false
  | some r ↦ is_some a.verified_revision && a.verified_revision == r.tree_sha
]

abbrev pub published_and_verified : Option Artifact → Bool → String → Bool
published_and_verified none required head = false
published_and_verified (some a) required head =
    a.published_head == some head && (not required || tree_verified a)

unfoldable pub permits_pull_request : DurableWorkflow → ExternalOperationKind → String → Bool
permits_pull_request w kind head =
    not (opens_pull_request kind) || published_and_verified w.artifact w.verification_required head

abbrev pub other_head : Option Artifact → String → Bool
other_head none head = false
other_head (some a) head = a.published_head != some head

abbrev pub intervention_reason : WorkflowStatus → Option String
intervention_reason (intervention reason) = some reason
intervention_reason _ = none

-- The last operation was this one.
unfoldable pub same_input : DurableWorkflow → String → Bool
same_input w id = elim w.external_operation [ none ↦ false | some o ↦ o.id == id ]

-- What the workflow that is seen makes of the call: a refusal, a hold of the workflow, or a launch.
pub data ExternalAdmission : Type 0 where
  refused : String → ExternalAdmission
  retries_spent : ExternalAdmission
  launched : ExternalOperation → ExternalAdmission

abbrev pub operation_for :
    DurableWorkflow → String → ExternalOperationKind → String → ℕ → ExternalOperation
operation_for w issue_id kind head now = record {
  id = operation_id issue_id kind head;
  kind = kind;
  head_sha = head;
  generation = w.revision + 1;
  deadline = min w.budget_deadline (now + 60000);
  outcome = pending;
}

unfoldable pub admit_external :
    DurableWorkflow → String → ExternalOperationKind → String → ℕ → ExternalAdmission
unfolding permits_pull_request same_input operation_id
admit_external w issue_id kind head now =
    if not (is_active w.intent) || leb w.budget_deadline now
    then refused "Workflow intent or deadline prevents the external action"
    else if has_pending w.external_operation
    then refused "Another external operation owns this workflow"
    else if not (permits_pull_request w kind head)
    then refused "PR creation requires the exact verified publication"
    else elim (intervention_reason w.status) [
      | some reason ↦ refused reason
      | none ↦
          if other_head w.artifact head
          then refused "Current head has no matching durable publication evidence"
          else if same_input w (operation_id issue_id kind head) && leb 3 w.repeated_failures
          then retries_spent
          else launched (operation_for w issue_id kind head now)
    ]

abbrev pub spent_reason : String
spent_reason =
    "External action retry budget exhausted; inspect the exact head and remote outcome before continuing"

abbrev pub hold_spent : Update
hold_spent current = some (record current { status = intervention spent_reason })

-- The write of the intent, on the revision that was seen.
abbrev pub claim_update : DurableWorkflow → ExternalOperation → Update
claim_update before operation current =
    if current.revision == before.revision
    then some (record current { external_operation = some operation })
    else none

-- The operation is in the record, and the intent is still active.
abbrev pub launches : Option DurableWorkflow → DurableWorkflow → Bool
launches none before = false
launches (some current) before = current.revision == before.revision && is_active current.intent

abbrev pub and_launch {ℓ} :
    {A : Type ℓ} → Exit A → Bool → ExternalOperation → Exit (Option ExternalOperation)
and_launch (interrupted h) launch operation = interrupted h
and_launch (done _ h) launch operation = done (if launch then some operation else none) h

abbrev pub and_refuse {ℓ} : {A : Type ℓ} → Exit A → Exit (Option ExternalOperation)
and_refuse (interrupted h) = interrupted h
and_refuse (done _ h) = done none h

-- The first half, up to the call: `before` is what was read, and `h` the host as the write finds it.
unfoldable pub begin_admitted :
    ExternalAdmission → Bool → String → DurableWorkflow → ℕ → Host → Exit (Option ExternalOperation)
unfolding write get
begin_admitted (refused reason) available issue_id before later h = done none h
begin_admitted retries_spent available issue_id before later h =
    and_refuse (write available issue_id hold_spent none false later h)
begin_admitted (launched operation) available issue_id before later h =
    and_launch (write available issue_id (claim_update before operation) none false later h)
      (launches (get h.records issue_id) before) operation

unfoldable pub begin_external :
    Bool
    → String
    → DurableWorkflow
    → ExternalOperationKind
    → String
    → ℕ
    → ℕ
    → Host
    → Exit (Option ExternalOperation)
unfolding admit_external begin_admitted
begin_external available issue_id before kind head now later h =
    begin_admitted (admit_external before issue_id kind head now) available issue_id before later h

-- How the call ended: with a value, with an error, or by an interruption or a defect.
pub data CallExit : Type 0 where
  success failure broken : CallExit

abbrev pub outcome_of : CallExit → ExternalOutcome
outcome_of success = succeeded
outcome_of failure = failed
outcome_of broken = unknown

abbrev pub owns : Option ExternalOperation → ℕ → Bool
owns none generation = false
owns (some o) generation = o.generation == generation

abbrev pub settled_as : DurableWorkflow → ExternalOperation → CallExit → Bool → ℕ → DurableWorkflow
settled_as w o success again now = record w {
  last_progress_at = now;
  repeated_failures = 0;
  last_failure_signature = none;
  external_operation = some (record o { outcome = succeeded });
}
settled_as w o exit again now = record w {
  repeated_failures = if again then w.repeated_failures + 1 else 1;
  last_failure_signature = some o.id;
  external_operation = some (record o { outcome = outcome_of exit });
}

-- The second half, after the call; `again` is whether the operation before it was the same one.
unfoldable pub settle_external :
    Bool → String → ExternalOperation → CallExit → Bool → ℕ → Host → Exit (Unit {0})
unfolding write
settle_external available issue_id o exit again now h =
    write available issue_id
      (λ current.
        if owns current.external_operation o.generation
        then some (settled_as current o exit again now)
        else none)
      none false now h
