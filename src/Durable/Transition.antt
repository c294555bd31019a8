-- ===== src/Durable/Transition.antt =====
-- packages/core/src/core/durable/transition.ts. The source compares objects by identity to tell a
-- refused event from an accepted one; here a refusal is `none`, and an accepted event is the new
-- workflow.
pub mod Frame
pub mod Evidence
pub mod Budget
pub mod Failures
pub mod Stopping
use sloppenheimer_ts.Base.{
  ℕ, ◌+◌, min, String, Bool, true, false, not, ◌&&◌, ◌||◌, Option, none, some, ◌==◌, ◌!=◌, leb,
  if◌then◌else◌, nat_eq, string_eq, option_eq, is_yes, List, [], ◌∷◌,
}
use sloppenheimer_ts.Durable.Types.{
  OperationKind, Operation, Artifact, WorkflowStatus, Intent, active, intent_discrete,
  DurableWorkflow, queued, executing, stopping, reconciling, retrying, intervention, completed,
  implement, publish, repair,
}

pub data Outcome : Type 0 where
  succeeded transient_failure needs_repair unknown crashed : Outcome

pub record Settlement : Type 0 where
  pub operation_id : String
  pub generation : ℕ
  pub outcome : Outcome
  pub next : WorkflowStatus
  pub artifact : Option Artifact
  pub failure_signature : Option String

pub data WorkflowEvent : Type 0 where
  intent_changed : Intent → WorkflowEvent
  started : String → ℕ → WorkflowEvent
  recovered : WorkflowEvent
  settled : Settlement → WorkflowEvent

-- `'operation' in status`.
abbrev pub operation_of : WorkflowStatus → Option Operation
operation_of (queued o) = some o
operation_of (executing o _) = some o
operation_of (stopping o _) = some o
operation_of (reconciling o) = some o
operation_of (retrying o _) = some o
operation_of _ = none

unfoldable pub belongs : WorkflowStatus → String → ℕ → Bool
belongs status id generation = elim (operation_of status) [
  | none ↦ false
  | some o ↦ o.id == id && o.generation == generation
]

unfoldable pub stopped : WorkflowStatus → ℕ → WorkflowStatus
stopped (executing o deadline) now = stopping o (min deadline (now + 10000))
stopped status now = status

abbrev pub accepts_settlement : WorkflowStatus → Bool
accepts_settlement (executing _ _) = true
accepts_settlement (stopping _ _) = true
accepts_settlement (reconciling _) = true
accepts_settlement _ = false

-- The count of equal failures in a row.
unfoldable pub repeats : Option String → Option String → ℕ → ℕ
repeats none last count = 0
repeats (some signature) last count = if some signature == last then count + 1 else 1

abbrev pub or_else {ℓ} : {A : Type ℓ} → Option A → Option A → Option A
or_else none b = b
or_else (some a) b = some a

unfoldable pub unverified : Option Artifact → Option String → Bool
unverified none head = true
unverified (some a) head =
    a.verified_revision != some a.candidate_revision || a.published_head != head

abbrev pub unverified_completion : WorkflowStatus → Option Artifact → Bool
unverified_completion (completed head) artifact = unverified artifact head
unverified_completion _ artifact = false

-- `event.artifact?.candidateRevision !== workflow.artifact?.candidateRevision`, for an event that
-- carries an artifact.
unfoldable pub progressed : Option Artifact → Option Artifact → Bool
progressed none old = false
progressed (some a) none = true
progressed (some a) (some b) = a.candidate_revision != b.candidate_revision

abbrev pub is_crashed : Outcome → Bool
is_crashed crashed = true
is_crashed _ = false

-- `event.outcome === 'unknown' && 'operation' in status`, else the status the event asks for.
abbrev pub followed : Outcome → WorkflowStatus → Option Operation → WorkflowStatus
followed unknown next (some o) = reconciling o
followed _ next _ = next

unfoldable pub settled_status : WorkflowStatus → Settlement → Option Artifact → ℕ → WorkflowStatus
unfolding unverified
settled_status status event artifact count =
    if unverified_completion event.next artifact
    then intervention "Completion requires verified publication evidence"
    else if is_crashed event.outcome
    then intervention "Worker defect requires investigation"
    else if leb 3 count
    then intervention "Repeated unchanged failure requires new inputs or intervention"
    else followed event.outcome event.next (operation_of status)

unfoldable pub settle : DurableWorkflow → Settlement → ℕ → Option DurableWorkflow
unfolding belongs repeats progressed settled_status
settle w event now =
    let count = repeats event.failure_signature w.last_failure_signature w.repeated_failures in
    let artifact = or_else event.artifact w.artifact in
    if not (belongs w.status event.operation_id event.generation)
      || not (accepts_settlement w.status)
    then none
    else some (record w {
      status = settled_status w.status event artifact count;
      artifact = artifact;
      last_progress_at = if progressed event.artifact w.artifact then now else w.last_progress_at;
      last_failure_signature = event.failure_signature;
      repeated_failures = count;
    })

abbrev pub is_publish : OperationKind → Bool
is_publish publish = true
is_publish _ = false

abbrev pub is_implement : OperationKind → Bool
is_implement implement = true
is_implement _ = false

abbrev pub is_repair : OperationKind → Bool
is_repair repair = true
is_repair _ = false

abbrev pub is_active : Intent → Bool
is_active active = true
is_active _ = false

-- The input of a publication is not the verified candidate.
unfoldable pub unverified_input : Option Artifact → String → Bool
unverified_input none input = true
unverified_input (some a) input =
    a.verified_revision != some a.candidate_revision || input != a.candidate_revision

unfoldable pub exhausted : DurableWorkflow → OperationKind → ℕ → Bool
exhausted w kind now =
    leb w.budget_deadline now
    || is_implement kind && leb w.maximum_coding_attempts w.coding_attempts
    || is_repair kind && leb w.maximum_repair_attempts w.repair_attempts

-- The part of `start` below its first guard, for the operation that is queued.
unfoldable pub launch : DurableWorkflow → Operation → ℕ → DurableWorkflow
unfolding unverified_input exhausted
launch w operation now =
    if is_publish operation.kind && unverified_input w.artifact operation.input_revision
    then record w { status = intervention "Publication requires verification of its exact input" }
    else if exhausted w operation.kind now
    then record w { status = intervention "Issue execution budget exhausted" }
    else record w {
      status = executing operation (now + operation.timeout_ms);
      coding_attempts = w.coding_attempts + (if is_implement operation.kind then 1 else 0);
      repair_attempts = w.repair_attempts + (if is_repair operation.kind then 1 else 0);
    }

unfoldable pub start_from :
    WorkflowStatus → DurableWorkflow → String → ℕ → ℕ → Option DurableWorkflow
unfolding launch
start_from (queued o) w id generation now =
    if is_active w.intent && (o.id == id && o.generation == generation)
    then some (launch w o now)
    else none
start_from _ w id generation now = none

unfoldable pub start : DurableWorkflow → String → ℕ → ℕ → Option DurableWorkflow
unfolding start_from
start w id generation now = start_from w.status w id generation now

unfoldable pub change_intent : DurableWorkflow → Intent → ℕ → Option DurableWorkflow
unfolding stopped
change_intent w intent now =
    if is_yes (intent_discrete w.intent intent)
    then none
    else some (record w {
      intent = intent;
      status = if is_active intent then w.status else stopped w.status now;
    })

unfoldable pub recover_from : WorkflowStatus → DurableWorkflow → Option DurableWorkflow
recover_from (executing o _) w = some (record w { status = reconciling o })
recover_from (stopping o _) w = some (record w { status = reconciling o })
recover_from _ w = none

-- The `switch` of `transitionWorkflow`.
unfoldable pub advance : DurableWorkflow → WorkflowEvent → ℕ → Option DurableWorkflow
unfolding change_intent start settle recover_from
advance w (intent_changed intent) now = change_intent w intent now
advance w (started id generation) now = start w id generation now
advance w (settled event) now = settle w event now
advance w recovered now = recover_from w.status w

unfoldable pub transition_workflow : DurableWorkflow → WorkflowEvent → ℕ → DurableWorkflow
unfolding advance
transition_workflow w event now = elim (advance w event now) [
  | none ↦ w
  | some next ↦ record next { revision = w.revision + 1; updated_at = now }
]

-- The events of one workflow in the order in which they are committed, each with its instant.
unfoldable pub run : DurableWorkflow → List (WorkflowEvent × ℕ) → DurableWorkflow
run w [] = w
run w ((event, now) ∷ events) = run (transition_workflow w event now) events

unfoldable pub retry_operation : Operation → Operation
retry_operation o = record o { generation = o.generation + 1; attempt = o.attempt + 1 }
