-- ===== src/Durable/Admission.antt =====
-- packages/core/src/core/durable/admission.ts and `admittedWorkflow` of transition.ts: whether a run
-- may start on an issue, and the workflow that it starts with.
pub mod Laws
use sloppenheimer_ts.Base.{
  ℕ, ◌+◌, String, Bool, true, false, not, ◌&&◌, ◌||◌, List, [], ◌∷◌, Option, none, some, ◌==◌, leb,
  if◌then◌else◌, Eq, string_eq, template, string_of,
}
use sloppenheimer_ts.Collections.{Map, get}
use sloppenheimer_ts.Domain.Issue.{Issue}
use sloppenheimer_ts.Durable.Types.{
  Operation, WorkflowStatus, executing, waiting, completed, intervention, review, retry,
  continuation, AfterPublication, SourceControlTarget, normal, repair_of, active, DurableWorkflow,
  prepare,
}
use sloppenheimer_ts.Durable.Transition.{is_active}
use sloppenheimer_ts.Durable.Settlement.{is_waiting_for_retry, retry_matches}

abbrev pub is_repair_target : SourceControlTarget → Bool
is_repair_target (repair_of _ _) = true
is_repair_target (normal _) = false

abbrev pub next_of : Option DurableWorkflow → ℕ
next_of none = 0
next_of (some w) = w.revision + 1

-- `current?.field ?? other`.
abbrev pub field_or {ℓ κ} : {W : Type ℓ} {A : Type κ} → Option W → (W → A) → A → A
field_or none field other = other
field_or (some w) field other = field w

abbrev pub field_of {ℓ κ} : {W : Type ℓ} {A : Type κ} → Option W → (W → Option A) → Option A
field_of none field = none
field_of (some w) field = field w

-- `${issue.id}:run:${String(revision)}`.
unfoldable pub owner_of : String → ℕ → String
unfolding template string_of
owner_of id revision = template (id ∷ ":run:" ∷ string_of revision ∷ [])

unfoldable pub input_of : SourceControlTarget → String → String
input_of (repair_of branch head) owner = head
input_of (normal branch) owner = owner

unfoldable pub admitted_workflow :
    Option DurableWorkflow
    → Issue
    → SourceControlTarget
    → AfterPublication
    → Bool
    → ℕ
    → DurableWorkflow
unfolding owner_of input_of template
admitted_workflow current issue target after_publication verification_required now =
    let revision = next_of current in
    let owner = owner_of issue.id revision in
    record {
      issue_id = issue.id;
      identifier = issue.identifier;
      objective = issue.title;
      revision = revision;
      intent = active;
      verification_required = verification_required;
      after_publication = some after_publication;
      run_target = some target;
      owner = some owner;
      completion = field_of current (λ w. w.completion);
      handoff = field_of current (λ w. w.handoff);
      publication_recovery = none;
      external_operation = none;
      cleanup = none;
      status =
          executing
            (record {
              id = template (owner ∷ ":prepare" ∷ []);
              generation = revision + 1;
              kind = prepare;
              input_revision = input_of target owner;
              attempt = 0;
              timeout_ms = 900000;
            })
            (now + 900000);
      artifact = none;
      coding_attempts =
          field_or current (λ w. w.coding_attempts) 0 + (if is_repair_target target then 0 else 1);
      repair_attempts =
          field_or current (λ w. w.repair_attempts) 0 + (if is_repair_target target then 1 else 0);
      maximum_coding_attempts = field_or current (λ w. w.maximum_coding_attempts) 3;
      maximum_repair_attempts = field_or current (λ w. w.maximum_repair_attempts) 3;
      budget_deadline = field_or current (λ w. w.budget_deadline) (now + 86400000);
      last_progress_at = now;
      last_failure_signature = none;
      repeated_failures = 0;
      updated_at = now;
    }

pub data RetryMismatch : Type 0 where
  reject intervene : RetryMismatch

-- What the host persists, and whether the run starts.
pub data Admission : Type 0 where
  refused : Admission
  held : DurableWorkflow → Admission
  admitted : DurableWorkflow → Admission

-- The two interventions that a refused admission persists.
unfoldable pub hold : DurableWorkflow → ℕ → String → DurableWorkflow
hold w now reason = record w {
  revision = w.revision + 1;
  updated_at = now;
  status = intervention reason;
}

abbrev pub awaits_start : WorkflowStatus → Bool → Bool
awaits_start (completed _) repair = repair
awaits_start (waiting review _) repair = repair
awaits_start (waiting continuation _) repair = not repair
awaits_start _ repair = false

unfoldable pub spent : DurableWorkflow → Bool → ℕ → Bool
spent w repair now =
    leb w.budget_deadline now
    || (if repair
        then leb w.maximum_repair_attempts w.repair_attempts
        else leb w.maximum_coding_attempts w.coding_attempts)

abbrev pub mismatched : RetryMismatch → DurableWorkflow → ℕ → Admission
mismatched reject w now = refused
mismatched intervene w now = held (
    hold w now
      "Retry input changed before dispatch; reconcile the new head before another mutation")

-- The decision for an issue that has a durable workflow already.
unfoldable pub admit_current :
    DurableWorkflow
    → Issue
    → SourceControlTarget
    → AfterPublication
    → Bool
    → RetryMismatch
    → ℕ
    → Admission
unfolding retry_matches spent admitted_workflow hold
admit_current w issue target after_publication verification_required retry_mismatch now =
    let repair = is_repair_target target in
    if is_waiting_for_retry w.status && not (retry_matches w target)
    then mismatched retry_mismatch w now
    else if not (is_active w.intent) || not (retry_matches w target || awaits_start w.status repair)
    then refused
    else if spent w repair now
    then held (hold w now "The workflow coding, repair, or time budget is exhausted")
    else admitted
        (admitted_workflow (some w) issue target after_publication verification_required now)

unfoldable pub admit :
    Option DurableWorkflow
    → Issue
    → SourceControlTarget
    → AfterPublication
    → Bool
    → RetryMismatch
    → ℕ
    → Admission
unfolding admit_current admitted_workflow
admit none issue target after_publication verification_required retry_mismatch now =
    admitted (admitted_workflow none issue target after_publication verification_required now)
admit (some w) issue target after_publication verification_required retry_mismatch now =
    admit_current w issue target after_publication verification_required retry_mismatch now

-- `durableWorkflowFor`: the first record of the issue by either of its names.
unfoldable pub durable_workflow_for : Map String DurableWorkflow → Issue → Option DurableWorkflow
durable_workflow_for [] issue = none
durable_workflow_for ((k, w) ∷ rows) issue =
    if w.issue_id == issue.id || w.identifier == issue.identifier
    then some w
    else durable_workflow_for rows issue

-- `snapshot.get(issue.id) ?? durableWorkflowFor(snapshot.values(), issue)`.
unfoldable pub current_for : Map String DurableWorkflow → Issue → Option DurableWorkflow
unfolding get durable_workflow_for
current_for rows issue = elim (get rows issue.id) [
  | some w ↦ some w
  | none ↦ durable_workflow_for rows issue
]
