-- ===== src/Durable/Settlement.antt =====
-- packages/core/src/core/durable/settlement.ts and retry-settlement.ts: how a run that ended or stopped
-- leaves its workflow.
pub mod Laws
use sloppenheimer_ts.Base.{
  ℕ, ◌+◌, ◌-◌, max, String, Bool, true, false, not, ◌&&◌, ◌||◌, List, [], ◌∷◌, Option, none, some,
  ◌==◌, ◌!=◌, leb, is_some, if◌then◌else◌, Eq, string_eq, option_eq, template, string_of,
}
use sloppenheimer_ts.Durable.Types.{
  Artifact, Repository, PublicationConflict, WorkflowStatus, executing, stopping, waiting,
  intervention, WaitCondition, retry, review, continuation, AfterPublication, to_review,
  to_continuation, SourceControlTarget, normal, repair_of, DurableWorkflow, repair, Operation,
}

-- The outcomes of postflight.ts and of the source-control port, with what `settleRun` reads.
pub data RunOutcome : Type 0 where
  not_performed : RunOutcome
  no_changes : String → RunOutcome
  published : String → String → RunOutcome
  delivery_failed : String → String → RunOutcome

abbrev pub is_waiting_for_retry : WorkflowStatus → Bool
is_waiting_for_retry (waiting retry _) = true
is_waiting_for_retry _ = false

unfoldable pub same_target : SourceControlTarget → SourceControlTarget → Bool
same_target (normal b) (normal c) = b == c
same_target (repair_of b h) (repair_of c g) = b == c && h == g
same_target _ _ = false

unfoldable pub matches_previous : Option SourceControlTarget → SourceControlTarget → Bool
unfolding same_target
matches_previous none target = false
matches_previous (some previous) target = same_target previous target

unfoldable pub retry_matches : DurableWorkflow → SourceControlTarget → Bool
unfolding matches_previous
retry_matches w target = is_waiting_for_retry w.status && matches_previous w.run_target target

abbrev pub is_none {ℓ} : {A : Type ℓ} → Option A → Bool
is_none none = true
is_none (some _) = false

-- The workspace was inspected and is still at its baseline, with nothing verified or published.
unfoldable pub untouched : Option String → Option Artifact → Bool
untouched none artifact = false
untouched (some head) none = false
untouched (some head) (some a) =
    head == a.baseline_sha
    && is_none a.publication_conflict
    && is_none a.verified_revision
    && is_none a.published_head

unfoldable pub retry_is_safe : DurableWorkflow → Option String → Bool → Bool
unfolding untouched
retry_is_safe w observed before_preparation =
    is_some w.run_target
    && (before_preparation && is_none w.artifact || untouched observed w.artifact)

unfoldable pub stopped_status : DurableWorkflow → Option String → Bool → WorkflowStatus
unfolding retry_is_safe
stopped_status w observed before_preparation =
    if retry_is_safe w observed before_preparation
    then waiting retry w.budget_deadline
    else intervention
        "Stopped run retained partial or uncertain work; inspect the candidate before resuming"

-- `none` where the source returns the workflow that it was given.
unfoldable pub settle_stopped_run : DurableWorkflow → Option String → Bool → Option DurableWorkflow
unfolding stopped_status
settle_stopped_run w observed before_preparation = elim w.status [
  | executing _ _ ↦ some (record w { status = stopped_status w observed before_preparation })
  | stopping _ _ ↦ some (record w { status = stopped_status w observed before_preparation })
  | _ ↦ none
]

-- `artifact.repository?.headSha === head && artifact.verifiedRevision !== null &&
-- artifact.verifiedRevision === artifact.repository.treeSha`.
unfoldable pub exactly_verified : Option Repository → Option String → String → Bool
exactly_verified none verified head = false
exactly_verified (some r) verified head =
    r.head_sha == head && is_some verified && verified == r.tree_sha

unfoldable pub publication_verified : Bool → Option Artifact → RunOutcome → Bool
unfolding exactly_verified
publication_verified required (some a) (published branch head) =
    not required || exactly_verified a.repository a.verified_revision head
publication_verified required _ _ = false

unfoldable pub moved_repository : Bool → Option Repository → String → Option Repository
moved_repository false (some r) head = some (record r { head_sha = head })
moved_repository required repository head = repository

unfoldable pub published_artifact : Bool → Option Artifact → RunOutcome → Option Artifact
unfolding moved_repository
published_artifact required (some a) (published branch head) = some (record a {
  published_head = some head;
  repository = moved_repository required a.repository head;
})
published_artifact required artifact _ = artifact

abbrev pub continues : Option AfterPublication → Bool
continues (some to_continuation) = true
continues _ = false

-- `current.afterPublication ?? 'review'`.
abbrev pub awaited : Option AfterPublication → WaitCondition
awaited (some to_continuation) = continuation
awaited _ = review

abbrev pub is_no_changes : RunOutcome → Bool
is_no_changes (no_changes _) = true
is_no_changes _ = false

abbrev pub unsettled_reason : RunOutcome → String
unsettled_reason (published _ _) =
    "Observed publication does not match durable verification evidence; inspect before repair"
unsettled_reason (delivery_failed _ message) = template ("Candidate retained: " ∷ message ∷ [])
unsettled_reason _ = "Run ended without a published candidate; inspect before a new coding attempt"

unfoldable pub settle_run : DurableWorkflow → RunOutcome → DurableWorkflow
unfolding publication_verified published_artifact
settle_run w outcome = record w {
  artifact = published_artifact w.verification_required w.artifact outcome;
  status =
      if publication_verified w.verification_required w.artifact outcome
        || is_no_changes outcome && continues w.after_publication
      then waiting (awaited w.after_publication) w.budget_deadline
      else intervention (unsettled_reason outcome);
}

unfoldable pub await_continuation : DurableWorkflow → Option DurableWorkflow
await_continuation w = elim w.status [
  | waiting review deadline ↦ some (record w {
    after_publication = some to_continuation;
    status = waiting continuation deadline;
  })
  | _ ↦ none
]
