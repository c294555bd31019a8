-- ===== src/Durable/Types.antt =====
-- packages/core/src/domain/durable-workflow.ts, completion.ts, the persisted handoff of handoff.ts,
-- and the target of packages/core/src/ports/source-control.ts. A nullable or optional field is an
-- `Option`; an instant or a duration is a number of milliseconds.
use sloppenheimer_ts.Base.{ℕ, String, Bool, List, Option, refl, true, false}
use sloppenheimer_ts.Domain.Handoff.{HandoffSnapshot}

pub data ExternalOperationKind : Type 0 where
  ensure_pull_request request_review resolve_threads merge : ExternalOperationKind

pub data ExternalOutcome : Type 0 where
  pending succeeded failed unknown : ExternalOutcome

pub record ExternalOperation : Type 0 where
  pub id : String
  pub kind : ExternalOperationKind
  pub head_sha : String
  pub generation : ℕ
  pub deadline : ℕ
  pub outcome : ExternalOutcome

pub data OperationKind : Type 0 where
  prepare implement inspect verify publish ensure_request observe_review repair cleanup :
      OperationKind

pub record Operation : Type 0 where
  pub id : String
  pub generation : ℕ
  pub kind : OperationKind
  pub input_revision : String
  pub attempt : ℕ
  pub timeout_ms : ℕ

pub record RemoteObservation : Type 0 where
  pub head_sha : Option String
  pub observed_at : ℕ

pub record PublicationConflict : Type 0 where
  pub original_head_sha : String
  pub base_sha : String
  pub head_sha : String
  pub stopped_commit_sha : String
  pub paths : List String

pub record Repository : Type 0 where
  pub identity : Option String
  pub branch_name : String
  pub base_branch : String
  pub base_sha : String
  pub head_sha : String
  pub tree_sha : Option String

pub record Artifact : Type 0 where
  pub id : String
  pub workspace_path : String
  pub workspace_key : String
  pub baseline_sha : String
  pub candidate_revision : String
  pub expected_remote_head : Option String
  pub verified_revision : Option String
  pub published_head : Option String
  pub remote_observation : Option RemoteObservation
  pub publication_conflict : Option PublicationConflict
  pub repository : Option Repository

pub data WaitCondition : Type 0 where
  capacity checks review eligibility continuation retry : WaitCondition

pub data WorkflowStatus : Type 0 where
  queued : Operation → WorkflowStatus
  executing : Operation → ℕ → WorkflowStatus
  stopping : Operation → ℕ → WorkflowStatus
  reconciling : Operation → WorkflowStatus
  retrying : Operation → ℕ → WorkflowStatus
  waiting : WaitCondition → ℕ → WorkflowStatus
  intervention : String → WorkflowStatus
  completed : Option String → WorkflowStatus

-- The workflow waits for an operator.
abbrev pub is_intervention : WorkflowStatus → Bool
is_intervention (intervention _) = true
is_intervention _ = false

pub data Intent : Type 0 where
  active paused cancelled : Intent

unfoldable pub intent_discrete : Discrete Intent
intent_discrete active active = yes refl
intent_discrete active paused = no (λ p. cc)
intent_discrete active cancelled = no (λ p. cc)
intent_discrete paused active = no (λ p. cc)
intent_discrete paused paused = yes refl
intent_discrete paused cancelled = no (λ p. cc)
intent_discrete cancelled active = no (λ p. cc)
intent_discrete cancelled paused = no (λ p. cc)
intent_discrete cancelled cancelled = yes refl

pub data AfterPublication : Type 0 where
  to_review to_continuation : AfterPublication

pub data SourceControlTarget : Type 0 where
  normal : String → SourceControlTarget
  repair_of : String → String → SourceControlTarget

pub record Completion : Type 0 where
  pub issue_id : String
  pub identifier : String
  pub title : String
  pub url : Option String
  pub finished_at : ℕ
  pub pull_request_url : Option String

pub record PublicationRecovery : Type 0 where
  pub admitted_at : ℕ
  pub maximum_repair_attempts : ℕ

pub data CleanupState : Type 0 where
  queued running retry completed intervention : CleanupState

pub record Cleanup : Type 0 where
  pub workspace_path : String
  pub workspace_key : String
  pub state : CleanupState
  pub attempts : ℕ
  pub due_at : ℕ
  pub reason : Option String

-- `version` is the literal 1 and is left out.
pub record DurableWorkflow : Type 0 where
  pub issue_id : String
  pub identifier : String
  pub objective : String
  pub revision : ℕ
  pub intent : Intent
  pub verification_required : Bool
  pub after_publication : Option AfterPublication
  pub run_target : Option SourceControlTarget
  pub owner : Option String
  pub completion : Option Completion
  pub handoff : Option HandoffSnapshot
  pub publication_recovery : Option PublicationRecovery
  pub external_operation : Option ExternalOperation
  pub cleanup : Option Cleanup
  pub status : WorkflowStatus
  pub artifact : Option Artifact
  pub coding_attempts : ℕ
  pub repair_attempts : ℕ
  pub maximum_coding_attempts : ℕ
  pub maximum_repair_attempts : ℕ
  pub budget_deadline : ℕ
  pub last_progress_at : ℕ
  pub last_failure_signature : Option String
  pub repeated_failures : ℕ
  pub updated_at : ℕ
