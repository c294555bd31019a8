-- ===== src/Tests/Journal.antt =====
-- Runs of the theorems about the store, the claims, the host's records, admission and restart.
use sloppenheimer_ts.Base.{
  ℕ, ◌+◌, ◌≢◌, leb, max, ◌≡◌, refl, true, false, if◌then◌else◌, List, [], ◌∷◌, none, some, arith,
  All, string_eq, string_discrete, ℕ_discrete, option_discrete,
}
use sloppenheimer_ts.Collections.{get}
use sloppenheimer_ts.Durable.Types.{
  unknown, Cleanup, ExternalOperation, merge, request_review, DurableWorkflow, executing, to_review,
  Artifact, repair_of, SourceControlTarget,
}
use sloppenheimer_ts.Durable.Transition.Budget.{WithinBudget}
use sloppenheimer_ts.Durable.Store.{Store, err, conflict, commit, revision_of}
use sloppenheimer_ts.Durable.Store.Commits.{
  commits_gapless, commits, empty_store, revisions, all_up_to,
}
use sloppenheimer_ts.Durable.Controller.{Answers, ClaimedOperation, claim_seen}
use sloppenheimer_ts.Durable.Controller.Claims.{IsGranted, claim_seen-IsGranted, claim_race}
use sloppenheimer_ts.Durable.Admission.{owner_of, admit, admitted_workflow, reject}
use sloppenheimer_ts.Durable.Admission.Laws.{admit-Permits, Permits, Continues}
use sloppenheimer_ts.Durable.Host.{done, Host, start, write, interrupted, changed, host_of}
use sloppenheimer_ts.Durable.Host.Sync.{HostCall, writes, starts}
use sloppenheimer_ts.Durable.Host.Owners.{superseded_owner_fenced}
use sloppenheimer_ts.Durable.Settlement.{published, settle_run}
use sloppenheimer_ts.Durable.Settlement.Laws.{settle_run_for_review, EarnsReview, PublishedAt}
use sloppenheimer_ts.Durable.Restore.{restored, restore_workflows}
use sloppenheimer_ts.Durable.Restore.Laws.{restore_workflows-IsAtRest, IsAtRest, Each, Retains}
use sloppenheimer_ts.Durable.Cleanup.{Round, stands, queued_cleanup, run_cleanup}
use sloppenheimer_ts.Durable.Cleanup.Attempts.{IsEnded, cleanup_ends}
use sloppenheimer_ts.Durable.External.{permits_pull_request, operation_for, begin_external}
use sloppenheimer_ts.Durable.External.Laws.{calls_exclude}
use sloppenheimer_ts.Tests.Data.{
  issue, workflow, publication, store, reviewing, host, verified_artifact,
}

abbrev answering : Answers
answering = record { reads = true; writes = true }

-- The commit that launches the publication.
abbrev next : DurableWorkflow
next = record workflow { status = executing publication 920; revision = 4; updated_at = 20 }

abbrev committed : Store
committed = record { rows = ("I7", next) ∷ []; history = next ∷ workflow ∷ [] }

commits_gapless_example :
    revisions
      (commits empty_store ((true, record workflow { revision = 0 }, none) ∷ [])).history
      "I7"
    ≡ all_up_to (
        revision_of (
          get
            (commits empty_store ((true, record workflow { revision = 0 }, none) ∷ [])).rows
            "I7"))
commits_gapless_example = commits_gapless ((true, record workflow { revision = 0 }, none) ∷ []) "I7"

abbrev claimed_publication : ClaimedOperation
claimed_publication = record { workflow = next; operation = publication; deadline = 920 }

claim_seen-IsGranted_example :
    IsGranted workflow "I7:publish" 4 20 store committed claimed_publication
unfolding claim_seen string_discrete ℕ_discrete option_discrete
claim_seen-IsGranted_example =
    claim_seen-IsGranted answering workflow "I7:publish" 4 20 store committed claimed_publication
      refl

claim_race_example : claim_seen answering workflow "I7:publish" 4 25 committed ≡ err conflict
unfolding claim_seen string_discrete ℕ_discrete option_discrete
claim_race_example =
    claim_race answering answering workflow "I7:publish" 4 20 25 store committed claimed_publication
      refl refl

-- A repair of the head that was published.
abbrev repair : SourceControlTarget
repair = repair_of "issue-7" "h1"

abbrev repairing : DurableWorkflow
repairing = admitted_workflow (some reviewing) issue repair to_review true 20

admit-Permits_example :
    Permits reviewing repair 20 × Continues reviewing repairing issue × WithinBudget repairing
unfolding admit
admit-Permits_example =
    admit-Permits reviewing repairing issue repair to_review true reject 20
      (record { coding = omega arith; repairs = omega arith }) refl

abbrev taken_over : Host
taken_over = host_of (start true issue repair to_review true reject 20 host)

-- The run that took over has written since.
abbrev written_since : Host
written_since = host_of (
    write true "I7" (changed (λ w. record w { verification_required = false }))
      (some (owner_of "I7" 4)) true 25 taken_over)

superseded_owner_fenced_example :
    write true "I7"
      (changed (λ w. record w { artifact = none }))
      (some (owner_of "I7" 1))
      true
      30
      written_since
    ≡ interrupted written_since
unfolding start write admitted_workflow commit string_discrete ℕ_discrete option_discrete
superseded_owner_fenced_example =
    superseded_owner_fenced true true true true reviewing
      (record repairing { verification_required = false; revision = 5; updated_at = 25 }) issue
      repair to_review reject 1 20 30 host taken_over written_since (owner_of "I7" 4)
      (changed (λ w. record w { artifact = none })) refl (omega arith) refl refl refl

abbrev calls : List HostCall
calls =
    starts true issue repair to_review true reject 20
    ∷ writes true "I7" (changed (λ w. record w { artifact = none })) none false 30
    ∷ []

abbrev ended : DurableWorkflow
ended = record workflow { status = executing publication 920 }

settle_run_for_review_example :
    EarnsReview true (some verified_artifact) (published "issue-7" "h1")
    × PublishedAt (settle_run ended (published "issue-7" "h1")).artifact (published "issue-7" "h1")
unfolding settle_run string_discrete option_discrete
settle_run_for_review_example = settle_run_for_review ended (published "issue-7" "h1") 90000 refl

abbrev untouched_artifact : Artifact
untouched_artifact = record verified_artifact { verified_revision = none }

abbrev stopped_run : DurableWorkflow
stopped_run = record workflow {
  status = executing publication 920;
  artifact = some untouched_artifact;
}

abbrev restarted : DurableWorkflow
restarted = restored workflow 50

abbrev restarted_store : Store
restarted_store = record { rows = ("I7", restarted) ∷ []; history = restarted ∷ workflow ∷ [] }

restore_workflows-IsAtRest_example :
    Each Retains (workflow ∷ []) (restarted ∷ []) × All IsAtRest (restarted ∷ [])
unfolding restore_workflows restored commit string_discrete ℕ_discrete option_discrete
restore_workflows-IsAtRest_example =
    restore_workflows-IsAtRest true (workflow ∷ []) (restarted ∷ []) 50 store restarted_store refl

abbrev merging : ExternalOperation
merging = operation_for reviewing "I7" merge "h1" 50

abbrev called : DurableWorkflow
called = record reviewing { external_operation = some merging; revision = 4; updated_at = 60 }

abbrev calling_host : Host
calling_host = record {
  records = ("I7", called) ∷ [];
  store = record { rows = ("I7", called) ∷ []; history = called ∷ reviewing ∷ [] };
  failure = none;
}

calls_exclude_example :
    begin_external true "I7" called request_review "h1" 70 80 calling_host
    ≢ done (some (operation_for called "I7" request_review "h1" 70)) calling_host
unfolding begin_external permits_pull_request commit string_discrete ℕ_discrete option_discrete
calls_exclude_example =
    calls_exclude true true reviewing reviewing called merge request_review "h1" "h1" 50 60 70 80
      host calling_host calling_host calling_host merging
      (operation_for called "I7" request_review "h1" 70) refl refl refl

-- The third removal succeeds, and nobody else writes.
abbrev undisturbed : ℕ → Round
undisturbed n = record {
  there = true;
  claim = stands;
  removal = record { error = if leb 2 n then none else some "busy"; settled_at = 100 };
  settlement = stands;
}

abbrev busy_workspace : Cleanup
busy_workspace = queued_cleanup verified_artifact 50

cleanup_ends_example :
    IsEnded undisturbed (max 5 (0 + 1)) (run_cleanup 6 busy_workspace undisturbed)
cleanup_ends_example = cleanup_ends busy_workspace undisturbed

abbrev answered : DurableWorkflow
answered = record called {
  external_operation = some (record merging { outcome = unknown });
  repeated_failures = 1;
  last_failure_signature = some merging.id;
  revision = 5;
  updated_at = 90;
}
