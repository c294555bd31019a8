-- ===== src/Handoff/Entry.antt =====
-- `HandoffEntry`, `RepairEntry` and `RebaseEntry` of packages/core/src/core/state.ts, and the
-- functions of core/repair.ts and core/rebase.ts that begin, annotate and end them.
use sloppenheimer_ts.Base.{
  ℕ, String, Bool, true, false, List, [], ◌∷◌, ◌++◌, Option, none, some, if◌then◌else◌, string_eq,
  includes, template,
}
use sloppenheimer_ts.Domain.Issue.{Issue}
use sloppenheimer_ts.Domain.Execution.{ExecutionSnapshot}
use sloppenheimer_ts.Domain.Handoff.{
  HandoffState, awaiting_checks, intervention_required, RepairPublication, pending,
}

pub record RepairEntry : Type 0 where
  pub issue : Issue
  pub started_head_sha : String
  pub in_flight : Bool
  pub worker_started : Bool
  pub publication : RepairPublication
  pub published_head_sha : Option String

pub record RebaseEntry : Type 0 where
  pub head_sha : String
  pub execution : ExecutionSnapshot
  pub published_head_sha : Option String

pub record HandoffEntry : Type 0 where
  pub issue : Issue
  pub execution : ExecutionSnapshot
  pub pull_request_number : ℕ
  pub pull_request_url : String
  pub branch_name : String
  pub state : HandoffState
  pub head_sha : Option String
  pub reason : Option String
  pub repair_head_shas : List String
  pub repair_observed_head_shas : List String
  pub repair : Option RepairEntry
  pub rebase : Option RebaseEntry
  pub review_requested_head_sha : Option String
  pub review_completed_head_sha : Option String
  pub observed_at : ℕ

-- repair.ts.
unfoldable pub repair_issue : HandoffEntry → Issue → Option String → String → Issue
unfolding template
repair_issue h issue head reason = record issue {
  description = some (
      template (
        elim issue.description [ some d ↦ d | none ↦ "" ]
        ∷ "\n\n## Pull request repair\n\nPR: "
        ∷ h.pull_request_url
        ∷ "\nHead: "
        ∷ elim head [ some s ↦ s | none ↦ "null" ]
        ∷ "\n\n"
        ∷ reason
        ∷ []));
}

unfoldable pub awaiting_slot : HandoffEntry → String → HandoffEntry
unfolding template
awaiting_slot h reason = record h {
  reason = some (template ("Waiting for an agent slot. " ∷ reason ∷ []));
}

unfoldable pub after_repair_dispatched :
    HandoffEntry → Bool → Issue → String → String → HandoffEntry
unfolding template
after_repair_dispatched h started issue head reason = record h {
  repair = some (record {
    issue = issue;
    started_head_sha = head;
    in_flight = true;
    worker_started = started;
    publication = pending;
    published_head_sha = none;
  });
  repair_observed_head_shas =
      if includes h.repair_observed_head_shas head
      then h.repair_observed_head_shas
      else h.repair_observed_head_shas ++ head ∷ [];
  reason = some (
      template (
        (if started then "Repair agent running. " else "Repair agent waiting to retry. ")
        ∷ reason
        ∷ []));
}

unfoldable pub settle_repair : HandoffEntry → HandoffEntry
settle_repair h = elim h.repair [
  | none ↦ h
  | some r ↦ record h {
    repair = if r.worker_started then some (record r { in_flight = false }) else none;
  }
]

unfoldable pub note_publication : HandoffEntry → RepairPublication → Option String → HandoffEntry
note_publication h publication published = elim h.repair [
  | none ↦ h
  | some r ↦ record h {
    repair = some (record r {
      publication = publication;
      published_head_sha = elim published [ some s ↦ some s | none ↦ r.published_head_sha ];
    });
  }
]

unfoldable pub reactivate_repair : HandoffEntry → HandoffEntry
reactivate_repair h = elim h.repair [
  | none ↦ h
  | some r ↦ if r.in_flight then h else record h { repair = some (record r { in_flight = true }) }
]

unfoldable pub release_repair : HandoffEntry → HandoffEntry
release_repair h = elim h.repair [ none ↦ h | some _ ↦ record h { repair = none } ]

-- core/polling/resume-intervention.ts: one fresh repair window at the present head.
unfoldable pub retry_handoff_intervention : HandoffEntry → HandoffEntry
retry_handoff_intervention h = record h {
  state = HandoffState.repair_needed;
  reason = some "Operator requested another bounded repair attempt.";
  repair_head_shas = [];
  repair_observed_head_shas = elim h.head_sha [ none ↦ [] | some s ↦ s ∷ [] ];
  repair = none;
  rebase = none;
}

-- rebase.ts.
pub data RebaseOutcome : Type 0 where
  published : String → RebaseOutcome
  no_changes : RebaseOutcome
  conflicted : String → RebaseOutcome
  repair_failed : String → RebaseOutcome
  blocked : String → RebaseOutcome
  failed : String → RebaseOutcome

unfoldable pub rebase_in_flight : HandoffEntry → Bool
rebase_in_flight h = elim h.rebase [
  | none ↦ false
  | some r ↦ elim r.published_head_sha [ none ↦ true | some _ ↦ false ]
]

unfoldable pub rebase_started : HandoffEntry → String → HandoffEntry
rebase_started h head = record h {
  rebase = some (record { head_sha = head; execution = h.execution; published_head_sha = none });
  reason = some "Rebasing the pull request branch onto protected main";
}

abbrev pub rebased_reason : String
rebased_reason =
    "Rebased the pull request branch onto protected main; waiting for the pull request to report the new head"

abbrev pub with_published : String → Option RebaseEntry → Option RebaseEntry
with_published head none = none
with_published head (some r) = some (record r { published_head_sha = some head })

-- The intervention that a rebase ends in.
unfoldable pub intervene : HandoffEntry → String → String → HandoffEntry
unfolding template
intervene h cause message = record h {
  rebase = none;
  state = intervention_required;
  reason = some (template (cause ∷ message ∷ []));
}

unfoldable pub rebase_settled : HandoffEntry → RebaseOutcome → HandoffEntry
unfolding intervene template
rebase_settled h (published head) = record h {
  rebase = with_published head h.rebase;
  state = awaiting_checks;
  head_sha = some head;
  reason = some rebased_reason;
}
rebase_settled h no_changes = record h {
  rebase = none;
  state = awaiting_checks;
  reason =
      some
        "The pull request branch already sits on protected main; waiting for the pull request to report it";
}
rebase_settled h (conflicted message) =
    intervene h
      "The pull request branch is behind protected main and could not be rebased onto it: " message
rebase_settled h (repair_failed message) =
    intervene h "Publication conflict repair failed; conflicted workspace retained: " message
rebase_settled h (blocked message) =
    intervene h "Rebased candidate is held before publication: " message
rebase_settled h (failed message) = record h {
  rebase = none;
  reason =
      some (
        template ("Could not rebase the pull request branch onto protected main: " ∷ message ∷ []));
}
