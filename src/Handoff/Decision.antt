-- ===== src/Handoff/Decision.antt =====
-- packages/core/src/core/handoff-decision.ts: the state machine over observations of a pull
-- request. `observe_handoff` makes the steps of the source in their order, each of which can end
-- the pass.
pub mod Merging
pub mod Repairs
use sloppenheimer_ts.Base.{
  ℕ, ◌+◌, String, Bool, true, false, not, ◌&&◌, ◌||◌, List, [], ◌∷◌, ◌++◌, map, Option, none, some,
  ◌==◌, ◌!=◌, leb, if◌then◌else◌, Eq, string_eq, option_eq, every, includes, length, template,
}
use sloppenheimer_ts.Domain.Handoff.{
  HandoffState, RepairPublication, published, intervention_required, merging,
}
use sloppenheimer_ts.Domain.Handoff
use sloppenheimer_ts.Handoff.Observation.{
  Observation, OpenPullRequest, PullRequest, opened, closed, CodexReview, ReviewStatus,
  ReviewThread, Disposition, merged, closed_without_merge, awaiting_checks, repair_needed,
  rebase_needed, ready_to_merge, classify_pull_request, outdated_review_threads,
  outdated_thread_note, is_complete, succeeded, is_nonempty,
}
use sloppenheimer_ts.Handoff.Observation
use sloppenheimer_ts.Handoff.Entry.{
  HandoffEntry, RepairEntry, RebaseEntry, release_repair, rebased_reason,
}
use sloppenheimer_ts.Handoff.Action.{
  HandoffAction, no_action, request_review, resolve_threads, merge, complete, note_closed, repair,
  rebase, HandoffDecision, Step, carry, decide, continue_with, head_of, open_at,
}
use sloppenheimer_ts.Handoff.Attribution.{await_rebased_head, attribute_step}
use sloppenheimer_ts.Handoff.Review.{gate_review}

abbrev pub repair_limit : ℕ
repair_limit = 3

abbrev pub settled_merge_states : List String
settled_merge_states = "clean" ∷ "blocked" ∷ []

abbrev pub is_mergeable : Option Bool → Bool
is_mergeable (some true) = true
is_mergeable _ = false

unfoldable pub head_is_verified : Observation → OpenPullRequest → Bool
unfolding succeeded
head_is_verified o p =
    is_mergeable p.mergeable
    && includes settled_merge_states p.merge_state
    && every (λ c. is_complete c && succeeded c) o.checks

abbrev pub reason_of : Disposition → Option String
reason_of (closed_without_merge r) = some r
reason_of (awaiting_checks r) = some r
reason_of (repair_needed r) = some r
reason_of (rebase_needed r) = some r
reason_of _ = none

unfoldable pub recorded_reason : Disposition → Option String → Option String
unfolding template
recorded_reason d none = reason_of d
recorded_reason d (some history) = elim (reason_of d) [
  | none ↦ some history
  | some r ↦ some (template (r ∷ "\n\n" ∷ history ∷ []))
]

abbrev pub state_of : Disposition → HandoffState
state_of (merged _) = HandoffState.merged
state_of (closed_without_merge _) = HandoffState.closed_without_merge
state_of (awaiting_checks _) = HandoffState.awaiting_checks
state_of (repair_needed _) = HandoffState.repair_needed
state_of (rebase_needed _) = HandoffState.rebase_needed
state_of (ready_to_merge _) = HandoffState.ready_to_merge

abbrev pub or_reason : Option String → String → String
or_reason none reason = reason
or_reason (some r) reason = r

unfoldable pub act_on_disposition : HandoffEntry → Disposition → Observation → HandoffDecision
unfolding template
act_on_disposition h (merged _) o = record { handoff = h; action = complete o.merged_at }
act_on_disposition h (closed_without_merge _) o = record { handoff = h; action = note_closed }
act_on_disposition h (ready_to_merge head) o = record {
  handoff = record h { state = merging };
  action = merge head;
}
act_on_disposition h (repair_needed reason) o =
    if leb repair_limit (length h.repair_head_shas)
    then record {
      handoff = record h {
        state = intervention_required;
        reason = some (template ("Repair limit reached. " ∷ or_reason h.reason reason ∷ []));
      };
      action = no_action;
    }
    else record {
      handoff = h;
      action = repair reason (head_of o.pull_request) (length h.repair_head_shas + 1);
    }
act_on_disposition h (rebase_needed reason) o = elim o.pull_request [
  | opened p ↦ record { handoff = h; action = rebase p.head_sha reason }
  | closed _ ↦ record { handoff = h; action = no_action }
]
act_on_disposition h (awaiting_checks _) o = record { handoff = h; action = no_action }

-- The end of the pass: the disposition of the observation, recorded and acted on.
unfoldable pub dispose : HandoffEntry → Observation → Disposition → HandoffDecision
dispose h o d =
    act_on_disposition
      (record h {
        state = state_of d;
        head_sha = head_of o.pull_request;
        reason = recorded_reason d (outdated_thread_note o);
      })
      d o

-- The retirement of outdated threads at a verified head, before the disposition.
unfoldable pub retire_or_dispose : HandoffEntry → Observation → HandoffDecision
retire_or_dispose h o = elim o.pull_request [
  | opened p ↦
      if is_nonempty (outdated_review_threads o) && head_is_verified o p
      then record {
        handoff = record h { state = HandoffState.awaiting_checks };
        action = resolve_threads p.head_sha (map (λ t. t.id) (outdated_review_threads o));
      }
      else dispose h o (classify_pull_request o)
  | closed _ ↦ dispose h o (classify_pull_request o)
]

unfoldable pub gate_or_dispose : HandoffEntry → Observation → HandoffDecision
gate_or_dispose h o = elim o.pull_request [
  | opened p ↦ elim (gate_review h o.codex_review p.head_sha) [
    | some d ↦ d
    | none ↦ retire_or_dispose h o
  ]
  | closed _ ↦ retire_or_dispose h o
]

abbrev pub needs_intervention : HandoffState → Bool
needs_intervention intervention_required = true
needs_intervention _ = false

unfoldable pub observe_handoff : HandoffEntry → Observation → ℕ → HandoffDecision
observe_handoff h o now =
    let observed = record h { observed_at = now } in
    if needs_intervention h.state && open_at o.pull_request h.head_sha
    then record { handoff = observed; action = no_action }
    else continue_with (await_rebased_head observed o.pull_request)
        λ awaited. continue_with (attribute_step awaited o) λ next. gate_or_dispose next o

-- What the pass records of the calls that it made.
unfoldable pub after_inspection_failed : HandoffEntry → ℕ → String → HandoffEntry
after_inspection_failed h now message = record h { observed_at = now; reason = some message }

unfoldable pub after_review_requested : HandoffEntry → String → Option String → HandoffEntry
unfolding template
after_review_requested h head none = record h {
  review_requested_head_sha = some head;
  reason = some "Codex review requested for the current head";
}
after_review_requested h head (some failure) = record h {
  reason = some (template ("Could not request Codex review for the current head: " ∷ failure ∷ []));
}

unfoldable pub after_threads_resolved : HandoffEntry → Option String → HandoffEntry
after_threads_resolved h failure = record h {
  reason = some (or_reason failure "Verified repair head; waiting for resolved review state");
}

unfoldable pub after_merge : HandoffEntry → Option String → HandoffEntry
after_merge h none = record h { state = HandoffState.merged }
after_merge h (some failure) = record h {
  state = HandoffState.awaiting_checks;
  reason = some failure;
}
