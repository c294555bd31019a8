-- ===== src/Handoff/Review.antt =====
-- packages/core/src/core/handoff-decision.ts: the review gate. Every head is reviewed once, and a head
-- passes only when its review has completed and settled.
use sloppenheimer_ts.Base.{
  String, Bool, true, false, not, ◌&&◌, Option, none, some, ◌==◌, ◌!=◌, if◌then◌else◌, string_eq,
  option_eq,
}
use sloppenheimer_ts.Domain.Handoff.{HandoffState}
use sloppenheimer_ts.Handoff.Observation.{CodexReview, ReviewStatus}
use sloppenheimer_ts.Handoff.Entry.{HandoffEntry}
use sloppenheimer_ts.Handoff.Action.{no_action, request_review, HandoffDecision}

abbrev pub settle_reason : String
settle_reason = "Codex review completed for the current head; waiting for review state to settle"

abbrev pub review_reason : String
review_reason = "Waiting for Codex review of the current head to complete"

abbrev pub review_completed : ReviewStatus → Bool
review_completed ReviewStatus.completed = true
review_completed _ = false

-- A completed review of this head.
abbrev pub reviewed_at : Option CodexReview → String → Bool
reviewed_at none head = false
reviewed_at (some r) head = review_completed r.status && head == r.head_sha

-- A head that no review was requested for: adopt a review that exists, or ask for one.
unfoldable pub adopt_review : HandoffEntry → Option CodexReview → String → HandoffDecision
adopt_review h none head = record {
  handoff = record h { review_completed_head_sha = none; state = HandoffState.awaiting_checks };
  action = request_review head;
}
adopt_review h (some r) head =
    if head == r.head_sha
    then (if review_completed r.status
        then record {
          handoff = record h {
            review_requested_head_sha = some head;
            review_completed_head_sha = some head;
            state = HandoffState.awaiting_checks;
            reason = some settle_reason;
          };
          action = no_action;
        }
        else record {
          handoff = record h {
            review_completed_head_sha = none;
            review_requested_head_sha = some head;
            state = HandoffState.awaiting_checks;
            reason = some review_reason;
          };
          action = no_action;
        })
    else record {
      handoff = record h { review_completed_head_sha = none; state = HandoffState.awaiting_checks };
      action = request_review head;
    }

unfoldable pub gate_review : HandoffEntry → Option CodexReview → String → Option HandoffDecision
unfolding adopt_review
gate_review h review head =
    if h.review_requested_head_sha != some head
    then some (adopt_review h review head)
    else if not (reviewed_at review head)
    then some (record {
      handoff = record h {
        review_completed_head_sha = none;
        state = HandoffState.awaiting_checks;
        reason = some review_reason;
      };
      action = no_action;
    })
    else if h.review_completed_head_sha != some head
    then some (record {
      handoff = record h {
        review_completed_head_sha = some head;
        state = HandoffState.awaiting_checks;
        reason = some settle_reason;
      };
      action = no_action;
    })
    else none
