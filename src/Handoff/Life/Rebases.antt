-- ===== src/Handoff/Life/Rebases.antt =====
-- A rebase from its start to the observation of the head that it pushed.
use sloppenheimer_ts.Base.{ℕ, String, false, ◌≡◌, refl, string_eq, arith, option_discrete}
use sloppenheimer_ts.Handoff.Observation.{Observation, OpenPullRequest, opened}
use sloppenheimer_ts.Handoff.Entry.{
  HandoffEntry, RebaseOutcome, published, no_changes, conflicted, repair_failed, blocked, failed,
  rebase_settled, rebase_in_flight, intervene, rebase_started,
}
use sloppenheimer_ts.Handoff.Action.{no_action}
use sloppenheimer_ts.Handoff.Attribution.{await_rebased_head}
use sloppenheimer_ts.Handoff.Decision.{observe_handoff}
use sloppenheimer_ts.Handoff.Perform.{on_rebase_attempted}

settled_not_in_flight :
    (h : HandoffEntry) (outcome : RebaseOutcome)
    → rebase_in_flight (rebase_settled h outcome) ≡ false
unfolding rebase_settled rebase_in_flight intervene
settled_not_in_flight h (published head) = ground arith
settled_not_in_flight h no_changes = refl
settled_not_in_flight h (conflicted m) = refl
settled_not_in_flight h (repair_failed m) = refl
settled_not_in_flight h (blocked m) = refl
settled_not_in_flight h (failed m) = refl

-- Of the outcomes that one attempt reports, at most the first is folded into the handoff.
pub rebase_settles_once :
    (h : HandoffEntry) (head : String) (first second : RebaseOutcome)
    → on_rebase_attempted (on_rebase_attempted h head first) head second
      ≡ on_rebase_attempted h head first
unfolding on_rebase_attempted
rebase_settles_once h head first second =
    let settled = settled_not_in_flight h first in ground arith

-- After a rebase of a head has started and its attempt has published another, a pass that still
-- observes the pull request open at the replaced head asks for no action.
pub published_rebase_waits :
    (h : HandoffEntry) (p : OpenPullRequest) (o : Observation) (now : ℕ) (head : String)
    → o.pull_request ≡ opened p
    → (observe_handoff
        (on_rebase_attempted (rebase_started h p.head_sha) p.head_sha (published head))
        o
        now).action
      ≡ no_action
unfolding observe_handoff on_rebase_attempted rebase_settled rebase_started rebase_in_flight
    await_rebased_head option_discrete
published_rebase_waits h p o now head e = ground arith
