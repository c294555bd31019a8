-- ===== src/Handoff/Attribution.antt =====
-- packages/core/src/core/handoff-decision.ts: the steps that settle a repair or a rebase in flight
-- before anything else reads the observation.
use sloppenheimer_ts.Base.{
  String, Option, Bool, true, false, not, ◌&&◌, [], ◌∷◌, ◌++◌, none, some, ◌!=◌, if◌then◌else◌,
  string_eq, option_eq, includes, template,
}
use sloppenheimer_ts.Domain.Handoff.{
  HandoffState, RepairPublication, published, intervention_required,
}
use sloppenheimer_ts.Handoff.Observation.{
  Observation, OpenPullRequest, PullRequest, opened, Disposition, repair_needed,
  classify_pull_request,
}
use sloppenheimer_ts.Handoff.Entry.{HandoffEntry, RepairEntry, release_repair, rebased_reason}
use sloppenheimer_ts.Handoff.Action.{no_action, Step, carry, decide, open_at}

unfoldable pub attribute_repair_head : HandoffEntry → String → Step
unfolding release_repair
attribute_repair_head h head =
    let released = release_repair h in
    if includes h.repair_observed_head_shas head
    then decide
        (record released {
          state = intervention_required;
          head_sha = some head;
          reason =
              some "Repair agent returned the pull request to an already observed repair head.";
        })
        no_action
    else carry (record released {
      repair_head_shas = h.repair_head_shas ++ head ∷ [];
      repair_observed_head_shas = h.repair_observed_head_shas ++ head ∷ [];
    })

abbrev pub is_published : RepairPublication → Bool
is_published published = true
is_published _ = false

abbrev pub is_delivery_failed : RepairPublication → Bool
is_delivery_failed RepairPublication.delivery_failed = true
is_delivery_failed _ = false

-- The last case of `attributeRepair`: a repair that ran and left the head as it was.
unfoldable pub unchanged_repair : HandoffEntry → Disposition → String → Step
unfolding template release_repair
unchanged_repair h (repair_needed reason) head =
    decide
      (record (release_repair h) {
        state = intervention_required;
        head_sha = some head;
        reason = some (
            template
              ("Repair agent completed without changing the pull request head. " ∷ reason ∷ []));
      })
      no_action
unchanged_repair h _ head = carry (release_repair h)

unfoldable pub attribute_repair : HandoffEntry → Observation → OpenPullRequest → RepairEntry → Step
attribute_repair h o p r =
    if not r.in_flight && not r.worker_started
    then carry (release_repair h)
    else if p.head_sha != r.started_head_sha
    then attribute_repair_head h p.head_sha
    else if is_published r.publication && r.published_head_sha != some p.head_sha
    then decide
        (record h {
          state = HandoffState.awaiting_checks;
          head_sha = some p.head_sha;
          reason =
              some "Published the repair; waiting for the pull request to report the new head.";
        })
        no_action
    else if not r.in_flight
    then carry (release_repair h)
    else if is_delivery_failed r.publication
    then decide
        (record h {
          state = HandoffState.delivery_failed;
          head_sha = some p.head_sha;
          reason =
              some
                "Repair agent produced changes that have not reached the pull request; delivery is being retried.";
        })
        no_action
    else unchanged_repair h (classify_pull_request o) p.head_sha

unfoldable pub await_rebased_head : HandoffEntry → PullRequest → Step
await_rebased_head h p = elim h.rebase [
  | none ↦ carry h
  | some r ↦ elim r.published_head_sha [
    | none ↦ carry h
    | some _ ↦
        if open_at p (some r.head_sha)
        then decide
            (record h { state = HandoffState.awaiting_checks; reason = some rebased_reason })
            no_action
        else carry (record h { rebase = none })
  ]
]

-- The attribution of a repair in flight, for an open pull request.
unfoldable pub attribute_as : HandoffEntry → Observation → PullRequest → Option RepairEntry → Step
attribute_as h o (opened p) (some r) = attribute_repair h o p r
attribute_as h o _ _ = carry h

unfoldable pub attribute_step : HandoffEntry → Observation → Step
unfolding attribute_as
attribute_step h o = attribute_as h o o.pull_request h.repair
