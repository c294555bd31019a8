-- ===== src/Tests/Handoffs.antt =====
-- Runs of the theorems about the handoff of a pull request, and about the bounded map.
use sloppenheimer_ts.Base.{
  ◌≡◌, ◌↔◌, refl, ◌≤◌, true, false, List, [], ◌∷◌, none, some, length, string_eq, string_discrete,
  option_discrete,
}
use sloppenheimer_ts.Handoff.Observation.{
  Observation, opened, outdated_review_threads, classify_pull_request, ready_to_merge,
}
use sloppenheimer_ts.Handoff.Observation.Laws.{classify-IsReady_iff, IsReady}
use sloppenheimer_ts.Handoff.Entry.{published, rebase_started, after_repair_dispatched}
use sloppenheimer_ts.Handoff.Action.{no_action}
use sloppenheimer_ts.Handoff.Attribution.{
  await_rebased_head, attribute_step, attribute_repair, attribute_repair_head,
}
use sloppenheimer_ts.Handoff.Review.{gate_review}
use sloppenheimer_ts.Handoff.Decision.{
  observe_handoff, repair_limit, gate_or_dispose, retire_or_dispose, dispose, act_on_disposition,
  after_review_requested,
}
use sloppenheimer_ts.Handoff.Decision.Merging.{observe_handoff_merges, MayMerge}
use sloppenheimer_ts.Handoff.Decision.Repairs.{IsDistinct}
use sloppenheimer_ts.Handoff.Perform.{
  Circumstances, allowed, on_rebase_attempted, apply_handoff_observation,
}
use sloppenheimer_ts.Handoff.Life.{HandoffEvent, observed, run_settled, live}
use sloppenheimer_ts.Handoff.Life.Growth.{starts_with}
use sloppenheimer_ts.Handoff.Life.Budget.{live_within_budget}
use sloppenheimer_ts.Handoff.Life.Rebases.{published_rebase_waits}
use sloppenheimer_ts.Tests.Data.{issue, handoff, observation, open_at_h1}

observe_handoff_merges_example : MayMerge handoff observation "h1"
unfolding observe_handoff string_discrete option_discrete await_rebased_head attribute_step
    gate_or_dispose gate_review retire_or_dispose outdated_review_threads dispose act_on_disposition
    classify_pull_request
observe_handoff_merges_example = observe_handoff_merges handoff observation 50 "h1" refl

classify-IsReady_iff_example :
    (classify_pull_request observation ≡ ready_to_merge "h1")
    ↔ IsReady observation (opened open_at_h1) "h1"
classify-IsReady_iff_example = classify-IsReady_iff observation "h1"

abbrev circumstances : Circumstances
circumstances = record {
  has_code_review = true;
  permission = allowed issue;
  repair_dispatch_allowed = true;
  has_slot = true;
  is_retry = false;
  worker_started = true;
  has_source_control = true;
  rebase_admitted = true;
  call_failure = none;
}

-- Changes are requested, so a repair is dispatched; then it returns another head.
abbrev rejected : Observation
rejected = record observation { review_decision = some "CHANGES_REQUESTED" }

abbrev repaired : Observation
repaired = record rejected { pull_request = opened (record open_at_h1 { head_sha = "h2" }) }

abbrev events : List HandoffEvent
events = observed rejected 20 circumstances ∷ run_settled ∷ observed repaired 30 circumstances ∷ []

-- The run attributes the new head.
attributed : (live handoff events).repair_head_shas ≡ "h2" ∷ []
unfolding live string_discrete option_discrete apply_handoff_observation await_rebased_head
    attribute_step gate_or_dispose gate_review retire_or_dispose outdated_review_threads dispose
    act_on_disposition classify_pull_request after_repair_dispatched attribute_repair
    attribute_repair_head after_review_requested
attributed = refl

abbrev later_events : List HandoffEvent
later_events = observed repaired 40 circumstances ∷ run_settled ∷ []

live_within_budget_example :
    (length (live (live handoff events) later_events).repair_head_shas ≤ repair_limit)
    × IsDistinct (live (live handoff events) later_events).repair_head_shas
    × (starts_with
          (live handoff events).repair_head_shas
          (live (live handoff events) later_events).repair_head_shas
        ≡ true)
live_within_budget_example = live_within_budget handoff events later_events refl refl refl

published_rebase_waits_example :
    (observe_handoff
      (on_rebase_attempted (rebase_started handoff "h1") "h1" (published "h2"))
      observation
      50).action
    ≡ no_action
published_rebase_waits_example = published_rebase_waits handoff open_at_h1 observation 50 "h2" refl
