-- ===== src/Scheduler/Policy.antt =====
-- packages/core/src/core/policy.ts: whether a polled candidate is dispatched, and in which order
-- candidates are tried. The methods of strings, the pattern of an issue number and the comparison of
-- texts in the host's locale are a parameter.
pub mod Sorting
use Prim.Native.Nat.{compare, Ordering}
use sloppenheimer_ts.Base.{
  ℕ, String, Bool, true, false, not, ◌&&◌, [], ◌∷◌, List, map, Option, none, some, ◌==◌, ◌!=◌, leb,
  ltb, if◌then◌else◌, nat_eq, string_eq, length, keep, every, any, includes, or_then,
}
use sloppenheimer_ts.Collections.{Map, get}
use sloppenheimer_ts.Domain.Issue.{Issue}
use sloppenheimer_ts.Scheduler.State.{RuntimeState, RunningEntry}

-- `trim().toLowerCase()`, the number that an identifier ends in, and `localeCompare`.
pub record TextRules : Type 0 where
  pub normalize : String → String
  pub issue_number : String → Option ℕ
  pub locale_compare : String → String → Ordering

pub record RoutingRules : Type 0 where
  pub required_labels : List String
  pub active_states : List String
  pub terminal_states : List String

-- What the policy reads of a workflow's configuration.
pub record WorkflowConfig : Type 0 where
  pub tracker : RoutingRules
  pub max_concurrent_agents : ℕ
  pub max_concurrent_agents_by_state : Map String ℕ

pub data RefusalReason : Type 0 where
  recovering paused inactive unroutable no_slot : RefusalReason

pub data DispatchAdmission : Type 0 where
  admit : DispatchAdmission
  refuse : RefusalReason → DispatchAdmission

abbrev pub state_limit : Option ℕ → ℕ → ℕ
state_limit none maximum = maximum
state_limit (some limit) maximum = limit

-- `sortIssues`: a priority from 1 to 4 first, then the older, then by identifier.
unfoldable pub priority_rank : Option ℕ → ℕ
priority_rank none = 5
priority_rank (some p) = if leb 1 p && leb p 4 then p else 5

-- An issue with no creation date stands after every one that has one.
unfoldable pub compare_created : Option ℕ → Option ℕ → Ordering
compare_created (some l) (some r) = compare l r
compare_created (some l) none = Ordering.lt
compare_created none (some r) = Ordering.gt
compare_created none none = Ordering.eq

module _ (text : TextRules) where
  open text use {normalize, issue_number, locale_compare}

  unfoldable pub state_is_in : String → List String → Bool
  state_is_in state configured =
      let normalized = normalize state in
      any (λ candidate. normalize candidate == normalized) configured

  unfoldable pub issue_is_active : Issue → RoutingRules → Bool
  unfolding state_is_in
  issue_is_active issue rules =
      state_is_in issue.state rules.active_states
      && not (state_is_in issue.state rules.terminal_states)

  -- A label is compared trimmed and lowercased, on both sides.
  unfoldable pub issue_is_routable : Issue → RoutingRules → Bool
  issue_is_routable issue rules =
      if not issue.dispatchable
      then false
      else let labels = map normalize issue.labels in
        every (λ label. label != "" && includes labels label) (map normalize rules.required_labels)

  -- The number of runs in a tracker state.
  unfoldable pub used_in : String → Map String RunningEntry → ℕ
  used_in normalized running =
      length (keep (λ entry. normalize entry.1.issue.state == normalized) running)

  unfoldable pub has_slot : RuntimeState → Issue → WorkflowConfig → Bool
  unfolding used_in
  has_slot state issue workflow =
      if leb workflow.max_concurrent_agents (length state.running)
      then false
      else let normalized = normalize issue.state in
        ltb (used_in normalized state.running) (
          state_limit (get workflow.max_concurrent_agents_by_state normalized)
            workflow.max_concurrent_agents)

  unfoldable pub issue_is_paused : RuntimeState → Issue → Bool
  issue_is_paused state issue = elim (issue_number issue.identifier) [
    | none ↦ false
    | some n ↦ includes state.paused_issue_numbers n
  ]

  unfoldable pub dispatch_admission : RuntimeState → Issue → WorkflowConfig → DispatchAdmission
  unfolding issue_is_paused issue_is_active issue_is_routable has_slot
  dispatch_admission state issue workflow =
      if not state.startup_recovery_finished
      then refuse recovering
      else if issue_is_paused state issue
      then refuse paused
      else if not (issue_is_active issue workflow.tracker)
      then refuse inactive
      else if not (issue_is_routable issue workflow.tracker)
      then refuse unroutable
      else if not (has_slot state issue workflow)
      then refuse no_slot
      else admit

  unfoldable pub compare_issues : Issue → Issue → Ordering
  unfolding priority_rank compare_created
  compare_issues left right =
      or_then (compare (priority_rank left.priority) (priority_rank right.priority)) (
        or_then (compare_created left.created_at right.created_at)
          (locale_compare left.identifier right.identifier))

-- `Array.prototype.sort`, a parameter: it takes a comparison and a list.
abbrev pub ArraySort : Type 0
ArraySort = (Issue → Issue → Ordering) → List Issue → List Issue

unfoldable pub sort_issues : TextRules → ArraySort → List Issue → List Issue
unfolding compare_issues
sort_issues text sort issues = sort (compare_issues text) issues
