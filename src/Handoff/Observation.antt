-- ===== src/Handoff/Observation.antt =====
-- packages/core/src/domain/handoff.ts: an observation of a pull request and its disposition.
pub mod Laws
use sloppenheimer_ts.Base.{
  ℕ, String, Bool, true, false, not, ◌&&◌, ◌||◌, List, [], ◌∷◌, map, Option, none, some, ◌==◌, ◌!=◌,
  if◌then◌else◌, Eq, nat_eq, string_eq, keep, every, any, includes, length, template, string_of,
}

pub data CheckStatus : Type 0 where
  queued in_progress completed : CheckStatus

pub record PullRequestCheck : Type 0 where
  pub name : String
  pub status : CheckStatus
  pub conclusion : Option String

pub record ReviewThread : Type 0 where
  pub id : String
  pub resolved : Bool
  pub outdated : Bool
  pub body : String
  pub url : Option String

pub data ReviewStatus : Type 0 where
  pending completed : ReviewStatus

pub record CodexReview : Type 0 where
  pub head_sha : String
  pub status : ReviewStatus

pub record OpenPullRequest : Type 0 where
  pub url : String
  pub head_sha : String
  pub mergeable : Option Bool
  pub merge_state : String

pub record ClosedPullRequest : Type 0 where
  pub head_sha : Option String
  pub merged : Bool
  pub merge_commit_sha : Option String

-- The three shapes of the source's union: open, or closed with or without a merge.
pub data PullRequest : Type 0 where
  opened : OpenPullRequest → PullRequest
  closed : ClosedPullRequest → PullRequest

pub record Observation : Type 0 where
  pub number : ℕ
  pub checks : List PullRequestCheck
  pub review_decision : Option String
  pub review_threads : List ReviewThread
  pub codex_review : Option CodexReview
  pub merged_at : Option String
  pub pull_request : PullRequest

unfoldable pub unresolved_threads : Observation → List ReviewThread
unresolved_threads o = keep (λ t. not t.resolved) o.review_threads

unfoldable pub current_review_threads : Observation → List ReviewThread
unfolding unresolved_threads
current_review_threads o = keep (λ t. not t.outdated) (unresolved_threads o)

unfoldable pub outdated_review_threads : Observation → List ReviewThread
unfolding unresolved_threads
outdated_review_threads o = keep (λ t. t.outdated) (unresolved_threads o)

-- `array.join`.
unfoldable pub join : String → List String → String
unfolding template
join separator [] = ""
join separator (x ∷ []) = x
join separator (x ∷ y ∷ xs) = template (x ∷ separator ∷ join separator (y ∷ xs) ∷ [])

abbrev pub url_or_id : ReviewThread → String
url_or_id t = elim t.url [ some u ↦ u | none ↦ t.id ]

unfoldable pub outdated_note : List ReviewThread → Option String
unfolding join template string_of
outdated_note [] = none
outdated_note (t ∷ ts) = some (
    template (
      "Retained review history (outdated, not part of this repair): "
      ∷ string_of (length (t ∷ ts))
      ∷ " thread"
      ∷ (if length (t ∷ ts) == 1 then "" else "s")
      ∷ " -- "
      ∷ join ", " (map url_or_id (t ∷ ts))
      ∷ []))

unfoldable pub outdated_thread_note : Observation → Option String
unfolding outdated_review_threads outdated_note
outdated_thread_note o = outdated_note (outdated_review_threads o)

pub data Disposition : Type 0 where
  merged : Option String → Disposition
  closed_without_merge : String → Disposition
  awaiting_checks : String → Disposition
  repair_needed : String → Disposition
  rebase_needed : String → Disposition
  ready_to_merge : String → Disposition

abbrev pub successful_conclusions : List String
successful_conclusions = "success" ∷ "neutral" ∷ "skipped" ∷ []

abbrev pub is_complete : PullRequestCheck → Bool
is_complete c = elim c.status [ completed ↦ true | _ ↦ false ]

unfoldable pub succeeded : PullRequestCheck → Bool
succeeded c = elim c.conclusion [
  | none ↦ false
  | some conclusion ↦ includes successful_conclusions conclusion
]

abbrev pub is_nonempty {ℓ} : {A : Type ℓ} → List A → Bool
is_nonempty [] = false
is_nonempty (_ ∷ _) = true

abbrev pub changes_requested : Observation → Bool
changes_requested o = elim o.review_decision [
  | none ↦ false
  | some decision ↦ decision == "CHANGES_REQUESTED"
]

abbrev pub feedback_reason : List String → String
feedback_reason [] = "The pull request has unresolved review feedback"
feedback_reason (d ∷ ds) = template ("Unresolved review feedback:\n" ∷ join "\n\n" (d ∷ ds) ∷ [])

-- `observation.mergeable === false || observation.mergeState === 'dirty'`.
unfoldable pub conflicts : OpenPullRequest → Bool
conflicts p = elim p.mergeable [ some false ↦ true | _ ↦ p.merge_state == "dirty" ]

-- GitHub has not finished: mergeability is unknown, or the merge state is one of these.
unfoldable pub undecided : OpenPullRequest → Bool
undecided p = elim p.mergeable [
  | none ↦ true
  | some _ ↦ includes ("blocked" ∷ "unknown" ∷ "unstable" ∷ []) p.merge_state
]

unfoldable pub has_feedback : Observation → Bool
unfolding current_review_threads
has_feedback o = is_nonempty (current_review_threads o) || changes_requested o

unfoldable pub classify_open : Observation → OpenPullRequest → Disposition
unfolding conflicts undecided has_feedback succeeded
classify_open o p =
    if conflicts p
    then repair_needed "The pull request conflicts with protected main"
    else if has_feedback o
    then repair_needed
        (feedback_reason (keep (λ b. b != "") (map (λ t. t.body) (current_review_threads o))))
    else if any (λ c. not (is_complete c)) o.checks
    then awaiting_checks "Required CI checks are still running"
    else if any (λ c. not (succeeded c)) o.checks
    then repair_needed (
        template (
          "Failed CI checks: "
          ∷ join ", " (map (λ c. c.name) (keep (λ c. not (succeeded c)) o.checks))
          ∷ []))
    else if p.merge_state == "behind"
    then rebase_needed "The pull request branch is behind protected main"
    else if undecided p
    then awaiting_checks (
        template
          ("GitHub has not declared the pull request merge-ready (" ∷ p.merge_state ∷ ")" ∷ []))
    else ready_to_merge p.head_sha

unfoldable pub classify_as : Observation → PullRequest → Disposition
unfolding classify_open
classify_as o (opened p) = classify_open o p
classify_as o (closed c) =
    if c.merged
    then merged c.merge_commit_sha
    else closed_without_merge "The pull request was closed without being merged"

unfoldable pub classify_pull_request : Observation → Disposition
unfolding classify_as
classify_pull_request o = classify_as o o.pull_request
