-- ===== src/Handoff/Observation/Laws.antt =====
-- When a pull request may be merged, when it needs a repair, and when only a rebase.
use sloppenheimer_ts.Base.{
  String, true, false, not, ◌≡◌, ◌≢◌, ◌↔◌, refl, List, [], ◌∷◌, some, string_eq, any, All, arith,
}
use sloppenheimer_ts.Handoff.Observation.{
  Observation, OpenPullRequest, PullRequest, opened, closed, PullRequestCheck, ready_to_merge,
  classify_pull_request, classify_as, classify_open, is_complete, succeeded, has_feedback,
  current_review_threads, changes_requested,
}

-- The check ran to its end with a conclusion that counts as a success.
abbrev pub Passed : PullRequestCheck → Type 0
Passed c = (is_complete c ≡ true) × (succeeded c ≡ true)

-- No thread is unresolved and still raised against the head, and no change is requested.
pub record IsReviewed (o : Observation) : Type 0 where
  pub settled : current_review_threads o ≡ []
  pub approved : changes_requested o ≡ false

-- What GitHub must say of the branch.
pub record IsAligned (p : OpenPullRequest) : Type 0 where
  pub mergeable : p.mergeable ≡ some true
  pub not_dirty : p.merge_state ≢ "dirty"
  pub not_behind : p.merge_state ≢ "behind"
  pub not_blocked : p.merge_state ≢ "blocked"
  pub not_unknown : p.merge_state ≢ "unknown"
  pub not_unstable : p.merge_state ≢ "unstable"

abbrev pub IsReady : Observation → PullRequest → String → Type 0
IsReady o (closed c) head = ⊥
IsReady o (opened p) head = (p.head_sha ≡ head) × IsReviewed o × All Passed o.checks × IsAligned p

checks_done :
    (cs : List PullRequestCheck)
    → any (λ c. not (is_complete c)) cs ≡ false
    → any (λ c. not (succeeded c)) cs ≡ false
    → All Passed cs
checks_done [] h k = tt
checks_done (c ∷ cs) h k = ground (arith, checks_done cs)

failed_checks :
    (cs : List PullRequestCheck)
    → All Passed cs
    → (any (λ c. not (is_complete c)) cs ≡ false) × (any (λ c. not (succeeded c)) cs ≡ false)
failed_checks [] h = (refl, refl)
failed_checks (c ∷ cs) h = ground (arith, failed_checks cs h.1)

no_feedback : (o : Observation) → has_feedback o ≡ false → IsReviewed o
unfolding has_feedback
no_feedback o h = ground arith

feedback : (o : Observation) → IsReviewed o → has_feedback o ≡ false
unfolding has_feedback
feedback o h = ground arith

open_ready :
    (o : Observation) (p : OpenPullRequest) (head : String)
    → classify_open o p ≡ ready_to_merge head
    → (p.head_sha ≡ head)
      × (has_feedback o ≡ false)
      × (any (λ c. not (is_complete c)) o.checks ≡ false)
      × (any (λ c. not (succeeded c)) o.checks ≡ false)
      × IsAligned p
unfolding classify_open
open_ready o p head h = ground arith

ready_open :
    (o : Observation) (p : OpenPullRequest) (head : String)
    → p.head_sha ≡ head
    → has_feedback o ≡ false
    → (any (λ c. not (is_complete c)) o.checks ≡ false)
      × (any (λ c. not (succeeded c)) o.checks ≡ false)
    → IsAligned p
    → classify_open o p ≡ ready_to_merge head
unfolding classify_open
ready_open o p head same quiet passed aligned = ground arith

-- An observation is ready to merge at a head exactly when the pull request is open at it, nothing
-- is outstanding in its review, every check passed, and GitHub calls it mergeable in no state that
-- stands against it.
pub classify-IsReady_iff :
    (o : Observation) (head : String)
    → (classify_pull_request o ≡ ready_to_merge head) ↔ IsReady o o.pull_request head
unfolding classify_pull_request
classify-IsReady_iff o head = (only_if o.pull_request refl, if_ready o.pull_request refl)
  where
    only_if :
        (p : PullRequest)
        → o.pull_request ≡ p
        → classify_as o p ≡ ready_to_merge head
        → IsReady o p head
    only_if (closed c) e h = ground arith
    only_if (opened p) e h =
        let (same, quiet, done, passed, aligned) = open_ready o p head h in
        (same, no_feedback o quiet, checks_done o.checks done passed, aligned)

    if_ready :
        (p : PullRequest)
        → o.pull_request ≡ p
        → IsReady o p head
        → classify_as o p ≡ ready_to_merge head
    if_ready (closed c) e h = absurd h
    if_ready (opened p) e (same, reviewed, passed, aligned) =
        ready_open o p head same (feedback o reviewed) (failed_checks o.checks passed) aligned
