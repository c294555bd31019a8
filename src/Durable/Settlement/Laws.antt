-- ===== src/Durable/Settlement/Laws.antt =====
-- What the settlement of a run lets the workflow wait for.
use sloppenheimer_ts.Base.{
  ℕ, String, ◌≡◌, ◌≢◌, ◌⊎◌, Bool, true, false, Option, none, some, arith, string_eq,
  option_discrete,
}
use sloppenheimer_ts.Durable.Types.{
  Artifact, Repository, DurableWorkflow, waiting, review, SourceControlTarget,
}
use sloppenheimer_ts.Durable.Settlement.{
  RunOutcome, not_performed, no_changes, published, delivery_failed, settle_run, settle_stopped_run,
  retry_matches, matches_previous,
}

-- The repository is at this head, and its tree is the one that was verified.
abbrev pub VerifiedAt : Option Repository → Option String → String → Type 0
VerifiedAt none verified head = ⊥
VerifiedAt (some r) verified head =
    (r.head_sha ≡ head) × (verified ≢ none) × (verified ≡ r.tree_sha)

-- The outcome is a publication, and if verification is required the artifact was verified at it.
abbrev pub EarnsReview : Bool → Option Artifact → RunOutcome → Type 0
EarnsReview required (some a) (published branch head) =
    (required ≡ false) ⊎ VerifiedAt a.repository a.verified_revision head
EarnsReview required _ _ = ⊥

abbrev pub PublishedAt : Option Artifact → RunOutcome → Type 0
PublishedAt (some a) (published branch head) = a.published_head ≡ some head
PublishedAt _ _ = ⊥

-- A run leaves its workflow waiting for review only if it published, its artifact records the
-- published head, and, where verification is required, the tree at exactly that head was verified.
pub settle_run_for_review :
    (w : DurableWorkflow) (o : RunOutcome) (deadline : ℕ)
    → (settle_run w o).status ≡ waiting review deadline
    → EarnsReview w.verification_required w.artifact o × PublishedAt (settle_run w o).artifact o
unfolding settle_run option_discrete
settle_run_for_review w not_performed d h = ground arith
settle_run_for_review w (no_changes b) d h = ground arith
settle_run_for_review w (published b head) d h = ground arith
settle_run_for_review w (delivery_failed b m) d h = ground arith

-- Nothing was prepared, or the workspace was seen at its baseline with nothing verified, published
-- or in conflict.
abbrev pub Untouched : Option Artifact → Option String → Bool → Type 0
Untouched none observed before_preparation = before_preparation ≡ true
Untouched (some a) observed before_preparation =
    (observed ≡ some a.baseline_sha)
    × (a.publication_conflict ≡ none)
    × (a.verified_revision ≡ none)
    × (a.published_head ≡ none)

-- A stopped run can be retried afterwards only on the target it had, and only if it left nothing in
-- its workspace.
pub stopped_run_retries :
    (w v : DurableWorkflow) (observed : Option String) (before_preparation : Bool)
    (target : SourceControlTarget)
    → settle_stopped_run w observed before_preparation ≡ some v
    → retry_matches v target ≡ true
    → (matches_previous w.run_target target ≡ true)
      × Untouched w.artifact observed before_preparation
unfolding settle_stopped_run retry_matches
stopped_run_retries w v observed before_preparation target h k = ground arith
