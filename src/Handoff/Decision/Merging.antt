-- ===== src/Handoff/Decision/Merging.antt =====
-- What a merge and a retirement of threads rest on.
use sloppenheimer_ts.Base.{
  ℕ, String, true, ◌≡◌, ◌≢◌, inl, inr, refl, sym, ◌∙◌, subst, Option-cases, Option, none, some,
  string_eq, arith, option_discrete,
}
use sloppenheimer_ts.Handoff.Observation.{
  Observation, OpenPullRequest, PullRequest, opened, closed, Disposition, merged,
  closed_without_merge, awaiting_checks, repair_needed, rebase_needed, ready_to_merge, CodexReview,
  classify_pull_request,
}
use sloppenheimer_ts.Handoff.Observation.Laws.{IsReady, classify-IsReady_iff}
use sloppenheimer_ts.Handoff.Entry.{HandoffEntry, RepairEntry}
use sloppenheimer_ts.Handoff.Action.{
  HandoffAction, no_action, merge, HandoffDecision, Step, carry, decide, continue_with,
}
use sloppenheimer_ts.Handoff.Attribution.{
  await_rebased_head, attribute_step, attribute_as, attribute_repair, attribute_repair_head,
  unchanged_repair,
}
use sloppenheimer_ts.Handoff.Review.{gate_review, reviewed_at, adopt_review}
use sloppenheimer_ts.Handoff.Decision.{
  act_on_disposition, dispose, retire_or_dispose, gate_or_dispose, observe_handoff,
}

-- The review of this head was requested, has completed, and was seen completed by an earlier pass.
pub record IsGated (h : HandoffEntry) (o : Observation) (head : String) : Type 0 where
  pub requested : h.review_requested_head_sha ≡ some head
  pub completed : h.review_completed_head_sha ≡ some head
  pub reviewed : reviewed_at o.codex_review head ≡ true

gate_passed :
    (h : HandoffEntry) (o : Observation) (head : String)
    → gate_review h o.codex_review head ≡ none
    → IsGated h o head
unfolding gate_review option_discrete
gate_passed h o head g = ground arith

adopt_no_merge :
    (h : HandoffEntry) (r : Option CodexReview) (head other : String)
    → (adopt_review h r head).action ≢ merge other
unfolding adopt_review
adopt_no_merge h none head other e = cc
adopt_no_merge h (some r) head other e = ground arith

gate_no_merge :
    (h : HandoffEntry) (r : Option CodexReview) (d : HandoffDecision) (head other : String)
    → gate_review h r head ≡ some d
    → d.action ≢ merge other
unfolding gate_review
gate_no_merge h r d head other g e = ground (arith, adopt_no_merge h r head other)

act_merge :
    (h : HandoffEntry) (o : Observation) (d : Disposition) (head : String)
    → (act_on_disposition h d o).action ≡ merge head
    → d ≡ ready_to_merge head
unfolding act_on_disposition
act_merge h o (merged c) head e = ground arith
act_merge h o (closed_without_merge r) head e = ground arith
act_merge h o (awaiting_checks r) head e = ground arith
act_merge h o (repair_needed r) head e = ground arith
act_merge h o (rebase_needed r) head e = ground arith
act_merge h o (ready_to_merge g) head e = ground arith

dispose_merge :
    (h : HandoffEntry) (o : Observation) (head : String)
    → (dispose h o (classify_pull_request o)).action ≡ merge head
    → classify_pull_request o ≡ ready_to_merge head
unfolding dispose
dispose_merge h o head e = act_merge _ o (classify_pull_request o) head e

retire_merge :
    (h : HandoffEntry) (o : Observation) (head : String)
    → (retire_or_dispose h o).action ≡ merge head
    → classify_pull_request o ≡ ready_to_merge head
unfolding retire_or_dispose
retire_merge h o head e = ground (arith, dispose_merge h o head)

-- What a merge of this head rests on.
pub record MayMerge (h : HandoffEntry) (o : Observation) (head : String) : Type 0 where
  pub ready : IsReady o o.pull_request head
  pub gated : IsGated h o head

open_merge :
    (h : HandoffEntry) (o : Observation) (p : OpenPullRequest) (head : String)
    → o.pull_request ≡ opened p
    → (gate_or_dispose h o).action ≡ merge head
    → (gate_review h o.codex_review p.head_sha ≡ none)
      × (classify_pull_request o ≡ ready_to_merge head)
open_merge h o p head same e = elim (Option-cases (gate_review h o.codex_review p.head_sha)) [
  | inl passed ↦ (passed, retire_merge h o head (unfold gate_or_dispose in ground arith))
  | inr (d, stopped) ↦ absurd (
      gate_no_merge h o.codex_review d p.head_sha head stopped
        (unfold gate_or_dispose in ground arith))
]

closed_merge :
    (h : HandoffEntry) (o : Observation) (p : PullRequest) (head : String)
    → o.pull_request ≡ p
    → (gate_or_dispose h o).action ≡ merge head
    → IsReady o p head × IsGated h o head
closed_merge h o (opened p) head same e =
    let (passed, ready) = open_merge h o p head same e in
    let r = subst (λ q. IsReady o q head) same ((classify-IsReady_iff o head).0 ready) in
    (r, subst (IsGated h o) r.0 (gate_passed h o p.head_sha passed))
closed_merge h o (closed c) head same e = absurd (
    subst (λ q. IsReady o q head) same
      ((classify-IsReady_iff o head).0
        (retire_merge h o head (unfold gate_or_dispose in ground arith))))

gate_merge :
    (h : HandoffEntry) (o : Observation) (head : String)
    → (gate_or_dispose h o).action ≡ merge head
    → MayMerge h o head
gate_merge h o head e =
    let (r, g) = closed_merge h o o.pull_request head refl e in record { ready = r; gated = g }

-- The steps before the gate leave the record of the reviews alone, and act on nothing.
pub record SameReview (h k : HandoffEntry) : Type 0 where
  pub requested : k.review_requested_head_sha ≡ h.review_requested_head_sha
  pub completed : k.review_completed_head_sha ≡ h.review_completed_head_sha

abbrev pub Harmless : HandoffEntry → Step → Type 0
Harmless h (carry k) = SameReview h k
Harmless h (decide k a) = a ≡ no_action

await-Harmless : (h : HandoffEntry) (p : PullRequest) → Harmless h (await_rebased_head h p)
unfolding await_rebased_head
await-Harmless h p = ground arith

attribute-Harmless :
    (h : HandoffEntry) (o : Observation) (p : OpenPullRequest) (r : RepairEntry)
    → Harmless h (attribute_repair h o p r)
unfolding attribute_repair attribute_repair_head unchanged_repair
attribute-Harmless h o p r = ground arith

attribute_as-Harmless :
    (h : HandoffEntry) (o : Observation) (p : PullRequest) (r : Option RepairEntry)
    → Harmless h (attribute_as h o p r)
unfolding attribute_as
attribute_as-Harmless h o (opened p) (some r) = attribute-Harmless h o p r
attribute_as-Harmless h o (opened p) none = record { requested = refl; completed = refl }
attribute_as-Harmless h o (closed c) r = record { requested = refl; completed = refl }

attribute_step-Harmless : (h : HandoffEntry) (o : Observation) → Harmless h (attribute_step h o)
unfolding attribute_step
attribute_step-Harmless h o = attribute_as-Harmless h o o.pull_request h.repair

-- The decision that follows a harmless step is the step's own, or that of a handoff with the same
-- record of the reviews.
after-Harmless :
    (h : HandoffEntry) (s : Step) (k : HandoffEntry → HandoffDecision) (head : String)
    → Harmless h s
    → (continue_with s k).action ≡ merge head
    → (g : HandoffEntry) × SameReview h g × ((k g).action ≡ merge head)
after-Harmless h (carry g) k head same e = (g, same, e)
after-Harmless h (decide g a) k head none_taken e = absurd (not_merge a head none_taken e)
  where
    not_merge : (a : HandoffAction) (head : String) → a ≡ no_action → a ≡ merge head → ⊥
    not_merge a head p q = cc

observed_merge :
    (h : HandoffEntry) (o : Observation) (now : ℕ) (head : String)
    → (observe_handoff h o now).action ≡ merge head
    → (continue_with
        (await_rebased_head (record h { observed_at = now }) o.pull_request)
        (λ awaited.
          continue_with (attribute_step awaited o) (λ next. gate_or_dispose next o))).action
      ≡ merge head
unfolding observe_handoff
observed_merge h o now head e = ground arith

-- A pass over a pull request merges a head only if the pull request is open at it and mergeable, its
-- review raises nothing against it, all its checks passed, and the review of exactly this head was
-- requested, completed, and seen completed by an earlier pass.
pub observe_handoff_merges :
    (h : HandoffEntry) (o : Observation) (now : ℕ) (head : String)
    → (observe_handoff h o now).action ≡ merge head
    → MayMerge h o head
observe_handoff_merges h o now head e =
    let seen = record h { observed_at = now } in
    let (awaited, first, f) =
      after-Harmless seen (await_rebased_head seen o.pull_request)
        (λ awaited. continue_with (attribute_step awaited o) (λ next. gate_or_dispose next o)) head
        (await-Harmless seen o.pull_request) (observed_merge h o now head e) in
    let (next, second, g) =
      after-Harmless awaited (attribute_step awaited o) (λ next. gate_or_dispose next o) head
        (attribute_step-Harmless awaited o) f in
    let m = gate_merge next o head g in
    record {
      ready = m.ready;
      gated = record {
        requested = sym first.requested ∙ sym second.requested ∙ m.gated.requested;
        completed = sym first.completed ∙ sym second.completed ∙ m.gated.completed;
        reviewed = m.gated.reviewed;
      };
    }
