-- ===== src/Durable/Admission/Laws.antt =====
-- What an admitted run may rely on.
use sloppenheimer_ts.Base.{
  ℕ, ◌+◌, ◌<◌, ◌≡◌, ◌||◌, String, Bool, true, [], ◌∷◌, Option, none, some, arith, if◌then◌else◌,
  template-cancel, template_last, string_of, string_of_inj, sym, ◌∙◌, subst, Bool-cases, inl, inr,
  string_discrete,
}
use sloppenheimer_ts.Domain.Issue.{Issue}
use sloppenheimer_ts.Durable.Types.{
  SourceControlTarget, normal, repair_of, AfterPublication, DurableWorkflow, active, capacity,
  checks, review, eligibility, continuation, retry, WorkflowStatus, queued, executing, stopping,
  reconciling, retrying, waiting, intervention, completed,
}
use sloppenheimer_ts.Durable.Transition.Budget.{WithinBudget}
use sloppenheimer_ts.Durable.Settlement.{
  retry_matches, is_waiting_for_retry, matches_previous, same_target,
}
use sloppenheimer_ts.Durable.Admission.{
  owner_of, admit, admitted_workflow, admitted, RetryMismatch, reject, intervene, is_repair_target,
  awaits_start,
}

-- Two runs of an issue at different revisions have different owners.
pub owner_of_inj : (id : String) (m n : ℕ) → owner_of id m ≡ owner_of id n → m ≡ n
unfolding owner_of
owner_of_inj id m n h = string_of_inj m n (
    sym (template_last (string_of m))
    ∙ template-cancel ":run:" (string_of m ∷ []) (string_of n ∷ [])
        (template-cancel id (":run:" ∷ string_of m ∷ []) (":run:" ∷ string_of n ∷ []) h)
    ∙ template_last (string_of n))

-- The attempts of both kinds.
abbrev pub attempts : DurableWorkflow → ℕ
attempts w = w.coding_attempts + w.repair_attempts

-- The runs that a status expects, by the target of the run before: a repair after a completion or in
-- a wait for review, a normal run in a wait for a continuation, and the same run again in a wait for
-- a retry.
pub data Expects : WorkflowStatus → Option SourceControlTarget → SourceControlTarget → Type 0 where
  after_completion :
      (c : Option String) (previous : Option SourceControlTarget) (branch head : String)
      → Expects (completed c) previous (repair_of branch head)
  in_review :
      (until : ℕ) (previous : Option SourceControlTarget) (branch head : String)
      → Expects (waiting review until) previous (repair_of branch head)
  in_continuation :
      (until : ℕ) (previous : Option SourceControlTarget) (branch : String)
      → Expects (waiting continuation until) previous (normal branch)
  in_retry :
      (until : ℕ) (target : SourceControlTarget)
      → Expects (waiting retry until) (some target) target

same_target_eq : (s t : SourceControlTarget) → same_target s t ≡ true → s ≡ t
unfolding same_target string_discrete
same_target_eq (normal b) (normal c) h = ground arith
same_target_eq (repair_of b g) (repair_of c f) h = ground arith
same_target_eq (normal b) (repair_of c f) h = cc
same_target_eq (repair_of b g) (normal c) h = cc

started-Expects :
    (s : WorkflowStatus) (previous : Option SourceControlTarget) (target : SourceControlTarget)
    → awaits_start s (is_repair_target target) ≡ true
    → Expects s previous target
started-Expects (completed c) previous (repair_of b h) e = after_completion c previous b h
started-Expects (completed c) previous (normal b) e = cc
started-Expects (waiting review u) previous (repair_of b h) e = in_review u previous b h
started-Expects (waiting review u) previous (normal b) e = cc
started-Expects (waiting continuation u) previous (normal b) e = in_continuation u previous b
started-Expects (waiting continuation u) previous (repair_of b h) e = cc
started-Expects (waiting retry u) previous target e = cc
started-Expects (waiting capacity u) previous target e = cc
started-Expects (waiting checks u) previous target e = cc
started-Expects (waiting eligibility u) previous target e = cc
started-Expects (queued o) previous target e = cc
started-Expects (executing o u) previous target e = cc
started-Expects (stopping o u) previous target e = cc
started-Expects (reconciling o) previous target e = cc
started-Expects (retrying o u) previous target e = cc
started-Expects (intervention r) previous target e = cc

retried-Expects :
    (s : WorkflowStatus) (previous : Option SourceControlTarget) (target : SourceControlTarget)
    → is_waiting_for_retry s ≡ true
    → matches_previous previous target ≡ true
    → Expects s previous target
unfolding matches_previous
retried-Expects (waiting retry u) (some previous) target w m =
    subst (λ t. Expects (waiting retry u) (some previous) t) (same_target_eq previous target m)
      (in_retry u previous)
retried-Expects (waiting retry u) none target w m = cc
retried-Expects (waiting review u) previous target w m = cc
retried-Expects (waiting continuation u) previous target w m = cc
retried-Expects (waiting capacity u) previous target w m = cc
retried-Expects (waiting checks u) previous target w m = cc
retried-Expects (waiting eligibility u) previous target w m = cc
retried-Expects (completed c) previous target w m = cc
retried-Expects (queued o) previous target w m = cc
retried-Expects (executing o u) previous target w m = cc
retried-Expects (stopping o u) previous target w m = cc
retried-Expects (reconciling o) previous target w m = cc
retried-Expects (retrying o u) previous target w m = cc
retried-Expects (intervention r) previous target w m = cc

permitted-Expects :
    (w : DurableWorkflow) (target : SourceControlTarget)
    → (retry_matches w target || awaits_start w.status (is_repair_target target)) ≡ true
    → Expects w.status w.run_target target
unfolding retry_matches
permitted-Expects w target h = elim (Bool-cases (is_waiting_for_retry w.status)) [
  | inl waits ↦ elim (Bool-cases (matches_previous w.run_target target)) [
    | inl same ↦ retried-Expects w.status w.run_target target waits same
    | inr other ↦ started-Expects w.status w.run_target target (ground arith)
  ]
  | inr waits ↦ started-Expects w.status w.run_target target (ground arith)
]

-- The workflow `w` permits a run on this target now.
pub record Permits (w : DurableWorkflow) (target : SourceControlTarget) (now : ℕ) : Type 0 where
  pub wanted : w.intent ≡ active
  pub expected : Expects w.status w.run_target target
  pub in_time : now < w.budget_deadline
  pub affordable :
      if is_repair_target target
      then w.repair_attempts < w.maximum_repair_attempts
      else (w.coding_attempts < w.maximum_coding_attempts)

-- The workflow `v` continues `w`: a new revision with its own owner, one attempt more, the budget
-- and the histories of `w`, and no artifact yet.
pub record Continues (w v : DurableWorkflow) (issue : Issue) : Type 0 where
  pub revision : v.revision ≡ w.revision + 1
  pub owner : v.owner ≡ some (owner_of issue.id (w.revision + 1))
  pub charged : attempts v ≡ attempts w + 1
  pub maximum_coding : v.maximum_coding_attempts ≡ w.maximum_coding_attempts
  pub maximum_repairs : v.maximum_repair_attempts ≡ w.maximum_repair_attempts
  pub deadline : v.budget_deadline ≡ w.budget_deadline
  pub handoff : v.handoff ≡ w.handoff
  pub completion : v.completion ≡ w.completion
  pub fresh : v.artifact ≡ none

module _ (w : DurableWorkflow) (issue : Issue) (target : SourceControlTarget)
    (after_publication : AfterPublication) (verification_required : Bool) (now : ℕ) where
  abbrev pub next : DurableWorkflow
  next = admitted_workflow (some w) issue target after_publication verification_required now

  record Passes (v : DurableWorkflow) : Type 0 where
    wanted : w.intent ≡ active
    waits : (retry_matches w target || awaits_start w.status (is_repair_target target)) ≡ true
    in_time : now < w.budget_deadline
    affordable :
        if is_repair_target target
        then w.repair_attempts < w.maximum_repair_attempts
        else (w.coding_attempts < w.maximum_coding_attempts)
    result : v ≡ next

  admit-Passes :
      (v : DurableWorkflow) (mismatch : RetryMismatch)
      → admit (some w) issue target after_publication verification_required mismatch now
        ≡ admitted v
      → Passes v
  unfolding admit
  admit-Passes v reject h = ground arith
  admit-Passes v intervene h = ground arith

  pub admit_decides :
      (v : DurableWorkflow) (mismatch : RetryMismatch)
      → admit (some w) issue target after_publication verification_required mismatch now
        ≡ admitted v
      → Permits w target now × (v ≡ next)
  admit_decides v mismatch h =
      let p = admit-Passes v mismatch h in
      (
        record {
          wanted = p.wanted;
          expected = permitted-Expects w target p.waits;
          in_time = p.in_time;
          affordable = p.affordable;
        },
        p.result,
      )

  next-Continues : Continues w next issue
  unfolding admitted_workflow
  next-Continues = ground arith

  next-WithinBudget : Permits w target now → WithinBudget w → WithinBudget next
  unfolding admitted_workflow
  next-WithinBudget p b = ground arith

-- For a workflow that is within its budget: a run is admitted on it only if the intent is active, its
-- status expects such a run, and neither the time nor the attempts of its kind are spent; the
-- admitted workflow continues the old one with one attempt more under the same budget, and stays
-- within it.
pub admit-Permits :
    (w v : DurableWorkflow) (issue : Issue) (target : SourceControlTarget)
    (after_publication : AfterPublication) (verification_required : Bool) (mismatch : RetryMismatch)
    (now : ℕ)
    → WithinBudget w
    → admit (some w) issue target after_publication verification_required mismatch now ≡ admitted v
    → Permits w target now × Continues w v issue × WithinBudget v
admit-Permits w v issue target after_publication verification_required mismatch now b h =
    let (p, e) =
      admit_decides w issue target after_publication verification_required now v mismatch h in
    rw e (
      p,
      next-Continues w issue target after_publication verification_required now,
      next-WithinBudget w issue target after_publication verification_required now p b,
    )
