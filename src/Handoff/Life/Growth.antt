-- ===== src/Handoff/Life/Growth.antt =====
-- Until an intervention is resumed, a handoff forgets no repaired head.
use sloppenheimer_ts.Base.{
  ℕ, String, Bool, true, false, ◌≡◌, refl, List, [], ◌∷◌, ◌++◌, ◌==◌, ◌&&◌, Option, none, some,
  string_eq, arith, inl, inr, includes, every, Bool-cases,
}
use sloppenheimer_ts.Domain.Issue.{Issue}
use sloppenheimer_ts.Domain.Handoff.{RepairPublication}
use sloppenheimer_ts.Handoff.Observation.{
  Observation, OpenPullRequest, PullRequest, opened, closed, Disposition, merged,
  closed_without_merge, awaiting_checks, repair_needed, rebase_needed, ready_to_merge, CodexReview,
  classify_pull_request,
}
use sloppenheimer_ts.Handoff.Entry.{
  HandoffEntry, RepairEntry, RebaseOutcome, published, no_changes, conflicted, repair_failed,
  blocked, failed, settle_repair, release_repair, note_publication, reactivate_repair, repair_issue,
  after_repair_dispatched, rebase_settled, rebase_started, intervene, awaiting_slot,
}
use sloppenheimer_ts.Handoff.Action.{
  HandoffAction, no_action, request_review, resolve_threads, merge, complete, note_closed, repair,
  rebase, HandoffDecision, Step, carry, decide, continue_with,
}
use sloppenheimer_ts.Handoff.Attribution.{
  await_rebased_head, attribute_step, attribute_as, attribute_repair, attribute_repair_head,
  unchanged_repair,
}
use sloppenheimer_ts.Handoff.Review.{gate_review, adopt_review}
use sloppenheimer_ts.Handoff.Decision.{
  act_on_disposition, dispose, retire_or_dispose, gate_or_dispose, observe_handoff,
  after_review_requested, after_threads_resolved, after_merge, after_inspection_failed,
}
use sloppenheimer_ts.Handoff.Perform.{
  Circumstances, RepairPermission, allowed, denied, repair_at, permitted_repair, perform_repair,
  start_rebase, perform_rebase, carry_out, perform, apply_handoff_observation, on_rebase_attempted,
}
use sloppenheimer_ts.Handoff.Life.{
  HandoffEvent, observed, retried, inspection_failed, run_settled, repair_released,
  publication_noted, retry_queued, rebase_attempted, intervention_resumed, answer, live,
}

-- The second list begins with the first.
unfoldable pub starts_with : List String → List String → Bool
starts_with [] ys = true
starts_with (x ∷ xs) [] = false
starts_with (x ∷ xs) (y ∷ ys) = x == y && starts_with xs ys

starts_with-append :
    (before xs ys : List String)
    → starts_with before xs ≡ true
    → starts_with before (xs ++ ys) ≡ true
unfolding starts_with
starts_with-append [] xs ys h = refl
starts_with-append (b ∷ before) [] ys h = cc
starts_with-append (b ∷ before) (x ∷ xs) ys h = ground (arith, starts_with-append before xs ys)

pub starts_with_self : (xs : List String) → starts_with xs xs ≡ true
unfolding starts_with
starts_with_self [] = refl
starts_with_self (x ∷ xs) = ground (arith, starts_with_self xs)

-- The event resumes no intervention.
abbrev pub resumes_none : HandoffEvent → Bool
resumes_none intervention_resumed = false
resumes_none e = true

module _ (before : List String) where
  abbrev Kept : HandoffEntry → Type 0
  Kept h = starts_with before h.repair_head_shas ≡ true

  abbrev KeptIn : HandoffDecision → Type 0
  KeptIn d = Kept d.handoff

  abbrev KeptBy : Step → Type 0
  KeptBy (carry h) = Kept h
  KeptBy (decide h x) = Kept h

  release-Kept : (h : HandoffEntry) → Kept h → Kept (release_repair h)
  unfolding release_repair
  release-Kept h k = ground arith

  head-KeptBy : (h : HandoffEntry) (head : String) → Kept h → KeptBy (attribute_repair_head h head)
  unfolding attribute_repair_head release_repair
  head-KeptBy h head k = elim (Bool-cases (includes h.repair_observed_head_shas head)) [
    | inl seen ↦ rw seen (release-Kept h k)
    | inr new ↦ rw new (starts_with-append before h.repair_head_shas (head ∷ []) k)
  ]

  attribute-KeptBy :
      (h : HandoffEntry) (o : Observation) (p : OpenPullRequest) (r : RepairEntry)
      → Kept h
      → KeptBy (attribute_repair h o p r)
  unfolding attribute_repair unchanged_repair
  attribute-KeptBy h o p r k =
      let released = release-Kept h k in let owned = head-KeptBy h p.head_sha k in ground arith

  attribute_as-KeptBy :
      (h : HandoffEntry) (o : Observation) (p : PullRequest) (r : Option RepairEntry)
      → Kept h
      → KeptBy (attribute_as h o p r)
  unfolding attribute_as
  attribute_as-KeptBy h o (opened p) (some r) k = attribute-KeptBy h o p r k
  attribute_as-KeptBy h o (opened p) none k = k
  attribute_as-KeptBy h o (closed c) r k = k

  await-KeptBy : (h : HandoffEntry) (p : PullRequest) → Kept h → KeptBy (await_rebased_head h p)
  unfolding await_rebased_head
  await-KeptBy h p k = ground arith

  adopt-Kept :
      (h : HandoffEntry) (r : Option CodexReview) (head : String)
      → Kept h
      → Kept (adopt_review h r head).handoff
  unfolding adopt_review
  adopt-Kept h none head k = ground arith
  adopt-Kept h (some r) head k = ground arith

  gate-Kept :
      (h : HandoffEntry) (r : Option CodexReview) (head : String) (d : HandoffDecision)
      → Kept h
      → gate_review h r head ≡ some d
      → Kept d.handoff
  unfolding gate_review
  gate-Kept h r head d k e = let adopted = adopt-Kept h r head k in ground arith

  act-Kept :
      (h : HandoffEntry) (d : Disposition) (o : Observation)
      → Kept h
      → Kept (act_on_disposition h d o).handoff
  unfolding act_on_disposition
  act-Kept h (merged c) o k = k
  act-Kept h (closed_without_merge r) o k = k
  act-Kept h (awaiting_checks r) o k = k
  act-Kept h (repair_needed r) o k = ground arith
  act-Kept h (rebase_needed r) o k = ground arith
  act-Kept h (ready_to_merge g) o k = ground arith

  dispose-Kept :
      (h : HandoffEntry) (o : Observation) (d : Disposition) → Kept h → Kept (dispose h o d).handoff
  unfolding dispose
  dispose-Kept h o d k = act-Kept _ d o k

  retire-Kept : (h : HandoffEntry) (o : Observation) → Kept h → Kept (retire_or_dispose h o).handoff
  unfolding retire_or_dispose
  retire-Kept h o k = let disposed = dispose-Kept h o (classify_pull_request o) k in ground arith

  gate_or_dispose-Kept :
      (h : HandoffEntry) (o : Observation) → Kept h → Kept (gate_or_dispose h o).handoff
  unfolding gate_or_dispose
  gate_or_dispose-Kept h o k = at_pull_request o.pull_request
    where
      at_gate :
          (d : Option HandoffDecision) (r : Option CodexReview) (head : String)
          → gate_review h r head ≡ d
          → KeptIn (elim d [ some d ↦ d | none ↦ retire_or_dispose h o ])
      at_gate none r head e = retire-Kept h o k
      at_gate (some d) r head e = gate-Kept h r head d k e

      at_pull_request :
          (p : PullRequest)
          → KeptIn (elim p [
            | opened p ↦ elim (gate_review h o.codex_review p.head_sha) [
              | some d ↦ d
              | none ↦ retire_or_dispose h o
            ]
            | closed _ ↦ retire_or_dispose h o
          ])
      at_pull_request (opened p) = at_gate _ o.codex_review p.head_sha refl
      at_pull_request (closed c) = retire-Kept h o k

  continue-Kept :
      (s : Step) (k : HandoffEntry → HandoffDecision)
      → KeptBy s
      → ((h : HandoffEntry) → Kept h → Kept (k h).handoff)
      → Kept (continue_with s k).handoff
  continue-Kept (carry h) k a next = next h a
  continue-Kept (decide h x) k a next = a

  observe-Kept :
      (h : HandoffEntry) (o : Observation) (now : ℕ)
      → Kept h
      → Kept (observe_handoff h o now).handoff
  observe-Kept h o now k =
      let seen = record h { observed_at = now } in
      let rest =
        continue-Kept (await_rebased_head seen o.pull_request)
          (λ awaited. continue_with (attribute_step awaited o) (λ next. gate_or_dispose next o))
          (await-KeptBy seen o.pull_request k)
          (λ awaited b.
            continue-Kept (attribute_step awaited o) (λ next. gate_or_dispose next o)
              (unfold attribute_step in
                attribute_as-KeptBy awaited o o.pull_request awaited.repair b)
              (λ next c. gate_or_dispose-Kept next o c)) in
      unfold observe_handoff in ground arith

  dispatched-Kept :
      (h : HandoffEntry) (started : Bool) (issue : Issue) (head reason : String)
      → Kept h
      → Kept (after_repair_dispatched h started issue head reason)
  unfolding after_repair_dispatched
  dispatched-Kept h started issue head reason k = ground arith

  repair_at-Kept :
      (h : HandoffEntry) (issue : Issue) (reason head : String) (c : Circumstances)
      → Kept h
      → Kept (repair_at h issue reason head c)
  unfolding repair_at awaiting_slot
  repair_at-Kept h issue reason head c k =
      let permitted = repair_issue h issue (some head) reason in
      let refused = dispatched-Kept h false permitted head reason k in
      let dispatched = dispatched-Kept h c.worker_started permitted head reason k in ground arith

  permitted-Kept :
      (h : HandoffEntry) (reason : String) (head : Option String) (p : RepairPermission)
      (c : Circumstances)
      → Kept h
      → Kept (permitted_repair h reason head p c)
  unfolding permitted_repair
  permitted-Kept h reason head (denied refusal) c k = k
  permitted-Kept h reason none (allowed issue) c k = k
  permitted-Kept h reason (some head) (allowed issue) c k = repair_at-Kept h issue reason head c k

  rebase-Kept :
      (h : HandoffEntry) (head reason : String) (p : RepairPermission) (c : Circumstances)
      → Kept h
      → Kept (perform_rebase h head reason p c)
  unfolding perform_rebase start_rebase rebase_started
  rebase-Kept h head reason (denied refusal) c k = ground arith
  rebase-Kept h head reason (allowed issue) c k = ground arith

  carry_out-Kept :
      (h : HandoffEntry) (a : HandoffAction) (c : Circumstances) → Kept h → Kept (carry_out h a c)
  unfolding carry_out after_threads_resolved after_review_requested after_merge perform_repair
  carry_out-Kept h no_action c k = k
  carry_out-Kept h (request_review head) c k = ground arith
  carry_out-Kept h (resolve_threads head ids) c k = ground arith
  carry_out-Kept h (complete at) c k = k
  carry_out-Kept h note_closed c k = k
  carry_out-Kept h (merge head) c k = ground arith
  carry_out-Kept h (repair reason head n) c k =
      let permitted = permitted-Kept h reason head c.permission c k in ground arith
  carry_out-Kept h (rebase head reason) c k = rebase-Kept h head reason c.permission c k

  apply-Kept :
      (h : HandoffEntry) (o : Observation) (now : ℕ) (c : Circumstances)
      → Kept h
      → Kept (apply_handoff_observation h o now c)
  unfolding apply_handoff_observation perform
  apply-Kept h o now c k =
      let d = observe_handoff h o now in
      let seen = observe-Kept h o now k in
      let carried = carry_out-Kept d.handoff d.action c seen in ground arith

  settled_rebase-Kept :
      (h : HandoffEntry) (outcome : RebaseOutcome) → Kept h → Kept (rebase_settled h outcome)
  unfolding rebase_settled intervene
  settled_rebase-Kept h (published head) k = ground arith
  settled_rebase-Kept h no_changes k = ground arith
  settled_rebase-Kept h (conflicted m) k = ground arith
  settled_rebase-Kept h (repair_failed m) k = ground arith
  settled_rebase-Kept h (blocked m) k = ground arith
  settled_rebase-Kept h (failed m) k = ground arith

  attempted-Kept :
      (h : HandoffEntry) (head : String) (outcome : RebaseOutcome)
      → Kept h
      → Kept (on_rebase_attempted h head outcome)
  unfolding on_rebase_attempted
  attempted-Kept h head outcome k = let settled = settled_rebase-Kept h outcome k in ground arith

  settle-Kept : (h : HandoffEntry) → Kept h → Kept (settle_repair h)
  unfolding settle_repair
  settle-Kept h k = ground arith

  note-Kept :
      (h : HandoffEntry) (p : RepairPublication) (head : Option String)
      → Kept h
      → Kept (note_publication h p head)
  unfolding note_publication
  note-Kept h p head k = ground arith

  reactivate-Kept : (h : HandoffEntry) → Kept h → Kept (reactivate_repair h)
  unfolding reactivate_repair
  reactivate-Kept h k = ground arith

  answer-Kept :
      (h : HandoffEntry) (e : HandoffEvent) → resumes_none e ≡ true → Kept h → Kept (answer h e)
  unfolding answer after_inspection_failed
  answer-Kept h (observed o now c) n k = apply-Kept h o now c k
  answer-Kept h (retried o now c) n k = apply-Kept (settle_repair h) o now c (settle-Kept h k)
  answer-Kept h (inspection_failed now message) n k = ground arith
  answer-Kept h run_settled n k = settle-Kept h k
  answer-Kept h repair_released n k = release-Kept h k
  answer-Kept h (publication_noted p head) n k = note-Kept h p head k
  answer-Kept h retry_queued n k = reactivate-Kept h k
  answer-Kept h (rebase_attempted head outcome) n k = attempted-Kept h head outcome k
  answer-Kept h intervention_resumed n k = cc

  pub live-Kept :
      (h : HandoffEntry) (events : List HandoffEvent)
      → every resumes_none events ≡ true
      → Kept h
      → Kept (live h events)
  unfolding live
  live-Kept h [] n k = k
  live-Kept h (e ∷ events) n k =
      live-Kept (answer h e) events (ground arith) (answer-Kept h e (ground arith) k)
