-- ===== src/Handoff/Perform.antt =====
-- packages/core/src/core/handoff-reconciliation.ts and core/polling/rebase.ts: what a pass makes of
-- a handoff when it carries out the one action that the observation asked for. The answers of the
-- calls it makes are arguments.
use sloppenheimer_ts.Base.{
  ℕ, String, Bool, false, not, ◌&&◌, [], ◌∷◌, Option, none, some, ◌==◌, if◌then◌else◌, string_eq,
  template,
}
use sloppenheimer_ts.Domain.Issue.{Issue}
use sloppenheimer_ts.Domain.Handoff.{intervention_required}
use sloppenheimer_ts.Handoff.Observation.{Observation}
use sloppenheimer_ts.Handoff.Entry.{
  HandoffEntry, RebaseOutcome, repair_issue, awaiting_slot, after_repair_dispatched,
  rebase_in_flight, rebase_started, rebase_settled,
}
use sloppenheimer_ts.Handoff.Action.{
  HandoffAction, no_action, request_review, resolve_threads, merge, complete, note_closed, repair,
  rebase,
}
use sloppenheimer_ts.Handoff.Decision.{
  observe_handoff, after_review_requested, after_threads_resolved, after_merge,
}

-- `RepairPermission` of core/handoff-eligibility.ts.
pub data RepairPermission : Type 0 where
  allowed : Issue → RepairPermission
  denied : String → RepairPermission

-- What the pass is told: whether the handoff has a code review port, the permission and the dispatch flag it is given, whether a slot is free,
-- whether a retry asked for the repair, whether the dispatched worker started, whether the host has
-- a source control, whether the durable workflow admits the rebase, and why a provider call failed.
pub record Circumstances : Type 0 where
  pub has_code_review : Bool
  pub permission : RepairPermission
  pub repair_dispatch_allowed : Bool
  pub has_slot : Bool
  pub is_retry : Bool
  pub worker_started : Bool
  pub has_source_control : Bool
  pub rebase_admitted : Bool
  pub call_failure : Option String

abbrev pub with_reason : HandoffEntry → String → HandoffEntry
with_reason h reason = record h { reason = some reason }

-- The repair of a head under a permission.
unfoldable pub repair_at : HandoffEntry → Issue → String → String → Circumstances → HandoffEntry
repair_at h permitted reason head c =
    let issue = repair_issue h permitted (some head) reason in
    if not c.has_slot
    then (if not c.is_retry
        then awaiting_slot h reason
        else after_repair_dispatched h false issue head reason)
    else after_repair_dispatched h c.worker_started issue head reason

unfoldable pub permitted_repair :
    HandoffEntry → String → Option String → RepairPermission → Circumstances → HandoffEntry
unfolding template repair_at
permitted_repair h reason head (denied refusal) c = with_reason h refusal
permitted_repair h reason none (allowed issue) c =
    with_reason h
      (template ("Cannot dispatch a repair without a pull request head. " ∷ reason ∷ []))
permitted_repair h reason (some head) (allowed issue) c = repair_at h issue reason head c

unfoldable pub perform_repair : HandoffEntry → String → Option String → Circumstances → HandoffEntry
unfolding permitted_repair
perform_repair h reason head c =
    if not c.repair_dispatch_allowed then h else permitted_repair h reason head c.permission c

unfoldable pub start_rebase : HandoffEntry → String → String → Circumstances → HandoffEntry
unfolding template
start_rebase h head reason c =
    if not c.has_source_control
    then with_reason h
        (template ("The host composes no source control to rebase with. " ∷ reason ∷ []))
    else if not c.rebase_admitted
    then record h {
      state = intervention_required;
      reason =
          some
            "Durable workflow admission refused this rebase; inspect the retained workflow or exhausted budget.";
    }
    else rebase_started h head

unfoldable pub perform_rebase :
    HandoffEntry → String → String → RepairPermission → Circumstances → HandoffEntry
unfolding start_rebase
perform_rebase h head reason (denied refusal) c = with_reason h refusal
perform_rebase h head reason (allowed issue) c =
    if not c.repair_dispatch_allowed
    then with_reason h "Workflow validation prevents rebase"
    else start_rebase h head reason c

unfoldable pub carry_out : HandoffEntry → HandoffAction → Circumstances → HandoffEntry
unfolding perform_repair perform_rebase
carry_out h no_action c = h
carry_out h (request_review head) c = after_review_requested h head c.call_failure
carry_out h (resolve_threads head ids) c = after_threads_resolved h c.call_failure
carry_out h (complete at) c = h
carry_out h note_closed c = h
carry_out h (merge head) c = after_merge h c.call_failure
carry_out h (repair reason head attempt) c = perform_repair h reason head c
carry_out h (rebase head reason) c = perform_rebase h head reason c.permission c

unfoldable pub perform : HandoffEntry → HandoffAction → Circumstances → HandoffEntry
unfolding carry_out
perform h a c = if not c.has_code_review then h else carry_out h a c

unfoldable pub apply_handoff_observation :
    HandoffEntry → Observation → ℕ → Circumstances → HandoffEntry
unfolding observe_handoff perform
apply_handoff_observation h o now c =
    let d = observe_handoff h o now in perform d.handoff d.action c

-- `onRebaseAttempted`: an outcome is folded in only while the handoff waits on that very attempt.
abbrev pub awaits_rebase : HandoffEntry → String → Bool
awaits_rebase h head = elim h.rebase [ none ↦ false | some r ↦ r.head_sha == head ]

unfoldable pub on_rebase_attempted : HandoffEntry → String → RebaseOutcome → HandoffEntry
unfolding rebase_in_flight rebase_settled
on_rebase_attempted h head outcome =
    if rebase_in_flight h && awaits_rebase h head then rebase_settled h outcome else h
