-- ===== src/Handoff/Life/Budget.antt =====
-- The repair budget and the cycle guard over the whole life of a handoff.
use sloppenheimer_ts.Base.{
  ℕ, ◌≤◌, ◌<◌, String, Bool, false, ◌≡◌, List, [], ◌∷◌, Option, none, some, string_eq, length, true,
  every, arith,
}
use sloppenheimer_ts.Domain.Issue.{Issue}
use sloppenheimer_ts.Domain.Handoff.{RepairPublication}
use sloppenheimer_ts.Handoff.Observation.{Observation}
use sloppenheimer_ts.Handoff.Entry.{
  HandoffEntry, RepairEntry, RebaseOutcome, published, no_changes, conflicted, repair_failed,
  blocked, failed, settle_repair, note_publication, reactivate_repair, retry_handoff_intervention,
  repair_issue, after_repair_dispatched, rebase_settled, rebase_started, intervene, awaiting_slot,
}
use sloppenheimer_ts.Handoff.Action.{
  HandoffAction, no_action, request_review, resolve_threads, merge, complete, note_closed, repair,
  rebase,
}
use sloppenheimer_ts.Handoff.Decision.{
  repair_limit, observe_handoff, after_review_requested, after_threads_resolved, after_merge,
  after_inspection_failed,
}
use sloppenheimer_ts.Handoff.Decision.Repairs.{
  IsAccounted, IsDistinct, Owing, HasRoom, Within-append, release-IsAccounted, observe-IsSound,
}
use sloppenheimer_ts.Handoff.Perform.{
  Circumstances, RepairPermission, allowed, denied, repair_at, permitted_repair, perform_repair,
  start_rebase, perform_rebase, carry_out, perform, apply_handoff_observation, on_rebase_attempted,
}
use sloppenheimer_ts.Handoff.Life.{
  HandoffEvent, observed, retried, inspection_failed, run_settled, repair_released,
  publication_noted, retry_queued, rebase_attempted, intervention_resumed, answer, live,
}
use sloppenheimer_ts.Handoff.Life.Growth.{starts_with, starts_with_self, resumes_none, live-Kept}

-- A dispatch takes a place of the budget that is still free.
dispatched-IsAccounted :
    (h : HandoffEntry) (started : Bool) (issue : Issue) (head reason : String)
    → IsAccounted h
    → length h.repair_head_shas < repair_limit
    → IsAccounted (after_repair_dispatched h started issue head reason)
unfolding after_repair_dispatched
dispatched-IsAccounted h started issue head reason a room =
    let known = Within-append h.repair_head_shas h.repair_observed_head_shas head a.known in
    ground arith

repair_at-IsAccounted :
    (h : HandoffEntry) (issue : Issue) (reason head : String) (c : Circumstances)
    → IsAccounted h
    → length h.repair_head_shas < repair_limit
    → IsAccounted (repair_at h issue reason head c)
unfolding repair_at awaiting_slot
repair_at-IsAccounted h issue reason head c a room =
    let permitted = repair_issue h issue (some head) reason in
    let refused = dispatched-IsAccounted h false permitted head reason a room in
    let dispatched = dispatched-IsAccounted h c.worker_started permitted head reason a room in
    ground arith

permitted-IsAccounted :
    (h : HandoffEntry) (reason : String) (head : Option String) (p : RepairPermission)
    (c : Circumstances)
    → IsAccounted h
    → length h.repair_head_shas < repair_limit
    → IsAccounted (permitted_repair h reason head p c)
unfolding permitted_repair
permitted-IsAccounted h reason head (denied refusal) c a room = ground arith
permitted-IsAccounted h reason none (allowed issue) c a room = ground arith
permitted-IsAccounted h reason (some head) (allowed issue) c a room =
    repair_at-IsAccounted h issue reason head c a room

repair-IsAccounted :
    (h : HandoffEntry) (reason : String) (head : Option String) (c : Circumstances)
    → IsAccounted h
    → length h.repair_head_shas < repair_limit
    → IsAccounted (perform_repair h reason head c)
unfolding perform_repair
repair-IsAccounted h reason head c a room =
    let permitted = permitted-IsAccounted h reason head c.permission c a room in ground arith

rebase-IsAccounted :
    (h : HandoffEntry) (head reason : String) (p : RepairPermission) (c : Circumstances)
    → IsAccounted h
    → IsAccounted (perform_rebase h head reason p c)
unfolding perform_rebase start_rebase rebase_started
rebase-IsAccounted h head reason (denied refusal) c a = ground arith
rebase-IsAccounted h head reason (allowed issue) c a = ground arith

reviewed-IsAccounted :
    (h : HandoffEntry) (head : String) (failure : Option String)
    → IsAccounted h
    → IsAccounted (after_review_requested h head failure)
unfolding after_review_requested
reviewed-IsAccounted h head none a = ground arith
reviewed-IsAccounted h head (some failure) a = ground arith

merged-IsAccounted :
    (h : HandoffEntry) (failure : Option String)
    → IsAccounted h
    → IsAccounted (after_merge h failure)
unfolding after_merge
merged-IsAccounted h none a = ground arith
merged-IsAccounted h (some failure) a = ground arith

carry_out-IsAccounted :
    (h : HandoffEntry) (a : HandoffAction) (c : Circumstances)
    → IsAccounted h
    → HasRoom a h
    → IsAccounted (carry_out h a c)
unfolding carry_out after_threads_resolved
carry_out-IsAccounted h no_action c a room = a
carry_out-IsAccounted h (request_review head) c a room =
    reviewed-IsAccounted h head c.call_failure a
carry_out-IsAccounted h (resolve_threads head ids) c a room = ground arith
carry_out-IsAccounted h (complete at) c a room = a
carry_out-IsAccounted h note_closed c a room = a
carry_out-IsAccounted h (merge head) c a room = merged-IsAccounted h c.call_failure a
carry_out-IsAccounted h (repair reason head n) c a room = repair-IsAccounted h reason head c a room
carry_out-IsAccounted h (rebase head reason) c a room =
    rebase-IsAccounted h head reason c.permission c a

apply-IsAccounted :
    (h : HandoffEntry) (o : Observation) (now : ℕ) (c : Circumstances)
    → IsAccounted h
    → IsAccounted (apply_handoff_observation h o now c)
unfolding apply_handoff_observation perform
apply-IsAccounted h o now c a =
    let d = observe_handoff h o now in
    let sound = observe-IsSound h o now a in
    let carried = carry_out-IsAccounted d.handoff d.action c sound.accounted sound.room in
    ground arith

settled_rebase-IsAccounted :
    (h : HandoffEntry) (outcome : RebaseOutcome)
    → IsAccounted h
    → IsAccounted (rebase_settled h outcome)
unfolding rebase_settled intervene
settled_rebase-IsAccounted h (published head) a = ground arith
settled_rebase-IsAccounted h no_changes a = ground arith
settled_rebase-IsAccounted h (conflicted m) a = ground arith
settled_rebase-IsAccounted h (repair_failed m) a = ground arith
settled_rebase-IsAccounted h (blocked m) a = ground arith
settled_rebase-IsAccounted h (failed m) a = ground arith

attempted-IsAccounted :
    (h : HandoffEntry) (head : String) (outcome : RebaseOutcome)
    → IsAccounted h
    → IsAccounted (on_rebase_attempted h head outcome)
unfolding on_rebase_attempted
attempted-IsAccounted h head outcome a =
    let settled = settled_rebase-IsAccounted h outcome a in ground arith

settle-IsAccounted : (h : HandoffEntry) → IsAccounted h → IsAccounted (settle_repair h)
unfolding settle_repair
settle-IsAccounted h a = ground arith

note-IsAccounted :
    (h : HandoffEntry) (p : RepairPublication) (head : Option String)
    → IsAccounted h
    → IsAccounted (note_publication h p head)
unfolding note_publication
note-IsAccounted h p head a = ground arith

reactivate-IsAccounted : (h : HandoffEntry) → IsAccounted h → IsAccounted (reactivate_repair h)
unfolding reactivate_repair
reactivate-IsAccounted h a = ground arith

answer-IsAccounted :
    (h : HandoffEntry) (e : HandoffEvent) → IsAccounted h → IsAccounted (answer h e)
unfolding answer after_inspection_failed retry_handoff_intervention
answer-IsAccounted h (observed o now c) a = apply-IsAccounted h o now c a
answer-IsAccounted h (retried o now c) a =
    apply-IsAccounted (settle_repair h) o now c (settle-IsAccounted h a)
answer-IsAccounted h (inspection_failed now message) a = ground arith
answer-IsAccounted h run_settled a = settle-IsAccounted h a
answer-IsAccounted h repair_released a = release-IsAccounted h a
answer-IsAccounted h (publication_noted p head) a = note-IsAccounted h p head a
answer-IsAccounted h retry_queued a = reactivate-IsAccounted h a
answer-IsAccounted h (rebase_attempted head outcome) a = attempted-IsAccounted h head outcome a
answer-IsAccounted h intervention_resumed a = ground arith

live-IsAccounted :
    (h : HandoffEntry) (events : List HandoffEvent) → IsAccounted h → IsAccounted (live h events)
unfolding live
live-IsAccounted h [] a = a
live-IsAccounted h (e ∷ events) a = live-IsAccounted (answer h e) events (answer-IsAccounted h e a)

Owing-bounded :
    (r : Option RepairEntry) (heads : List String) → Owing r heads → length heads ≤ repair_limit
Owing-bounded none heads b = b
Owing-bounded (some r) heads b = omega (arith, b)

fresh-IsAccounted : (h : HandoffEntry) → h.repair_head_shas ≡ [] → h.repair ≡ none → IsAccounted h
fresh-IsAccounted h fresh idle = ground arith

-- From a handoff on which no repair is recorded and none is carried, after any sequence of events, and
-- then any in which no intervention is resumed: the handoff records no more repaired heads than the
-- budget of three, they are different, and they begin with those that it recorded before the second
-- sequence. So no more than three heads are attributed to repairs from one resumption to the next.
pub live_within_budget :
    (h : HandoffEntry) (earlier later : List HandoffEvent)
    → h.repair_head_shas ≡ []
    → h.repair ≡ none
    → every resumes_none later ≡ true
    → (length (live (live h earlier) later).repair_head_shas ≤ repair_limit)
      × IsDistinct (live (live h earlier) later).repair_head_shas
      × (starts_with
            (live h earlier).repair_head_shas
            (live (live h earlier) later).repair_head_shas
          ≡ true)
live_within_budget h earlier later fresh idle kept =
    let before = live-IsAccounted h earlier (fresh-IsAccounted h fresh idle) in
    let a = live-IsAccounted (live h earlier) later before in
    (
      Owing-bounded _ _ a.budget,
      a.distinct,
      live-Kept (live h earlier).repair_head_shas (live h earlier) later kept
          (starts_with_self (live h earlier).repair_head_shas),
    )
