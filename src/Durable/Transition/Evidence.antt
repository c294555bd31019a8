-- ===== src/Durable/Transition/Evidence.antt =====
-- A workflow completes only on the evidence of a verified publication.
use sloppenheimer_ts.Base.{ℕ, String, ◌≡◌, List, [], ◌∷◌, Option, some, none, arith}
use sloppenheimer_ts.Durable.Types.{Artifact, DurableWorkflow, WorkflowStatus, completed}
use sloppenheimer_ts.Durable.Transition.{
  WorkflowEvent, intent_changed, started, settled, recovered, transition_workflow, run,
}

-- The artifact is the verified candidate, published at this head.
abbrev pub IsPublished : Option Artifact → Option String → Type 0
IsPublished none head = ⊥
IsPublished (some a) head =
    (a.verified_revision ≡ some a.candidate_revision) × (a.published_head ≡ head)

abbrev pub Evidence : WorkflowStatus → Option Artifact → Type 0
Evidence (completed head) artifact = IsPublished artifact head
Evidence _ artifact = Unit

abbrev pub IsEvidenced : DurableWorkflow → Type 0
IsEvidenced w = Evidence w.status w.artifact

transition-IsEvidenced :
    (w : DurableWorkflow) (e : WorkflowEvent) (now : ℕ)
    → IsEvidenced w
    → IsEvidenced (transition_workflow w e now)
unfolding transition_workflow
transition-IsEvidenced w (intent_changed i) now h = ground arith
transition-IsEvidenced w (started i g) now h = ground arith
transition-IsEvidenced w (settled x) now h = ground arith
transition-IsEvidenced w recovered now h = ground arith

-- If a completed workflow had its evidence before, then after any events a completed workflow holds
-- an artifact whose candidate is verified and whose published head is the head of the completion.
pub run-IsEvidenced :
    (w : DurableWorkflow) (es : List (WorkflowEvent × ℕ)) → IsEvidenced w → IsEvidenced (run w es)
unfolding run
run-IsEvidenced w [] h = h
run-IsEvidenced w ((e, now) ∷ es) h =
    run-IsEvidenced (transition_workflow w e now) es (transition-IsEvidenced w e now h)
