-- ===== src/Handoff/Life.antt =====
-- The life of a handoff: the events of the orchestrator that write it, each with the function of the
-- source that answers it.
pub mod Budget
pub mod Growth
pub mod Rebases
use sloppenheimer_ts.Base.{ℕ, String, List, [], ◌∷◌, Option}
use sloppenheimer_ts.Domain.Handoff.{RepairPublication}
use sloppenheimer_ts.Handoff.Observation.{Observation}
use sloppenheimer_ts.Handoff.Entry.{
  HandoffEntry, RebaseOutcome, release_repair, settle_repair, note_publication, reactivate_repair,
  retry_handoff_intervention,
}
use sloppenheimer_ts.Handoff.Decision.{after_inspection_failed}
use sloppenheimer_ts.Handoff.Perform.{Circumstances, apply_handoff_observation, on_rebase_attempted}

pub data HandoffEvent : Type 0 where
  observed : Observation → ℕ → Circumstances → HandoffEvent
  retried : Observation → ℕ → Circumstances → HandoffEvent
  inspection_failed : ℕ → String → HandoffEvent
  run_settled : HandoffEvent
  repair_released : HandoffEvent
  publication_noted : RepairPublication → Option String → HandoffEvent
  retry_queued : HandoffEvent
  rebase_attempted : String → RebaseOutcome → HandoffEvent
  intervention_resumed : HandoffEvent

-- A retry that comes due settles the repair before it applies its observation.
unfoldable pub answer : HandoffEntry → HandoffEvent → HandoffEntry
unfolding settle_repair release_repair note_publication reactivate_repair
answer h (observed o now c) = apply_handoff_observation h o now c
answer h (retried o now c) = apply_handoff_observation (settle_repair h) o now c
answer h (inspection_failed now message) = after_inspection_failed h now message
answer h run_settled = settle_repair h
answer h repair_released = release_repair h
answer h (publication_noted publication head) = note_publication h publication head
answer h retry_queued = reactivate_repair h
answer h (rebase_attempted head outcome) = on_rebase_attempted h head outcome
answer h intervention_resumed = retry_handoff_intervention h

unfoldable pub live : HandoffEntry → List HandoffEvent → HandoffEntry
unfolding answer
live h [] = h
live h (e ∷ events) = live (answer h e) events
