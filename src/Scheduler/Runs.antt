-- ===== src/Scheduler/Runs.antt =====
-- packages/core/src/core/transitions/runs.ts: the live runs, and the telemetry that is buffered for
-- them. The rate limits are not modelled.
pub mod Trace
pub mod Bounds
pub mod Exits
use sloppenheimer_ts.Base.{
  ℕ, ◌+◌, ◌-◌, String, Bool, true, false, not, ◌&&◌, ◌||◌, [], ◌∷◌, ◌++◌, List, Option, none, some,
  ◌==◌, ◌!=◌, if◌then◌else◌, nat_eq, string_eq, max,
}
use sloppenheimer_ts.Collections.{Map, get, with_entry, without_entry}
use sloppenheimer_ts.Domain.Telemetry.{
  Usage, high_water, plus_usage, AgentEvent, TurnIdentity, fold_turn_identity, or_held,
}
use sloppenheimer_ts.Scheduler.State.{
  RuntimeState, RunningEntry, RunPhase, postflight, preparing, agent, TokenTotals,
}

unfoldable pub begin_run : RunningEntry → RuntimeState → RuntimeState
unfolding with_entry
begin_run entry state = record state { running = with_entry state.running entry.issue.id entry }

unfoldable pub take_run_id : RuntimeState → ℕ × RuntimeState
take_run_id state = (state.next_run_id, record state { next_run_id = state.next_run_id + 1 })

-- `expectedRunId !== null && entry.runId !== expectedRunId`.
abbrev other_run : Option ℕ → ℕ → Bool
other_run none run_id = false
other_run (some expected) run_id = run_id != expected

unfoldable pub end_run : String → Option ℕ → RuntimeState → Option RunningEntry × RuntimeState
end_run id expected state = elim (get state.running id) [
  | none ↦ (none, state)
  | some entry ↦
      if other_run expected entry.run_id
      then (none, state)
      else (some entry, record state { running = without_entry state.running id })
]

unfoldable pub update_run : String → (RunningEntry → RunningEntry) → RuntimeState → RuntimeState
update_run id update state = elim (get state.running id) [
  | none ↦ state
  | some entry ↦ record state { running = with_entry state.running id (update entry) }
]

unfoldable pub account_ended_run : RunningEntry → ℕ → RuntimeState → RuntimeState
unfolding plus_usage
account_ended_run entry now state = record state {
  totals = record {
    used = plus_usage state.totals.used entry.tokens;
    milliseconds_running = state.totals.milliseconds_running + (now - entry.started_at);
  };
}

unfoldable pub apply_run_event : RunningEntry → AgentEvent → RunningEntry
unfolding fold_turn_identity
apply_run_event entry update =
    let identity =
      fold_turn_identity
        (record {
          turn_id = entry.turn_id;
          session_id = entry.session_id;
          turn_count = entry.turn_count;
        })
        update in
    record entry {
      last_event = some update.event;
      last_event_at = some update.timestamp;
      last_message = or_held update.message entry.last_message;
      process_id = update.process_id;
      thread_id = or_held update.thread_id entry.thread_id;
      turn_id = identity.turn_id;
      session_id = identity.session_id;
      turn_count = identity.turn_count;
    }

abbrev in_postflight : RunPhase → Bool
in_postflight (postflight at) = true
in_postflight preparing = false
in_postflight (agent at) = false

unfoldable pub postflight_takeover_applies : String → ℕ → RuntimeState → Bool
postflight_takeover_applies id run_id state = elim (get state.running id) [
  | none ↦ false
  | some entry ↦ entry.run_id == run_id && not (in_postflight entry.phase)
]

unfoldable pub note_postflight_started : String → ℕ → ℕ → RuntimeState → RuntimeState
unfolding postflight_takeover_applies
note_postflight_started id run_id at state = elim (get state.running id) [
  | none ↦ state
  | some entry ↦ if not (postflight_takeover_applies id run_id state) then state else record state {
    running = with_entry state.running id (record entry { phase = postflight at });
  }
]

unfoldable pub apply_pending_telemetry :
    String → RunningEntry → RuntimeState → RunningEntry × RuntimeState
unfolding high_water
apply_pending_telemetry id entry state = (
  elim (get state.pending_usage id) [
    | none ↦ entry
    | some usage ↦ record entry {
      last_reported_tokens = usage;
      tokens = high_water (some entry.tokens) usage;
    }
  ],
  record state { pending_usage = without_entry state.pending_usage id },
)

unfoldable pub record_pending_usage : String → Usage → RuntimeState → RuntimeState
unfolding high_water
record_pending_usage id usage state = record state {
  pending_usage = with_entry state.pending_usage id (high_water (get state.pending_usage id) usage);
}

-- `state.pendingLifecycle.get(id) ?? []`.
abbrev pub queued_events : Option (List AgentEvent) → List AgentEvent
queued_events none = []
queued_events (some events) = events

unfoldable pub queue_pending_lifecycle : String → AgentEvent → RuntimeState → RuntimeState
queue_pending_lifecycle id update state = record state {
  pending_lifecycle =
      with_entry state.pending_lifecycle id
        (queued_events (get state.pending_lifecycle id) ++ update ∷ []);
}

-- The events without the first one that is this object; `none` if none is.
unfoldable pub without_event : AgentEvent → List AgentEvent → Option (List AgentEvent)
without_event update [] = none
without_event update (e ∷ es) =
    let later = without_event update es in
    if e.self == update.self
    then some es
    else elim later [ none ↦ none | some rest ↦ some (e ∷ rest) ]

unfoldable pub drop_pending_lifecycle : String → AgentEvent → RuntimeState → RuntimeState
unfolding without_event
drop_pending_lifecycle id update state = elim (get state.pending_lifecycle id) [
  | none ↦ state
  | some queued ↦ elim (without_event update queued) [
    | none ↦ state
    | some [] ↦ record state { pending_lifecycle = without_entry state.pending_lifecycle id }
    | some remaining ↦ record state {
      pending_lifecycle = with_entry state.pending_lifecycle id remaining;
    }
  ]
]

unfoldable pub take_pending_lifecycle : String → RuntimeState → List AgentEvent × RuntimeState
take_pending_lifecycle id state = (
  queued_events (get state.pending_lifecycle id),
  record state { pending_lifecycle = without_entry state.pending_lifecycle id },
)
