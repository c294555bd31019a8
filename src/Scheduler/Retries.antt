-- ===== src/Scheduler/Retries.antt =====
-- packages/core/src/core/transitions/retries.ts and deliveries.ts: the queued retries, the paused
-- issue numbers, and the work that waits to reach the remote.
pub mod Deliveries
use sloppenheimer_ts.Base.{
  ℕ, String, Bool, true, false, not, ◌||◌, Option, none, some, ◌==◌, ◌!=◌, if◌then◌else◌, nat_eq,
  string_eq, is_some,
}
use sloppenheimer_ts.Collections.{get, with_entry, without_entry, with_member, without_member}
use sloppenheimer_ts.Scheduler.State.{RuntimeState, RetryEntry, DeliveryEntry}
use sloppenheimer_ts.Scheduler.Claims.{note_issue}

unfoldable pub schedule_retry : RetryEntry → RuntimeState → RuntimeState
unfolding note_issue
schedule_retry entry state =
    let noted = note_issue entry.issue state in
    record noted { retries = with_entry noted.retries entry.issue.id entry }

unfoldable pub take_retry : String → RuntimeState → Option RetryEntry × RuntimeState
take_retry id state = elim (get state.retries id) [
  | none ↦ (none, state)
  | some entry ↦ (some entry, record state { retries = without_entry state.retries id })
]

unfoldable pub take_due_retry : String → ℕ → RuntimeState → Option RetryEntry × RuntimeState
take_due_retry id attempt state = elim (get state.retries id) [
  | none ↦ (none, state)
  | some entry ↦
      if entry.attempt != attempt
      then (none, state)
      else (some entry, record state { retries = without_entry state.retries id })
]

unfoldable pub pause_issue_number : ℕ → RuntimeState → RuntimeState
unfolding with_member
pause_issue_number n state = record state {
  paused_issue_numbers = with_member state.paused_issue_numbers n;
}

unfoldable pub resume_issue_number : ℕ → RuntimeState → RuntimeState
unfolding without_member
resume_issue_number n state = record state {
  paused_issue_numbers = without_member state.paused_issue_numbers n;
}

unfoldable pub schedule_delivery : DeliveryEntry → RuntimeState → RuntimeState
unfolding note_issue
schedule_delivery entry state =
    let noted = note_issue entry.issue state in
    record noted { deliveries = with_entry noted.deliveries entry.issue.id entry }

unfoldable pub take_due_delivery : String → ℕ → RuntimeState → Option DeliveryEntry × RuntimeState
take_due_delivery id attempt state = elim (get state.deliveries id) [
  | none ↦ (none, state)
  | some entry ↦
      if entry.attempt != attempt
      then (none, state)
      else (some entry, record state { deliveries = without_entry state.deliveries id })
]

unfoldable pub take_attempted_delivery :
    String → ℕ → RuntimeState → Option DeliveryEntry × RuntimeState
take_attempted_delivery id attempt state = elim (get state.deliveries id) [
  | none ↦ (none, state)
  | some entry ↦
      if entry.attempt != attempt || not (is_some entry.publishing_since)
      then (none, state)
      else (some entry, record state { deliveries = without_entry state.deliveries id })
]

unfoldable pub begin_delivery_attempt :
    String → ℕ → ℕ → RuntimeState → Option DeliveryEntry × RuntimeState
begin_delivery_attempt id attempt at state = elim (get state.deliveries id) [
  | none ↦ (none, state)
  | some entry ↦
      if entry.attempt != attempt || is_some entry.publishing_since then (none, state) else (
        some entry,
        record state {
          deliveries =
              with_entry state.deliveries id
                (record entry { armed = true; publishing_since = some at });
        },
      )
]

unfoldable pub hold_delivery : DeliveryEntry → RuntimeState → RuntimeState
unfolding note_issue
hold_delivery entry state =
    let noted = note_issue entry.issue state in
    record noted {
      deliveries =
          with_entry noted.deliveries entry.issue.id
            (record entry { armed = false; publishing_since = none });
    }

unfoldable pub suspend_delivery : String → RuntimeState → Option DeliveryEntry × RuntimeState
suspend_delivery id state = elim (get state.deliveries id) [
  | none ↦ (none, state)
  | some entry ↦ if not entry.armed || is_some entry.publishing_since then (none, state) else (
    some entry,
    record state { deliveries = with_entry state.deliveries id (record entry { armed = false }) },
  )
]

unfoldable pub take_delivery : String → RuntimeState → Option DeliveryEntry × RuntimeState
take_delivery id state = elim (get state.deliveries id) [
  | none ↦ (none, state)
  | some entry ↦ (some entry, record state { deliveries = without_entry state.deliveries id })
]
