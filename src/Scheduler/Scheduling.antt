-- ===== src/Scheduler/Scheduling.antt =====
-- packages/core/src/core/transitions/scheduling.ts: the tick debounce and the callers that wait on a
-- refresh.
use sloppenheimer_ts.Base.{Bool, true, false, not, ◌&&◌, [], ◌∷◌, ◌++◌, List, if◌then◌else◌}
use sloppenheimer_ts.Scheduler.State.{RuntimeState, Waiter}

pub data TickSource : Type 0 where
  startup timer change : TickSource

pub record TickDecision : Type 0 where
  pub enqueue : Bool
  pub scheduled : Bool

abbrev is_change : TickSource → Bool
is_change change = true
is_change startup = false
is_change timer = false

unfoldable pub request_tick : TickSource → RuntimeState → TickDecision × RuntimeState
request_tick source state =
    let owes_follow_up = state.poll_running && is_change source in
    if state.tick_queued
    then (
      record { enqueue = false; scheduled = owes_follow_up && not state.follow_up_requested },
      if owes_follow_up then record state { follow_up_requested = true } else state,
    )
    else (record { enqueue = true; scheduled = true }, record state { tick_queued = true })

unfoldable pub begin_poll : RuntimeState → RuntimeState
begin_poll state = record state { poll_running = true }

unfoldable pub finish_poll : RuntimeState → Bool × RuntimeState
finish_poll state =
    if state.follow_up_requested
    then (true, record state { follow_up_requested = false; poll_running = false })
    else (false, record state { poll_running = false; tick_queued = false })

unfoldable pub await_refresh : Waiter → RuntimeState → RuntimeState
await_refresh reply state =
    if state.poll_running
    then record state { next_refresh_waiters = state.next_refresh_waiters ++ reply ∷ [] }
    else record state { current_refresh_waiters = state.current_refresh_waiters ++ reply ∷ [] }

unfoldable pub take_refresh_waiters : RuntimeState → List Waiter × RuntimeState
take_refresh_waiters state =
    (state.current_refresh_waiters, record state { current_refresh_waiters = [] })

unfoldable pub promote_refresh_waiters : RuntimeState → RuntimeState
promote_refresh_waiters state = record state {
  current_refresh_waiters = state.current_refresh_waiters ++ state.next_refresh_waiters;
  next_refresh_waiters = [];
}
