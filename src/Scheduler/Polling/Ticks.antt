-- ===== src/Scheduler/Polling/Ticks.antt =====
-- The debounce: what is queued, owed or running is one tick.
use sloppenheimer_ts.Base.{
  ℕ, zero, suc, ◌+◌, ◌≡◌, refl, Bool, true, false, ◌||◌, [], ◌∷◌, List, if◌then◌else◌, arith,
}
use sloppenheimer_ts.Scheduler.State.{RuntimeState}
use sloppenheimer_ts.Scheduler.Scheduling.{
  TickSource, request_tick, begin_poll, finish_poll, await_refresh, take_refresh_waiters,
  promote_refresh_waiters,
}
use sloppenheimer_ts.Scheduler.Polling.{
  Stage, idle, taken, polling, answering, answered, following, promoted, Poller, ask_tick,
  ask_refresh, offer, offer_one, take_tick, advance_from, advance, PollEvent, asks_tick,
  asks_refresh, offers_tick, loop_steps, poll_step, poll_steps, at_start,
}

abbrev pub busy : Stage → ℕ
busy idle = 0
busy taken = 1
busy polling = 1
busy (answering ws) = 1
busy answered = 1
busy following = 1
busy promoted = 1

-- Between `beginPoll` and `finishPoll`, and after `takeRefreshWaiters` there.
abbrev pub in_poll : Stage → Bool
in_poll idle = false
in_poll taken = false
in_poll polling = true
in_poll (answering ws) = true
in_poll answered = true
in_poll following = false
in_poll promoted = false

abbrev pub has_taken : Stage → Bool
has_taken idle = false
has_taken taken = false
has_taken polling = false
has_taken (answering ws) = true
has_taken answered = true
has_taken following = false
has_taken promoted = false

abbrev pub is_following : Stage → Bool
is_following idle = false
is_following taken = false
is_following polling = false
is_following (answering ws) = false
is_following answered = false
is_following following = true
is_following promoted = false

pub record IsDebounced (p : Poller) : Type 0 where
  pub counted : p.ticks + p.offers + busy p.stage ≡ (if p.state.tick_queued then 1 else 0)
  pub running : p.state.poll_running ≡ in_poll p.stage
  pub owed : p.state.follow_up_requested ≡ true → in_poll p.stage ≡ true
  pub next_owed :
      (p.state.follow_up_requested || is_following p.stage) ≡ false
      → p.state.next_refresh_waiters ≡ []
  pub current_queued : p.state.tick_queued ≡ false → p.state.current_refresh_waiters ≡ []
  pub current_taken : has_taken p.stage ≡ true → p.state.current_refresh_waiters ≡ []

ask_tick-IsDebounced :
    (source : TickSource) (p : Poller) → IsDebounced p → IsDebounced (ask_tick source p)
unfolding ask_tick request_tick
ask_tick-IsDebounced source p v = ground arith

ask_refresh-IsDebounced :
    (reply : ℕ) (p : Poller) → IsDebounced p → IsDebounced (ask_refresh reply p)
unfolding ask_refresh ask_tick await_refresh request_tick
ask_refresh-IsDebounced reply p v = ground arith

pub offer_one-IsDebounced :
    (n : ℕ) (p : Poller) → p.offers ≡ n → IsDebounced p → IsDebounced (offer_one n p)
unfolding offer_one
offer_one-IsDebounced zero p h v = v
offer_one-IsDebounced (suc n) p h v = ground arith

take_tick-IsDebounced :
    (n : ℕ) (p : Poller)
    → p.ticks ≡ n
    → p.stage ≡ idle
    → IsDebounced p
    → IsDebounced (take_tick n p)
unfolding take_tick
take_tick-IsDebounced zero p h k v = v
take_tick-IsDebounced (suc n) p h k v = ground arith

pub advance_from-IsDebounced :
    (stage : Stage) (p : Poller)
    → p.stage ≡ stage
    → IsDebounced p
    → IsDebounced (advance_from stage p)
unfolding advance_from begin_poll finish_poll take_refresh_waiters promote_refresh_waiters
advance_from-IsDebounced idle p h v = take_tick-IsDebounced p.ticks p refl h v
advance_from-IsDebounced stage p h v = ground arith

pub poll_step-IsDebounced :
    (e : PollEvent) (p : Poller) → IsDebounced p → IsDebounced (poll_step e p)
unfolding poll_step offer advance
poll_step-IsDebounced (asks_tick source) p v = ask_tick-IsDebounced source p v
poll_step-IsDebounced (asks_refresh reply) p v = ask_refresh-IsDebounced reply p v
poll_step-IsDebounced offers_tick p v = offer_one-IsDebounced p.offers p refl v
poll_step-IsDebounced loop_steps p v = advance_from-IsDebounced p.stage p refl v

pub poll_steps-IsDebounced :
    (es : List PollEvent) (p : Poller) → IsDebounced p → IsDebounced (poll_steps es p)
unfolding poll_steps
poll_steps-IsDebounced [] p v = v
poll_steps-IsDebounced (e ∷ es) p v =
    poll_steps-IsDebounced es (poll_step e p) (poll_step-IsDebounced e p v)

-- A state in which nothing is asked for: the loop has not started.
pub record IsQuiet (state : RuntimeState) : Type 0 where
  pub not_queued : state.tick_queued ≡ false
  pub not_running : state.poll_running ≡ false
  pub not_owed : state.follow_up_requested ≡ false
  pub no_current : state.current_refresh_waiters ≡ []
  pub no_next : state.next_refresh_waiters ≡ []

pub at_start-IsDebounced : (state : RuntimeState) → IsQuiet state → IsDebounced (at_start state)
at_start-IsDebounced state q = ground arith

-- From a quiet start, whatever callers ask and however their steps and the loop's interleave: the
-- ticks in the mailbox, the ticks that callers have yet to offer and the tick that is being run are
-- one if the state says that a tick is queued, and none otherwise.
pub one_tick :
    (state : RuntimeState) (es : List PollEvent)
    → IsQuiet state
    → (poll_steps es (at_start state)).ticks
        + (poll_steps es (at_start state)).offers
        + busy (poll_steps es (at_start state)).stage
      ≡ (if (poll_steps es (at_start state)).state.tick_queued then 1 else 0)
one_tick state es q =
    (poll_steps-IsDebounced es (at_start state) (at_start-IsDebounced state q)).counted
