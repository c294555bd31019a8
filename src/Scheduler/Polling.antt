-- ===== src/Scheduler/Polling.antt =====
-- The poll loop: core/polling/tick.ts with core/runtime/scheduling.ts. Callers in other fibers may
-- ask for a tick between any two steps of the loop, and each offers its tick to the mailbox in a
-- step of its own.
pub mod Ticks
pub mod Drain
pub mod Waiters
pub mod Freshness
use sloppenheimer_ts.Base.{
  ℕ, zero, suc, ◌+◌, Bool, true, false, [], ◌∷◌, ◌++◌, List, if◌then◌else◌, map,
}
use sloppenheimer_ts.Scheduler.State.{RuntimeState, Waiter}
use sloppenheimer_ts.Scheduler.Scheduling.{
  TickSource, change, request_tick, begin_poll, finish_poll, await_refresh, take_refresh_waiters,
  promote_refresh_waiters,
}

-- Where `runTick` stands: before it, polling, with the waiters that it took, and after a poll that
-- owes a follow-up.
pub data Stage : Type 0 where
  idle taken polling : Stage
  answering : List Waiter → Stage
  answered following promoted : Stage

-- A waiter that was answered, and by which poll, counted from 1.
pub record Answer : Type 0 where
  pub waiter : Waiter
  pub poll : ℕ

-- `ticks` is how many ticks the mailbox holds, and `offers` how many a caller has yet to offer.
pub record Poller : Type 0 where
  pub state : RuntimeState
  pub stage : Stage
  pub ticks : ℕ
  pub offers : ℕ
  pub polls : ℕ
  pub answers : List Answer

-- `offerTick` of runtime/scheduling.ts, up to its offer.
unfoldable pub ask_tick : TickSource → Poller → Poller
unfolding request_tick
ask_tick source p =
    let asked = request_tick source p.state in
    record p { state = asked.1; offers = if asked.0.enqueue then p.offers + 1 else p.offers }

-- `requestRefresh`, up to its offer: the caller is registered and the tick is asked for at once.
unfoldable pub ask_refresh : ℕ → Poller → Poller
unfolding ask_tick await_refresh
ask_refresh reply p =
    ask_tick change
      (record p { state = await_refresh (record { reply = reply; asked_at = p.polls }) p.state })

-- A caller's `Queue.offer`.
unfoldable pub offer_one : ℕ → Poller → Poller
offer_one zero p = p
offer_one (suc rest) p = record p { offers = rest; ticks = p.ticks + 1 }

unfoldable pub offer : Poller → Poller
unfolding offer_one
offer p = offer_one p.offers p

-- The loop's `Queue.take`, which waits while there is no tick.
unfoldable pub take_tick : ℕ → Poller → Poller
take_tick zero p = p
take_tick (suc rest) p = record p { ticks = rest; stage = taken }

unfoldable pub answers_of : ℕ → List Waiter → List Answer
answers_of poll = map (λ w. record { waiter = w; poll = poll })

-- The next step of the loop, at each stage.
unfoldable pub advance_from : Stage → Poller → Poller
unfolding begin_poll finish_poll take_refresh_waiters promote_refresh_waiters answers_of take_tick
advance_from idle p = take_tick p.ticks p
advance_from taken p = record p { state = begin_poll p.state; polls = suc p.polls; stage = polling }
advance_from polling p =
    let waiters = take_refresh_waiters p.state in
    record p { state = waiters.1; stage = answering waiters.0 }
advance_from (answering waiters) p = record p {
  answers = p.answers ++ answers_of p.polls waiters;
  stage = answered;
}
advance_from answered p =
    let finished = finish_poll p.state in
    record p { state = finished.1; stage = if finished.0 then following else idle }
advance_from following p = record p { state = promote_refresh_waiters p.state; stage = promoted }
advance_from promoted p = record p { ticks = p.ticks + 1; stage = idle }

unfoldable pub advance : Poller → Poller
unfolding advance_from
advance p = advance_from p.stage p

-- What may happen next.
pub data PollEvent : Type 0 where
  asks_tick : TickSource → PollEvent
  asks_refresh : ℕ → PollEvent
  offers_tick loop_steps : PollEvent

unfoldable pub poll_step : PollEvent → Poller → Poller
unfolding ask_tick ask_refresh offer advance
poll_step (asks_tick source) p = ask_tick source p
poll_step (asks_refresh reply) p = ask_refresh reply p
poll_step offers_tick p = offer p
poll_step loop_steps p = advance p

unfoldable pub poll_steps : List PollEvent → Poller → Poller
unfolding poll_step
poll_steps [] p = p
poll_steps (e ∷ es) p = poll_steps es (poll_step e p)

-- The loop before its first tick.
abbrev pub at_start : RuntimeState → Poller
at_start state = record {
  state = state;
  stage = idle;
  ticks = 0;
  offers = 0;
  polls = 0;
  answers = [];
}
