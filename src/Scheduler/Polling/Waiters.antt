-- ===== src/Scheduler/Polling/Waiters.antt =====
-- Every refresh is answered once, by a poll that began after it was asked for.
use sloppenheimer_ts.Base.{
  ℕ, zero, suc, ◌+◌, ◌≡◌, refl, [], ◌∷◌, ◌++◌, List, if◌then◌else◌, arith, ◌==◌, nat_eq, ◌∙◌, count,
}
use sloppenheimer_ts.Scheduler.State.{RuntimeState, Waiter}
use sloppenheimer_ts.Scheduler.Scheduling.{
  TickSource, change, request_tick, begin_poll, finish_poll, await_refresh, take_refresh_waiters,
  promote_refresh_waiters,
}
use sloppenheimer_ts.Scheduler.Polling.{
  Stage, idle, taken, polling, answering, answered, following, promoted, Poller, Answer, answers_of,
  ask_tick, ask_refresh, offer, offer_one, take_tick, advance_from, advance, PollEvent, asks_tick,
  asks_refresh, offers_tick, loop_steps, poll_step, poll_steps, at_start,
}
use sloppenheimer_ts.Scheduler.Polling.Ticks.{IsQuiet}
use sloppenheimer_ts.Scheduler.Polling.Drain.{IsAtRest, loops, poll_loop_drains}

-- How often a Deferred is among those asked for, among waiters and among answers.
unfoldable pub asks : List PollEvent → List ℕ
asks [] = []
asks (asks_refresh reply ∷ es) = reply ∷ asks es
asks (asks_tick source ∷ es) = asks es
asks (offers_tick ∷ es) = asks es
asks (loop_steps ∷ es) = asks es

abbrev pub among : ℕ → List Waiter → ℕ
among r [] = 0
among r (w ∷ ws) = (if w.reply == r then 1 else 0) + among r ws

abbrev pub answered_times : ℕ → List Answer → ℕ
answered_times r [] = 0
answered_times r (a ∷ more) = (if a.waiter.reply == r then 1 else 0) + answered_times r more

abbrev held : Stage → List Waiter
held (answering ws) = ws
held idle = []
held taken = []
held polling = []
held answered = []
held following = []
held promoted = []

-- Every request for a refresh that was made, answered or not.
accounted : ℕ → Poller → ℕ
accounted r p =
    answered_times r p.answers
    + among r (held p.stage)
    + among r p.state.current_refresh_waiters
    + among r p.state.next_refresh_waiters

among-append : (r : ℕ) (xs ys : List Waiter) → among r (xs ++ ys) ≡ among r xs + among r ys
among-append r [] ys = omega arith
among-append r (x ∷ xs) ys = omega (arith, among-append r xs ys)

answered_times-append :
    (r : ℕ) (xs ys : List Answer)
    → answered_times r (xs ++ ys) ≡ answered_times r xs + answered_times r ys
answered_times-append r [] ys = omega arith
answered_times-append r (x ∷ xs) ys = omega (arith, answered_times-append r xs ys)

answered_times-answers_of :
    (r poll : ℕ) (ws : List Waiter) → answered_times r (answers_of poll ws) ≡ among r ws
unfolding answers_of
answered_times-answers_of r poll [] = refl
answered_times-answers_of r poll (w ∷ ws) = omega (arith, answered_times-answers_of r poll ws)

take_tick-accounted :
    (r n : ℕ) (p : Poller) → p.stage ≡ idle → accounted r (take_tick n p) ≡ accounted r p
unfolding take_tick accounted
take_tick-accounted r zero p h = refl
take_tick-accounted r (suc n) p h = rw h refl

advance_from-accounted :
    (r : ℕ) (stage : Stage) (p : Poller)
    → p.stage ≡ stage
    → accounted r (advance_from stage p) ≡ accounted r p
unfolding accounted advance_from begin_poll finish_poll take_refresh_waiters promote_refresh_waiters
advance_from-accounted r idle p h = take_tick-accounted r p.ticks p h
advance_from-accounted r (answering ws) p h = rw h (
    omega (
      arith,
      answered_times-append r p.answers (answers_of p.polls ws),
      answered_times-answers_of r p.polls ws,
    ))
advance_from-accounted r following p h =
    rw h
      (omega (arith, among-append r p.state.current_refresh_waiters p.state.next_refresh_waiters))
advance_from-accounted r answered p h = rw h (ground arith)
advance_from-accounted r stage p h = rw h (omega arith)

ask_tick-accounted :
    (r : ℕ) (source : TickSource) (p : Poller) → accounted r (ask_tick source p) ≡ accounted r p
unfolding accounted ask_tick request_tick
ask_tick-accounted r source p = ground arith

offer_one-accounted : (r n : ℕ) (p : Poller) → accounted r (offer_one n p) ≡ accounted r p
unfolding accounted offer_one
offer_one-accounted r zero p = refl
offer_one-accounted r (suc n) p = refl

-- The caller is registered, before its tick is asked for.
registered : ℕ → Poller → Poller
registered reply p = record p {
  state = await_refresh (record { reply = reply; asked_at = p.polls }) p.state;
}

registered-accounted :
    (r reply : ℕ) (p : Poller)
    → accounted r (registered reply p) ≡ accounted r p + (if reply == r then 1 else 0)
unfolding accounted registered await_refresh
registered-accounted r reply p =
    let w : Waiter = record { reply = reply; asked_at = p.polls } in
    ground (
      arith,
      among-append r p.state.current_refresh_waiters (w ∷ []),
      among-append r p.state.next_refresh_waiters (w ∷ []),
    )

ask_refresh-accounted :
    (r reply : ℕ) (p : Poller)
    → accounted r (ask_refresh reply p) ≡ accounted r p + (if reply == r then 1 else 0)
unfolding ask_refresh registered
ask_refresh-accounted r reply p =
    ask_tick-accounted r change (registered reply p) ∙ registered-accounted r reply p

poll_step-accounted :
    (r : ℕ) (e : PollEvent) (es : List PollEvent) (p : Poller)
    → accounted r (poll_step e p) + count r (asks es) ≡ accounted r p + count r (asks (e ∷ es))
unfolding poll_step offer advance asks
poll_step-accounted r (asks_tick source) es p = omega (arith, ask_tick-accounted r source p)
poll_step-accounted r (asks_refresh reply) es p = omega (arith, ask_refresh-accounted r reply p)
poll_step-accounted r offers_tick es p = omega (arith, offer_one-accounted r p.offers p)
poll_step-accounted r loop_steps es p = omega (arith, advance_from-accounted r p.stage p refl)

poll_steps-accounted :
    (r : ℕ) (es : List PollEvent) (p : Poller)
    → accounted r (poll_steps es p) ≡ accounted r p + count r (asks es)
unfolding poll_steps asks
poll_steps-accounted r [] p = omega arith
poll_steps-accounted r (e ∷ es) p =
    omega (arith, poll_steps-accounted r es (poll_step e p), poll_step-accounted r e es p)

accounted_at_rest : (r : ℕ) (p : Poller) → IsAtRest p → accounted r p ≡ answered_times r p.answers
unfolding accounted
accounted_at_rest r p rest = ground arith

accounted_at_start :
    (r : ℕ) (state : RuntimeState) → IsQuiet state → accounted r (at_start state) ≡ 0
unfolding accounted
accounted_at_start r state q = ground arith

asks-loops : (r n : ℕ) → count r (asks (offers_tick ∷ loops n)) ≡ 0
unfolding asks loops
asks-loops r zero = refl
asks-loops r (suc n) = asks-loops r n

-- Whatever happened since a quiet start, once a caller that is about to offer its tick has done so,
-- ten more steps of the loop leave each Deferred answered as often as a refresh was asked for with
-- it: every caller is answered, and none twice.
pub refreshes_answered :
    (state : RuntimeState) (es : List PollEvent) (r : ℕ)
    → IsQuiet state
    → answered_times r
        (poll_steps (offers_tick ∷ loops 10) (poll_steps es (at_start state))).answers
      ≡ count r (asks es)
refreshes_answered state es r q =
    let p = poll_steps es (at_start state) in
    let more = offers_tick ∷ loops 10 in
    omega (
      arith,
      accounted_at_rest r (poll_steps more p) (poll_loop_drains state es q),
      poll_steps-accounted r more p,
      poll_steps-accounted r es (at_start state),
      accounted_at_start r state q,
      asks-loops r 10,
    )
