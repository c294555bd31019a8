-- ===== src/Scheduler/Polling/Drain.antt =====
-- Left alone, the loop answers everyone and comes to rest.
use sloppenheimer_ts.Base.{
  ℕ, zero, suc, ◌-◌, ◌≤◌, ◌≡◌, refl, Bool, [], ◌∷◌, List, if◌then◌else◌, arith, ◌==◌, nat_eq, ◌∙◌,
}
use sloppenheimer_ts.Scheduler.State.{RuntimeState}
use sloppenheimer_ts.Scheduler.Scheduling.{
  begin_poll, finish_poll, take_refresh_waiters, promote_refresh_waiters,
}
use sloppenheimer_ts.Scheduler.Polling.{
  Stage, idle, taken, polling, answering, answered, following, promoted, Poller, offer, offer_one,
  take_tick, advance_from, advance, PollEvent, offers_tick, loop_steps, poll_step, poll_steps,
  at_start,
}
use sloppenheimer_ts.Scheduler.Polling.Ticks.{
  IsDebounced, IsQuiet, poll_steps-IsDebounced, at_start-IsDebounced, advance_from-IsDebounced,
  offer_one-IsDebounced,
}

-- How many steps of the loop are left before it waits, if no one asks for anything more.
remaining : Stage → Bool → ℕ → ℕ
remaining idle owed ticks = if ticks == 0 then 0 else 5
remaining taken owed ticks = 4
remaining polling owed ticks = if owed then 10 else 3
remaining (answering ws) owed ticks = if owed then 9 else 2
remaining answered owed ticks = if owed then 8 else 1
remaining following owed ticks = 7
remaining promoted owed ticks = 6

steps_left : Poller → ℕ
steps_left p = remaining p.stage p.state.follow_up_requested p.ticks

take_tick-left :
    (n : ℕ) (p : Poller)
    → p.ticks ≡ n
    → p.stage ≡ idle
    → steps_left (take_tick n p) ≡ steps_left p - 1
unfolding take_tick steps_left remaining
take_tick-left zero p h k = ground arith
take_tick-left (suc n) p h k = ground arith

advance_from-left :
    (stage : Stage) (p : Poller)
    → p.stage ≡ stage
    → IsDebounced p
    → steps_left (advance_from stage p) ≡ steps_left p - 1
unfolding steps_left remaining advance_from begin_poll finish_poll take_refresh_waiters
    promote_refresh_waiters
advance_from-left idle p h v = take_tick-left p.ticks p refl h
advance_from-left stage p h v = ground arith

-- Steps of the loop alone.
unfoldable pub loops : ℕ → List PollEvent
loops zero = []
loops (suc n) = loop_steps ∷ loops n

-- The loop waits for a tick, and no one waits for it.
pub record IsAtRest (p : Poller) : Type 0 where
  pub idles : p.stage ≡ idle
  pub no_ticks : p.ticks ≡ 0
  pub no_offers : p.offers ≡ 0
  pub no_current : p.state.current_refresh_waiters ≡ []
  pub no_next : p.state.next_refresh_waiters ≡ []

rest_at :
    (stage : Stage) (p : Poller)
    → p.stage ≡ stage
    → IsDebounced p
    → p.offers ≡ 0
    → steps_left p ≡ 0
    → IsAtRest p
unfolding steps_left remaining
rest_at idle p h v o z = ground arith
rest_at stage p h v o z = absurd (ground arith)

take_tick-offers : (n : ℕ) (p : Poller) → (take_tick n p).offers ≡ p.offers
unfolding take_tick
take_tick-offers zero p = refl
take_tick-offers (suc n) p = refl

advance_from-offers : (stage : Stage) (p : Poller) → (advance_from stage p).offers ≡ p.offers
unfolding advance_from
advance_from-offers idle p = take_tick-offers p.ticks p
advance_from-offers stage p = refl

loops-IsAtRest :
    (n : ℕ) (p : Poller)
    → IsDebounced p
    → p.offers ≡ 0
    → steps_left p ≤ n
    → IsAtRest (poll_steps (loops n) p)
unfolding poll_steps loops poll_step advance
loops-IsAtRest zero p v o h = rest_at p.stage p refl v o (omega arith)
loops-IsAtRest (suc n) p v o h =
    loops-IsAtRest n (advance_from p.stage p) (advance_from-IsDebounced p.stage p refl v)
      (advance_from-offers p.stage p ∙ o) (omega (arith, advance_from-left p.stage p refl v))

remaining-le : (stage : Stage) (owed : Bool) (ticks : ℕ) → remaining stage owed ticks ≤ 10
unfolding remaining
remaining-le stage owed ticks = ground arith

steps_left-le : (p : Poller) → steps_left p ≤ 10
unfolding steps_left
steps_left-le p = remaining-le p.stage p.state.follow_up_requested p.ticks

offer_one-offers : (n : ℕ) (p : Poller) → p.offers ≡ n → IsDebounced p → (offer_one n p).offers ≡ 0
unfolding offer_one
offer_one-offers zero p h v = h
offer_one-offers (suc n) p h v = ground arith

-- Whatever happened since a quiet start, once a caller that is about to offer its tick has done so,
-- ten more steps of the loop leave it waiting for a tick, with no tick in the mailbox or on its way
-- and no caller waiting for a refresh, if no one asks for anything more.
pub poll_loop_drains :
    (state : RuntimeState) (es : List PollEvent)
    → IsQuiet state
    → IsAtRest (poll_steps (offers_tick ∷ loops 10) (poll_steps es (at_start state)))
unfolding poll_steps poll_step offer
poll_loop_drains state es q =
    let p = poll_steps es (at_start state) in
    let v = poll_steps-IsDebounced es (at_start state) (at_start-IsDebounced state q) in
    loops-IsAtRest 10 (offer_one p.offers p) (offer_one-IsDebounced p.offers p refl v)
      (offer_one-offers p.offers p refl v) (steps_left-le (offer_one p.offers p))
