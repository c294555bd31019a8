-- ===== src/Scheduler/Polling/Freshness.antt =====
-- A refresh is answered by a poll that began after it was asked for.
use sloppenheimer_ts.Base.{
  ℕ, zero, suc, ◌<◌, ◌≡◌, refl, false, [], ◌∷◌, List, arith, All, All-append, subst, sym,
  Bool-cases, inl, inr,
}
use sloppenheimer_ts.Scheduler.State.{RuntimeState, Waiter}
use sloppenheimer_ts.Scheduler.Scheduling.{
  TickSource, change, request_tick, begin_poll, finish_poll, await_refresh, take_refresh_waiters,
  promote_refresh_waiters,
}
use sloppenheimer_ts.Scheduler.Polling.{
  Stage, idle, taken, polling, answering, answered, following, promoted, Poller, Answer, answers_of,
  ask_tick, ask_refresh, offer, offer_one, take_tick, advance_from, advance, PollEvent, asks_tick,
  asks_refresh, offers_tick, loop_steps, poll_step, poll_steps, at_start,
}
use sloppenheimer_ts.Scheduler.Polling.Ticks.{
  IsDebounced, IsQuiet, in_poll, poll_step-IsDebounced, at_start-IsDebounced,
}

-- The callers of a list asked before poll `n` began.
abbrev pub AskedBefore : ℕ → List Waiter → Type 0
AskedBefore n = All (λ w. w.asked_at < n)

abbrev pub IsFresh : Answer → Type 0
IsFresh a = a.waiter.asked_at < a.poll

-- The poll that answers the current callers is the running one, or the next.
abbrev answering_poll : Stage → ℕ → ℕ
answering_poll polling polls = polls
answering_poll idle polls = suc polls
answering_poll taken polls = suc polls
answering_poll (answering ws) polls = suc polls
answering_poll answered polls = suc polls
answering_poll following polls = suc polls
answering_poll promoted polls = suc polls

abbrev being_answered : Stage → List Waiter
being_answered (answering ws) = ws
being_answered idle = []
being_answered taken = []
being_answered polling = []
being_answered answered = []
being_answered following = []
being_answered promoted = []

record AreTimely (p : Poller) : Type 0 where
  answers : All IsFresh p.answers
  held : AskedBefore p.polls (being_answered p.stage)
  current : AskedBefore (answering_poll p.stage p.polls) p.state.current_refresh_waiters
  next : AskedBefore (suc p.polls) p.state.next_refresh_waiters

AskedBefore-suc : (n : ℕ) (ws : List Waiter) → AskedBefore n ws → AskedBefore (suc n) ws
AskedBefore-suc n [] h = tt
AskedBefore-suc n (w ∷ ws) h = (omega arith, AskedBefore-suc n ws h.1)

answers_of-IsFresh : (n : ℕ) (ws : List Waiter) → AskedBefore n ws → All IsFresh (answers_of n ws)
unfolding answers_of
answers_of-IsFresh n [] h = tt
answers_of-IsFresh n (w ∷ ws) h = (h.0, answers_of-IsFresh n ws h.1)

take_tick-AreTimely :
    (n : ℕ) (p : Poller) → p.stage ≡ idle → AreTimely p → AreTimely (take_tick n p)
unfolding take_tick
take_tick-AreTimely zero p h v = v
take_tick-AreTimely (suc n) p h v = record {
  answers = v.answers;
  held = tt;
  current =
      subst (λ s. AskedBefore (answering_poll s p.polls) p.state.current_refresh_waiters) h
        v.current;
  next = v.next;
}

not_polling : (stage : Stage) (n : ℕ) → in_poll stage ≡ false → n < answering_poll stage n
not_polling stage n h = ground arith

-- Asking for a tick leaves the callers alone.
ask_tick-current :
    (source : TickSource) (p : Poller)
    → (ask_tick source p).state.current_refresh_waiters ≡ p.state.current_refresh_waiters
unfolding ask_tick request_tick
ask_tick-current source p = ground arith

ask_tick-next :
    (source : TickSource) (p : Poller)
    → (ask_tick source p).state.next_refresh_waiters ≡ p.state.next_refresh_waiters
unfolding ask_tick request_tick
ask_tick-next source p = ground arith

ask_tick-AreTimely :
    (source : TickSource) (p : Poller) → AreTimely p → AreTimely (ask_tick source p)
unfolding ask_tick
ask_tick-AreTimely source p v = record {
  answers = v.answers;
  held = v.held;
  current =
      subst (AskedBefore (answering_poll p.stage p.polls)) (sym (ask_tick-current source p))
        v.current;
  next = subst (AskedBefore (suc p.polls)) (sym (ask_tick-next source p)) v.next;
}

-- A caller that asks in the course of a poll waits for the next one.
registered : ℕ → Poller → Poller
registered reply p = record p {
  state = await_refresh (record { reply = reply; asked_at = p.polls }) p.state;
}

registered-AreTimely :
    (reply : ℕ) (p : Poller) → IsDebounced p → AreTimely p → AreTimely (registered reply p)
unfolding registered await_refresh
registered-AreTimely reply p d v =
    let w : Waiter = record { reply = reply; asked_at = p.polls } in
    elim (Bool-cases p.state.poll_running) [
      | inl running ↦
          rw (running, await_refresh)
            (record {
              answers = v.answers;
              held = v.held;
              current = v.current;
              next =
                  All-append (λ x. x.asked_at < suc p.polls) p.state.next_refresh_waiters (w ∷ [])
                    v.next (omega arith, tt);
            })
      | inr quiet ↦
          rw (quiet, await_refresh)
            (record {
              answers = v.answers;
              held = v.held;
              current =
                  All-append (λ x. x.asked_at < answering_poll p.stage p.polls)
                    p.state.current_refresh_waiters (w ∷ []) v.current
                    (not_polling p.stage p.polls (ground (arith, d.running)), tt);
              next = v.next;
            })
    ]

module _ (p : Poller) (v : AreTimely p) where
  current_at :
      (stage : Stage)
      → p.stage ≡ stage
      → AskedBefore (answering_poll stage p.polls) p.state.current_refresh_waiters
  current_at stage h =
      subst (λ s. AskedBefore (answering_poll s p.polls) p.state.current_refresh_waiters) h
        v.current

  held_at : (stage : Stage) → p.stage ≡ stage → AskedBefore p.polls (being_answered stage)
  held_at stage h = subst (λ s. AskedBefore p.polls (being_answered s)) h v.held

  advance_from-AreTimely : (stage : Stage) → p.stage ≡ stage → AreTimely (advance_from stage p)
  unfolding advance_from begin_poll finish_poll take_refresh_waiters promote_refresh_waiters
  advance_from-AreTimely idle h = take_tick-AreTimely p.ticks p h v
  advance_from-AreTimely taken h = record {
    answers = v.answers;
    held = tt;
    current = current_at taken h;
    next = AskedBefore-suc (suc p.polls) p.state.next_refresh_waiters v.next;
  }
  advance_from-AreTimely polling h = record {
    answers = v.answers;
    held = current_at polling h;
    current = tt;
    next = v.next;
  }
  advance_from-AreTimely (answering ws) h = record {
    answers =
        All-append IsFresh p.answers (answers_of p.polls ws) v.answers
          (answers_of-IsFresh p.polls ws (held_at (answering ws) h));
    held = tt;
    current = current_at (answering ws) h;
    next = v.next;
  }
  advance_from-AreTimely answered h = elim (Bool-cases p.state.follow_up_requested) [
    | inl owed ↦
        rw (owed, finish_poll)
          (record {
            answers = v.answers;
            held = tt;
            current = current_at answered h;
            next = v.next;
          })
    | inr quiet ↦
        rw (quiet, finish_poll)
          (record {
            answers = v.answers;
            held = tt;
            current = current_at answered h;
            next = v.next;
          })
  ]
  advance_from-AreTimely following h = record {
    answers = v.answers;
    held = tt;
    current =
        All-append (λ w. w.asked_at < suc p.polls) p.state.current_refresh_waiters
          p.state.next_refresh_waiters (current_at following h) v.next;
    next = tt;
  }
  advance_from-AreTimely promoted h = record {
    answers = v.answers;
    held = tt;
    current = current_at promoted h;
    next = v.next;
  }

  offer_one-AreTimely : (n : ℕ) → AreTimely (offer_one n p)
  unfolding offer_one
  offer_one-AreTimely zero = v
  offer_one-AreTimely (suc n) = record {
    answers = v.answers;
    held = v.held;
    current = v.current;
    next = v.next;
  }

poll_step-AreTimely :
    (e : PollEvent) (p : Poller) → IsDebounced p → AreTimely p → AreTimely (poll_step e p)
unfolding poll_step offer advance ask_refresh registered
poll_step-AreTimely (asks_tick source) p d v = ask_tick-AreTimely source p v
poll_step-AreTimely (asks_refresh reply) p d v =
    ask_tick-AreTimely change (registered reply p) (registered-AreTimely reply p d v)
poll_step-AreTimely offers_tick p d v = offer_one-AreTimely p v p.offers
poll_step-AreTimely loop_steps p d v = advance_from-AreTimely p v p.stage refl

poll_steps-AreTimely :
    (es : List PollEvent) (p : Poller) → IsDebounced p → AreTimely p → AreTimely (poll_steps es p)
unfolding poll_steps
poll_steps-AreTimely [] p d v = v
poll_steps-AreTimely (e ∷ es) p d v =
    poll_steps-AreTimely es (poll_step e p) (poll_step-IsDebounced e p d)
      (poll_step-AreTimely e p d v)

at_start-AreTimely : (state : RuntimeState) → IsQuiet state → AreTimely (at_start state)
at_start-AreTimely state q = record {
  answers = tt;
  held = tt;
  current = subst (AskedBefore 1) (sym q.no_current) tt;
  next = subst (AskedBefore 1) (sym q.no_next) tt;
}

-- Whatever happens from a quiet start, a caller that waits for a refresh is answered only by a poll
-- that began after it asked.
pub refreshes_are_timely :
    (state : RuntimeState) (es : List PollEvent)
    → IsQuiet state
    → All IsFresh (poll_steps es (at_start state)).answers
refreshes_are_timely state es q =
    (poll_steps-AreTimely es (at_start state) (at_start-IsDebounced state q)
      (at_start-AreTimely state q)).answers
